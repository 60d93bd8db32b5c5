-- ===== src/DeepCopy/Arrays.antt =====
-- Reading and writing what lies at one address.
use Prim.Native.Nat.{◌+◌, ◌<◌}
use otterscale_operator.Common.{
  ℕ, ◌≡◌, refl, ap, ◌∙◌, Option, some, List, [], ◌∷◌, ◌++◌, map, arith, ◌⊎◌,
}
use otterscale_operator.Common.Exec.{ok}
use otterscale_operator.Common.Lists.{
  get_elem?, get_elem?-append, length, replicate, set, set-append,
}
use otterscale_operator.DeepCopy.Structs.{Layout, Heap, Value}
use otterscale_operator.DeepCopy.Memory.{Stored, put, make, load_at, store_at, length_at}

pub put_self :
    {F : Layout} (p : ℕ) (xs : List (Value F)) (cell : ℕ → Option (List (Value F)))
    → put p xs cell p ≡ some xs
put_self p xs cell = ground arith

pub put_other :
    {F : Layout} (p q : ℕ) (xs : List (Value F)) (cell : ℕ → Option (List (Value F)))
    → q < p ⊎ p < q
    → put p xs cell q ≡ cell q
put_other p q xs cell h = ground arith

module _ {F : Layout} where
  abbrev pub fresh : Heap F → List (Value F) → Heap F
  fresh h xs = record { next = h.next + 1; cell = put h.next xs h.cell }

  abbrev pub written : Heap F → ℕ → List (Value F) → Heap F
  written h p xs = record h { cell = put p xs h.cell }

module _ {F : Layout} {A : Type 0} where
  pub load_at_lem :
      (S : Stored F A) (p i : ℕ) (h : Heap F) (xs : List (Value F)) (a : A)
      → h.cell p ≡ some xs
      → get_elem? xs i ≡ some (S.to_value a)
      → load_at S p i h ≡ (ok a, h)
  unfolding load_at
  load_at_lem S p i h xs a e d = rw (e) (rw d (rw (S.of_value-to_value a)))

  pub store_at_lem :
      (S : Stored F A) (p i : ℕ) (h : Heap F) (xs : List (Value F)) (old : Value F) (a : A)
      → h.cell p ≡ some xs
      → get_elem? xs i ≡ some old
      → store_at S p i a h ≡ (ok tt, written h p (set xs i (S.to_value a)))
  unfolding store_at
  store_at_lem S p i h xs old a e d = rw e (rw d)

  pub make_lem :
      (S : Stored F A) (n : ℕ) (h : Heap F)
      → make S n h ≡ (ok h.next, fresh h (replicate n (S.to_value S.zero_value)))
  unfolding make
  make_lem S n h = refl

module _ {F : Layout} {A : Type 0} (S : Stored F A) where
  pub load_at-append :
      (p i : ℕ) (h : Heap F) (us vs : List (Value F)) (a : A)
      → i ≡ length us
      → h.cell p ≡ some (us ++ S.to_value a ∷ vs)
      → load_at S p i h ≡ (ok a, h)
  load_at-append p i h us vs a n e =
      load_at_lem S p i h _ a e (rw n (get_elem?-append us vs (S.to_value a)))

  pub store_at-append :
      (p i : ℕ) (h : Heap F) (us vs : List (Value F)) (old : Value F) (a : A)
      → i ≡ length us
      → h.cell p ≡ some (us ++ old ∷ vs)
      → store_at S p i a h ≡ (ok tt, written h p (us ++ S.to_value a ∷ vs))
  store_at-append p i h us vs old a n e =
      store_at_lem S p i h _ old a e (rw n (get_elem?-append us vs old))
      ∙ ap (λ xs. (ok tt, written h p xs))
          (ap (λ j. set (us ++ old ∷ vs) j (S.to_value a)) n ∙ set-append us vs old (S.to_value a))

  length-map : (xs : List A) → length (map S.to_value xs) ≡ length xs
  length-map [] = refl
  length-map (x ∷ xs) = omega (arith, length-map xs)

  pub length_at_lem :
      (p : ℕ) (h : Heap F) (xs : List A)
      → h.cell p ≡ some (map S.to_value xs)
      → length_at S p h ≡ (ok (length xs), h)
  unfolding length_at
  length_at_lem p h xs e = rw e (rw (length-map xs))

-- ===== src/DeepCopy/Holds.antt =====
-- What a value in memory holds: the value of the API that it stands for, with all that can be written
-- through it at addresses of one region.
use Prim.Native.Nat.{◌≤◌, ◌<◌}
use otterscale_operator.Common.{
  ℕ, String, ◌≡◌, refl, subst, ◌∙◌, Option, none, some, List, [], ◌∷◌, map, arith,
}
use otterscale_operator.Common.Exec.{Exec, ok, pure, ◌>>=◌}
use otterscale_operator.Api.Meta.{ResourceReference}
use otterscale_operator.DeepCopy.Structs.{Layout, Pointer, Slice, Heap}
use otterscale_operator.DeepCopy.Memory.{Stored}
use otterscale_operator.DeepCopy.Stored.{stored_text, stored_reference}

-- The content of a value of A is a C, at the addresses from the first number up to the second.
abbrev pub Holding : Layout → Type 0 → Type 0 → Type 1
Holding F A C = ℕ → ℕ → Heap F → A → C → Type 0

module _ {F : Layout} where
  abbrev pub Plain : {A : Type 0} → Holding F A A
  Plain lo hi h a c = a ≡ c

  abbrev pub SameIn : ℕ → ℕ → Heap F → Heap F → Type 0
  SameIn lo hi h h' = (q : ℕ) → lo ≤ q → q < hi → h'.cell q ≡ h.cell q

  -- New memory may have been taken, and what was there is as it was.
  abbrev pub Extends : Heap F → Heap F → Type 0
  Extends h h' = (h.next ≤ h'.next) × SameIn 0 h.next h h'

  -- It returns, without a panic.
  abbrev pub Yields : {A : Type 0} → Exec (Heap F) A → Heap F → (A → Heap F → Type 0) → Type 0
  Yields {A} m h Q = (a : A) × (h' : Heap F) × (m h ≡ (ok a, h')) × Q a h'

  module _ {A C : Type 0} (R : Holding F A C) where
    abbrev pub Elements : ℕ → ℕ → Heap F → List A → List C → Type 0
    Elements lo hi h [] [] = Unit
    Elements lo hi h [] (c ∷ cs) = ⊥
    Elements lo hi h (a ∷ xs) [] = ⊥
    Elements lo hi h (a ∷ xs) (c ∷ cs) = R lo hi h a c × Elements lo hi h xs cs

    module _ (S : Stored F A) where
      abbrev pub Points : Holding F Pointer (Option C)
      Points lo hi h none none = Unit
      Points lo hi h none (some c) = ⊥
      Points lo hi h (some p) none = ⊥
      Points lo hi h (some p) (some c) =
          (lo ≤ p) × (p < hi) × ((a : A) × (h.cell p ≡ some (S.to_value a ∷ [])) × R lo hi h a c)

      -- The API takes a nil slice and an empty one for the same.
      abbrev pub Slices : Holding F Slice (List C)
      Slices lo hi h none [] = Unit
      Slices lo hi h none (c ∷ cs) = ⊥
      Slices lo hi h (some p) cs =
          (lo ≤ p)
          × (p < hi)
          × ((xs : List A) × (h.cell p ≡ some (map S.to_value xs)) × Elements lo hi h xs cs)

  -- `*string` and `*ResourceReference`
  abbrev pub TextHolds : Holding F Pointer (Option String)
  TextHolds = Points Plain stored_text

  abbrev pub ReferenceHolds : Holding F Pointer (Option ResourceReference)
  ReferenceHolds = Points Plain stored_reference

  -- A deep copy: it returns a value with the same content, at addresses that were free, and changes
  -- nothing that was there.
  abbrev pub Copies : {A C : Type 0} → Holding F A C → (A → Exec (Heap F) A) → Type 0
  Copies {A} {C} R f =
      (lo hi : ℕ) (h : Heap F) (a : A) (c : C)
      → R lo hi h a c
      → hi ≤ h.next
      → Yields (f a) h (λ b h'. Extends h h' × R h.next h'.next h' b c)

  -- The content lies in the region alone.
  abbrev pub IsLocal : {A C : Type 0} → Holding F A C → Type 0
  IsLocal {A} {C} R =
      (lo hi lo' hi' : ℕ) (h h' : Heap F) (a : A) (c : C)
      → lo' ≤ lo
      → hi ≤ hi'
      → SameIn lo hi h h'
      → R lo hi h a c
      → R lo' hi' h' a c

  pub record Copying {A C : Type 0} (R : Holding F A C) (f : A → Exec (Heap F) A) : Type 0 where
    pub local : IsLocal R
    pub copies : Copies R f

  pub Extends-refl : (h : Heap F) → Extends h h
  Extends-refl h = (omega arith, λ q _ _. refl)

  pub Extends-trans : (h h1 h2 : Heap F) → Extends h h1 → Extends h1 h2 → Extends h h2
  Extends-trans h h1 h2 (n, e) (m, d) = (omega arith, λ q a b. d q a (omega arith) ∙ e q a b)

  -- A step of a deep copy: the part `a` of a value in `h0` is copied in `h`, and the rest `g` follows.
  pub copy_step :
      {A C X : Type 0} {R : Holding F A C} {f : A → Exec (Heap F) A}
      → Copying R f
      → (lo hi : ℕ) (h0 h : Heap F) (a : A) (c : C) → R lo hi h0 a c
      → hi ≤ h0.next
      → Extends h0 h
      → {g : A → Exec (Heap F) X} {T : X → Heap F → Type 0}
      → ((b : A) (h1 : Heap F)
          → Extends h0 h1
          → Yields (g b) h1 (λ x h2. Extends h1 h2 × (R h0.next h2.next h2 b c → T x h2)))
      → Yields (f a >>= g) h (λ x h2. Extends h h2 × T x h2)
  copy_step {R = R} {f} K lo hi h0 h a c held below (n, e) {g} {T} rest =
      let here : R lo hi h a c =
        K.local lo hi lo hi h0 h a c (omega arith) (omega arith)
          (λ q l u. e q (omega arith) (omega arith)) held in
      let (b, h1, run, ((n1, e1), there)) = K.copies lo hi h a c here (omega arith) in
      let (x, h2, run2, ((n2, e2), final)) = rest b h1 (Extends-trans h0 h h1 (n, e) (n1, e1)) in
      let moved : R h0.next h2.next h2 b c =
        K.local h.next h1.next h0.next h2.next h1 h2 b c n n2 (λ q l u. e2 q (omega arith) u)
          there in
      (x, h2, rw run run2, (Extends-trans h h1 h2 (n1, e1) (n2, e2), final moved))

  pub copy_end :
      {X : Type 0} (x : X) (h : Heap F) {T : X → Heap F → Type 0}
      → T x h
      → Yields (pure x) h (λ y h2. Extends h h2 × T y h2)
  copy_end x h t = (x, h, refl, (Extends-refl h, t))

  -- The same for a given run.
  pub Copying-run :
      {A C : Type 0} {R : Holding F A C} {f : A → Exec (Heap F) A}
      → Copying R f
      → (lo hi : ℕ) (h h' : Heap F) (a b : A) (c : C) → R lo hi h a c
      → hi ≤ h.next
      → f a h ≡ (ok b, h')
      → Extends h h' × R h.next h'.next h' b c
  Copying-run {R = R} K lo hi h h' a b c held below run =
      let (b2, h2, run2, copied) = K.copies lo hi h a c held below in
      let same_value : b2 ≡ b = cc in
      let same_heap : h2 ≡ h' = cc in
      subst (λ x. Extends h h' × R h.next h'.next h' x c) same_value
        (subst (λ g. Extends h g × R h.next g.next g b2 c) same_heap copied)

-- ===== src/DeepCopy/Blocks.antt =====
-- The blocks for a pointer and for a slice are deep copies if the code for an element is.
use Prim.Native.Nat.{◌≤◌}
use otterscale_operator.Common.{ℕ, refl, ◌∙◌, none, some, List, [], ◌∷◌, arith, inl, inr}
use otterscale_operator.Common.Exec.{Exec, pure}
use otterscale_operator.DeepCopy.Structs.{Layout, Heap}
use otterscale_operator.DeepCopy.Memory.{Stored, copy_pointer}
use otterscale_operator.DeepCopy.Stored.{stored_text, stored_reference}
use otterscale_operator.DeepCopy.Arrays.{
  put_self, put_other, fresh, written, load_at_lem, store_at_lem, make_lem,
}
use otterscale_operator.DeepCopy.Holds.{
  Holding, Plain, SameIn, Elements, Points, Slices, Copies, IsLocal, Copying, Extends-refl,
  TextHolds, ReferenceHolds,
}

module _ {F : Layout} {A : Type 0} where
  pub plain-Copying : Copying {F = F} {A = A} Plain pure
  plain-Copying = record {
    local = λ lo hi lo' hi' h h' a c l u e p. p;
    copies = λ lo hi h a c p below. (a, h, refl, (Extends-refl h, p));
  }

module _ {F : Layout} {A C : Type 0} {R : Holding F A C} (S : Stored F A) where
  pub Elements-local :
      IsLocal R
      → (lo hi lo' hi' : ℕ) (h h' : Heap F) (xs : List A) (cs : List C) → lo' ≤ lo
      → hi ≤ hi'
      → SameIn lo hi h h'
      → Elements R lo hi h xs cs
      → Elements R lo' hi' h' xs cs
  Elements-local local lo hi lo' hi' h h' [] [] l u e d = tt
  Elements-local local lo hi lo' hi' h h' [] (c ∷ cs) l u e d = absurd d
  Elements-local local lo hi lo' hi' h h' (x ∷ xs) [] l u e d = absurd d
  Elements-local local lo hi lo' hi' h h' (x ∷ xs) (c ∷ cs) l u e (d, ds) =
      (local lo hi lo' hi' h h' x c l u e d, Elements-local local lo hi lo' hi' h h' xs cs l u e ds)

  Points-IsLocal : IsLocal R → IsLocal (Points R S)
  Points-IsLocal local lo hi lo' hi' h h' none none l u e d = tt
  Points-IsLocal local lo hi lo' hi' h h' none (some c) l u e d = absurd d
  Points-IsLocal local lo hi lo' hi' h h' (some p) none l u e d = absurd d
  Points-IsLocal local lo hi lo' hi' h h' (some p) (some c) l u e (m, n, (a, at, d)) =
      (omega arith, omega arith, (a, e p m n ∙ at, local lo hi lo' hi' h h' a c l u e d))

  pub Slices-IsLocal : IsLocal R → IsLocal (Slices R S)
  Slices-IsLocal local lo hi lo' hi' h h' none [] l u e d = tt
  Slices-IsLocal local lo hi lo' hi' h h' none (c ∷ cs) l u e d = absurd d
  Slices-IsLocal local lo hi lo' hi' h h' (some p) cs l u e (m, n, (xs, at, d)) = (
    omega arith,
    omega arith,
    (xs, e p m n ∙ at, Elements-local local lo hi lo' hi' h h' xs cs l u e d),
  )

  pointer-Copies : {f : A → Exec (Heap F) A} → Copying R f → Copies (Points R S) (copy_pointer S f)
  unfolding copy_pointer
  pointer-Copies K lo hi h none none d below = (none, h, refl, (Extends-refl h, tt))
  pointer-Copies K lo hi h none (some c) d below = absurd d
  pointer-Copies K lo hi h (some p) none d below = absurd d
  pointer-Copies {f} K lo hi h (some p) (some c) (m, n, (a, at, d)) below =
      let h1 = fresh h (S.to_value S.zero_value ∷ []) in
      let same : SameIn 0 h.next h h1 = λ q _ u. put_other h.next q _ h.cell (inl u) in
      let (b, h2, run, ((n2, e2), there)) =
        K.copies lo hi h1 a c
          (K.local lo hi lo hi h h1 a c (omega arith) (omega arith)
            (λ q _ u. same q (omega arith) (omega arith)) d)
          (omega arith) in
      let h3 = written h2 h.next (S.to_value b ∷ []) in
      (
        some h.next,
        h3,
        rw (make_lem S 1 h) (
            rw (load_at_lem S p 0 h1 _ a (same p (omega arith) (omega arith) ∙ at) refl) (
              rw run (
                rw (
                  store_at_lem S h.next 0 h2 _ (S.to_value S.zero_value) b
                    (e2 h.next (omega arith) (omega arith) ∙ put_self h.next _ h.cell) refl)))),
        (
          (
            omega arith,
            λ q l u. put_other h.next q _ h2.cell (inl u) ∙ e2 q l (omega arith) ∙ same q l u,
          ),
          (
            omega arith,
            omega arith,
            (
              b,
              put_self h.next _ h2.cell,
              K.local h1.next h2.next h.next h2.next h2 h3 b c (omega arith) (omega arith)
                  (λ q l u. put_other h.next q _ h2.cell (inr (omega arith))) there,
            ),
          ),
        ),
      )

  pub pointer-Copying :
      {f : A → Exec (Heap F) A} → Copying R f → Copying (Points R S) (copy_pointer S f)
  pointer-Copying K = record { local = Points-IsLocal K.local; copies = pointer-Copies K }

module _ {F : Layout} where
  pub text-Copying : Copying {F = F} TextHolds (copy_pointer stored_text pure)
  text-Copying = pointer-Copying stored_text plain-Copying

  pub reference-Copying : Copying {F = F} ReferenceHolds (copy_pointer stored_reference pure)
  reference-Copying = pointer-Copying stored_reference plain-Copying

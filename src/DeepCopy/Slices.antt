-- ===== src/DeepCopy/Slices.antt =====
-- The block for a slice is a deep copy if the code for an element is.
use otterscale_operator.Common.{refl, ◌∙◌, none, some, [], ◌∷◌, arith, inl}
use otterscale_operator.Common.Exec.{Exec}
use otterscale_operator.Common.Lists.{length}
use otterscale_operator.DeepCopy.Structs.{Layout, Heap}
use otterscale_operator.DeepCopy.Memory.{Stored, copy_slice}
use otterscale_operator.DeepCopy.Arrays.{put_self, put_other, fresh, make_lem, length_at_lem}
use otterscale_operator.DeepCopy.Holds.{Holding, SameIn, Slices, Copies, Copying, Extends-refl}
use otterscale_operator.DeepCopy.Blocks.{Elements-local, Slices-IsLocal}
use otterscale_operator.DeepCopy.Loop.{zeros, fill}

module _ {F : Layout} {A C : Type 0} {R : Holding F A C} (S : Stored F A) where
  slice-Copies : {f : A → Exec (Heap F) A} → Copying R f → Copies (Slices R S) (copy_slice S f)
  unfolding copy_slice
  slice-Copies K lo hi h none [] d below = (none, h, refl, (Extends-refl h, tt))
  slice-Copies K lo hi h none (c ∷ cs) d below = absurd d
  slice-Copies {f} K lo hi h (some p) cs (m, n, (xs, at, d)) below =
      let h1 = fresh h (zeros S xs) in
      let same : SameIn 0 h.next h h1 = λ q _ u. put_other h.next q _ h.cell (inl u) in
      let (ys, h2, run, n2, low, high, at_q, copied) =
        fill S K p h.next lo hi 0 [] [] xs cs h1 (omega arith) below (omega arith) (
          refl,
          refl,
          same p (omega arith) (omega arith) ∙ at,
          put_self h.next _ h.cell,
          Elements-local S K.local lo hi lo hi h h1 xs cs (omega arith) (omega arith)
              (λ q _ u. same q (omega arith) (omega arith)) d,
        ) in
      (
        some h.next,
        h2,
        rw (length_at_lem S p h xs at) (rw (make_lem S (length xs) h) (rw run)),
        (
          (omega arith, λ q l u. low q l u ∙ same q l u),
          (
            omega arith,
            omega arith,
            (
              ys,
              at_q,
              Elements-local S K.local h1.next h2.next h.next h2.next h2 h2 ys cs (omega arith)
                  (omega arith) (λ _ _ _. refl) copied,
            ),
          ),
        ),
      )

  pub slice-Copying :
      {f : A → Exec (Heap F) A} → Copying R f → Copying (Slices R S) (copy_slice S f)
  slice-Copying K = record { local = Slices-IsLocal S K.local; copies = slice-Copies K }

-- ===== src/DeepCopy/Loop.antt =====
-- The loop over the elements of a slice fills the new array with copies.
use Prim.Native.Nat.{◌+◌, ◌≤◌, ◌<◌}
use mathlib.Core.List.{append_assoc}
use otterscale_operator.Common.{
  ℕ, ◌≡◌, refl, sym, ap, ◌∙◌, some, List, [], ◌∷◌, ◌++◌, map, arith, inl, inr,
}
use otterscale_operator.Common.Exec.{Exec, ok}
use otterscale_operator.Common.Lists.{length, length-snoc, replicate}
use otterscale_operator.DeepCopy.Structs.{Layout, Heap, Value}
use otterscale_operator.DeepCopy.Memory.{Stored, copy_element, copy_elements}
use otterscale_operator.DeepCopy.Arrays.{
  put_self, put_other, written, load_at-append, store_at-append,
}
use otterscale_operator.DeepCopy.Holds.{Holding, SameIn, Elements, Copying}
use otterscale_operator.DeepCopy.Blocks.{Elements-local}

module _ {F : Layout} {A : Type 0} (S : Stored F A) where
  abbrev pub zeros : List A → List (Value F)
  zeros xs = replicate (length xs) (S.to_value S.zero_value)

  -- What the loop has done from a state on: the array `q`, of which `us` was written, holds copies of
  -- the rest, and nothing else that was there is changed.
  abbrev pub Filled :
      {C : Type 0}
      → Holding F A C
      → (A → Exec (Heap F) A)
      → ℕ
      → ℕ
      → ℕ
      → List (Value F)
      → List A
      → List C
      → Heap F
      → Type 0
  Filled R f p q i us xs cs h =
      (ys : List A) × (h' : Heap F) × (copy_elements S f p q i (length xs) h ≡ (ok tt, h'))
      × (h.next ≤ h'.next)
      × SameIn 0 q h h'
      × SameIn (q + 1) h.next h h'
      × (h'.cell q ≡ some (us ++ map S.to_value ys))
      × Elements R h.next h'.next h' ys cs

  -- What the loop finds: the array `p`, of which it has read `ws`, holds the rest of the elements, and
  -- the array `q`, of which it has written `us`, has room for them.
  abbrev pub Fillable :
      {C : Type 0}
      → Holding F A C
      → ℕ
      → ℕ
      → ℕ
      → ℕ
      → ℕ
      → List (Value F)
      → List (Value F)
      → List A
      → List C
      → Heap F
      → Type 0
  Fillable R p q lo hi i ws us xs cs h =
      (i ≡ length ws)
      × (i ≡ length us)
      × (h.cell p ≡ some (ws ++ map S.to_value xs))
      × (h.cell q ≡ some (us ++ zeros xs))
      × Elements R lo hi h xs cs

module _ {F : Layout} {A C : Type 0} {R : Holding F A C} (S : Stored F A) where
  -- One round of the loop.
  copy_element-fills :
      {f : A → Exec (Heap F) A}
      → Copying R f
      → (p q lo hi i : ℕ) (ws us vs : List (Value F)) (old : Value F) (x : A)
        (rest : List (Value F)) (c : C) (h : Heap F)
      → i ≡ length ws
      → i ≡ length us
      → h.cell p ≡ some (ws ++ S.to_value x ∷ rest)
      → h.cell q ≡ some (us ++ old ∷ vs)
      → R lo hi h x c
      → hi ≤ q
      → q < h.next
      → (b : A) × (h2 : Heap F) × (copy_element S f p q i h ≡ (ok tt, h2))
        × (h.next ≤ h2.next)
        × SameIn 0 q h h2
        × SameIn (q + 1) h.next h h2
        × (h2.cell q ≡ some (us ++ S.to_value b ∷ vs))
        × R h.next h2.next h2 b c
  unfolding copy_element
  copy_element-fills K p q lo hi i ws us vs old x rest c h m n at_p at_q d u r =
      let (b, h1, run, ((n1, e1), there)) = K.copies lo hi h x c d (omega arith) in
      let h2 = written h1 q (us ++ S.to_value b ∷ vs) in
      (
        b,
        h2,
        rw (load_at-append S p i h ws rest x m at_p)
            (rw run (store_at-append S q i h1 us vs old b n (e1 q (omega arith) r ∙ at_q))),
        n1,
        λ s a t. put_other q s _ h1.cell (inl t) ∙ e1 s a (omega arith),
        λ s a t. put_other q s _ h1.cell (inr (omega arith)) ∙ e1 s (omega arith) t,
        put_self q _ h1.cell,
        K.local h.next h1.next h.next h1.next h1 h2 b c (omega arith) (omega arith)
            (λ s a t. put_other q s _ h1.cell (inr (omega arith))) there,
      )

  -- A round and then the rest of the loop.
  Filled-next :
      {f : A → Exec (Heap F) A}
      → Copying R f
      → (p q i : ℕ) (us : List (Value F)) (x b : A) (xs : List A) (c : C) (cs : List C)
        (h h2 : Heap F)
      → copy_element S f p q i h ≡ (ok tt, h2)
      → h.next ≤ h2.next
      → SameIn 0 q h h2
      → SameIn (q + 1) h.next h h2
      → R h.next h2.next h2 b c
      → q < h.next
      → Filled S R f p q (i + 1) (us ++ S.to_value b ∷ []) xs cs h2
      → Filled S R f p q i us (x ∷ xs) (c ∷ cs) h
  unfolding copy_elements
  Filled-next K p q i us x b xs c cs h h2 run n2 low high there r
        (ys, h3, rest, n3, low3, high3, at_q, copied) =
      (
        b ∷ ys,
        h3,
        rw run rest,
        omega arith,
        λ s a t. low3 s a t ∙ low s a t,
        λ s a t. high3 s a (omega arith) ∙ high s a t,
        at_q ∙ ap some (append_assoc us (S.to_value b ∷ []) (map S.to_value ys)),
        (
          K.local h.next h2.next h.next h3.next h2 h3 b c (omega arith) (omega arith)
              (λ s a t. high3 s (omega arith) t) there,
          Elements-local S K.local h2.next h3.next h.next h3.next h3 h3 ys cs (omega arith)
              (omega arith) (λ _ _ _. refl) copied,
        ),
      )

  Fillable-next :
      {f : A → Exec (Heap F) A}
      → Copying R f
      → (p q lo hi i : ℕ) (ws us : List (Value F)) (x b : A) (xs : List A) (c : C) (cs : List C)
        (h h2 : Heap F)
      → p < q
      → hi ≤ q
      → SameIn 0 q h h2
      → h2.cell q ≡ some (us ++ S.to_value b ∷ zeros S xs)
      → Fillable S R p q lo hi i ws us (x ∷ xs) (c ∷ cs) h
      → Fillable S R p q lo hi (i + 1) (ws ++ S.to_value x ∷ []) (us ++ S.to_value b ∷ []) xs cs h2
  Fillable-next K p q lo hi i ws us x b xs c cs h h2 l u low at_q2 (m, n, at_p, at_q, (d, ds)) = (
    omega (arith, length-snoc {0} ws (S.to_value x)),
    omega (arith, length-snoc {0} us (S.to_value b)),
    low p (omega arith) l
        ∙ at_p
        ∙ ap some (sym (append_assoc ws (S.to_value x ∷ []) (map S.to_value xs))),
    at_q2 ∙ ap some (sym (append_assoc us (S.to_value b ∷ []) (zeros S xs))),
    Elements-local S K.local lo hi lo hi h h2 xs cs (omega arith) (omega arith)
        (λ s a b. low s (omega arith) (omega arith)) ds,
  )

  pub fill :
      {f : A → Exec (Heap F) A}
      → Copying R f
      → (p q lo hi i : ℕ) (ws us : List (Value F)) (xs : List A) (cs : List C) (h : Heap F) → p < q
      → hi ≤ q
      → q < h.next
      → Fillable S R p q lo hi i ws us xs cs h
      → Filled S R f p q i us xs cs h
  unfolding copy_elements
  fill K p q lo hi i ws us [] [] h l u r (m, n, at_p, at_q, d) =
      ([], h, refl, omega arith, λ _ _ _. refl, λ _ _ _. refl, at_q, tt)
  fill K p q lo hi i ws us [] (c ∷ cs) h l u r (m, n, at_p, at_q, d) = absurd d
  fill K p q lo hi i ws us (x ∷ xs) [] h l u r (m, n, at_p, at_q, d) = absurd d
  fill K p q lo hi i ws us (x ∷ xs) (c ∷ cs) h l u r (m, n, at_p, at_q, (d, ds)) =
      let (b, h2, run, n2, low, high, at_q2, there) =
        copy_element-fills K p q lo hi i ws us (zeros S xs) _ x _ c h m n at_p at_q d u r in
      Filled-next K p q i us x b xs c cs h h2 run n2 low high there r (
        fill K p q lo hi (i + 1) (ws ++ S.to_value x ∷ []) (us ++ S.to_value b ∷ []) xs cs h2 l u
          (omega arith)
          (Fillable-next K p q lo hi i ws us x b xs c cs h h2 l u low at_q2
            (m, n, at_p, at_q, (d, ds))))

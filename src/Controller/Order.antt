-- ===== src/Controller/Order.antt =====
-- The order of texts, by which conditions are sorted, is total.
use Prim.Native.Nat.compare as compare_ℕ
use Prim.Native.Nat.{ℕ, zero, suc, Ordering, compare as compare_ℕ}
use Prim.Native.Char.{code}
use Prim.Native.String.compare
use Prim.Native.String.{String, [], ◌∷◌, compare, then}
use mathlib.Core.Path.{◌≡◌, refl, sym, ap, ◌∙◌}
use mathlib.Core.Logic.{◌≢◌}
use mathlib.Core.Bool.{true, false}
use text.Mathlib.Text.{is_le}
use text.Mathlib.TextPositions.{compare_refl}

turned : Ordering → Ordering
turned Ordering.lt = Ordering.gt
turned Ordering.eq = Ordering.eq
turned Ordering.gt = Ordering.lt

turned-then : (o r : Ordering) → turned (then o r) ≡ then (turned o) (turned r)
unfolding turned
turned-then Ordering.lt r = refl
turned-then Ordering.eq r = refl
turned-then Ordering.gt r = refl

numbers-turned : (m n : ℕ) → compare_ℕ n m ≡ turned (compare_ℕ m n)
unfolding turned
numbers-turned zero zero = compare_ℕ.zero-zero ∙ ap turned (sym compare_ℕ.zero-zero)
numbers-turned zero (suc n) = compare_ℕ.suc-zero n ∙ ap turned (sym (compare_ℕ.zero-suc n))
numbers-turned (suc m) zero = compare_ℕ.zero-suc m ∙ ap turned (sym (compare_ℕ.suc-zero m))
numbers-turned (suc m) (suc n) =
    compare_ℕ.suc-suc n m ∙ (numbers-turned m n ∙ ap turned (sym (compare_ℕ.suc-suc m n)))

texts-turned : (s t : String) → compare t s ≡ turned (compare s t)
unfolding turned
texts-turned [] [] = compare.nil-nil ∙ ap turned (sym compare.nil-nil)
texts-turned [] (d ∷ t) = compare.cons-nil d t ∙ ap turned (sym (compare.nil-cons d t))
texts-turned (c ∷ s) [] = compare.nil-cons c s ∙ ap turned (sym (compare.cons-nil c s))
texts-turned (c ∷ s) (d ∷ t) =
    compare.cons-cons d c t s
    ∙ (ap (λ o. then o (compare t s)) (numbers-turned (code c) (code d))
        ∙ (ap (λ o. then (turned (compare_ℕ (code c) (code d))) o) (texts-turned s t)
            ∙ (sym (turned-then (compare_ℕ (code c) (code d)) (compare s t))
                ∙ ap turned (sym (compare.cons-cons c d s t)))))

le_turned : (o : Ordering) → is_le o ≡ false → is_le (turned o) ≡ true
unfolding turned
le_turned Ordering.lt h = cc
le_turned Ordering.eq h = cc
le_turned Ordering.gt h = refl

pub le_total : (s t : String) → is_le (compare s t) ≡ false → is_le (compare t s) ≡ true
le_total s t h = ap is_le (texts-turned s t) ∙ le_turned (compare s t) h

pub ne_of_not_le : (s t : String) → is_le (compare s t) ≡ false → s ≢ t
ne_of_not_le s t h e = cc (ap is_le (ap (λ u. compare s u) (sym e) ∙ compare_refl s))

-- ===== src/Controller/Sorting.antt =====
-- Sorting conditions keeps every one of them.
use mathlib.Core.List.{Perm}
use mathlib.Core.List.Perm
use otterscale_operator.Common.{
  String, ◌≡◌, ◌≢◌, refl, ap, ◌∙◌, true, some, List, [], ◌∷◌, inl, inr, Bool-cases, ◌==◌, eq_iff,
  arith, if◌then◌else◌,
}
use otterscale_operator.Kube.{Kube}
use otterscale_operator.Kube.Laws.{ConditionLaws}
use otterscale_operator.Controller.Order.{le_total, ne_of_not_le}
use otterscale_operator.Api.Meta.{Condition}
use otterscale_operator.Controller.{type_le, insert_condition, sort_conditions}

insert_condition-perm :
    (c : Condition) (cs : List Condition) → Perm (insert_condition c cs) (c ∷ cs)
unfolding insert_condition
insert_condition-perm c [] = Perm.refl (c ∷ [])
insert_condition-perm c (d ∷ ds) = elim (Bool-cases (type_le c d)) [
  | inl before ↦ rw before (Perm.refl (c ∷ d ∷ ds))
  | inr after ↦ rw after (Perm.trans (Perm.cons d (insert_condition-perm c ds)) (Perm.swap c d ds))
]

pub sort_conditions-perm : (cs : List Condition) → Perm (sort_conditions cs) cs
unfolding sort_conditions
sort_conditions-perm [] = Perm.refl []
sort_conditions-perm (c ∷ cs) =
    Perm.trans (insert_condition-perm c (sort_conditions cs))
      (Perm.cons c (sort_conditions-perm cs))

-- Sorted by type.
abbrev IsBelow : Condition → List Condition → Type 0
IsBelow c [] = Unit {0}
IsBelow c (d ∷ ds) = type_le c d ≡ true

abbrev pub IsSorted : List Condition → Type 0
IsSorted [] = Unit {0}
IsSorted (c ∷ cs) = IsBelow c cs × IsSorted cs

insert_condition-IsBelow :
    (d c : Condition) (ds : List Condition)
    → type_le d c ≡ true
    → IsBelow d ds
    → IsBelow d (insert_condition c ds)
unfolding insert_condition
insert_condition-IsBelow d c [] le below = le
insert_condition-IsBelow d c (x ∷ ds) le below = elim (Bool-cases (type_le c x)) [
  | inl before ↦ rw before le
  | inr after ↦ rw after below
]

insert_condition-IsSorted :
    (c : Condition) (cs : List Condition) → IsSorted cs → IsSorted (insert_condition c cs)
unfolding insert_condition
insert_condition-IsSorted c [] sorted = (tt, tt)
insert_condition-IsSorted c (d ∷ ds) (below, sorted) = elim (Bool-cases (type_le c d)) [
  | inl before ↦ rw before (before, (below, sorted))
  | inr after ↦ rw after (
    insert_condition-IsBelow d c ds (le_total c.type d.type after) below,
    insert_condition-IsSorted c ds sorted,
  )
]

pub sort_conditions-IsSorted : (cs : List Condition) → IsSorted (sort_conditions cs)
unfolding sort_conditions
sort_conditions-IsSorted [] = tt
sort_conditions-IsSorted (c ∷ cs) =
    insert_condition-IsSorted c (sort_conditions cs) (sort_conditions-IsSorted cs)

insert_condition-below :
    (c : Condition) (cs : List Condition) → IsBelow c cs → insert_condition c cs ≡ c ∷ cs
unfolding insert_condition
insert_condition-below c [] below = refl
insert_condition-below c (d ∷ ds) below = rw below refl

pub sort_conditions_sorted : (cs : List Condition) → IsSorted cs → sort_conditions cs ≡ cs
unfolding sort_conditions
sort_conditions_sorted [] sorted = refl
sort_conditions_sorted (c ∷ cs) (below, sorted) =
    ap (insert_condition c) (sort_conditions_sorted cs sorted) ∙ insert_condition-below c cs below

-- Sorting does not change which condition of a type is found first.
module _ (K : Kube) (L : ConditionLaws K) where
  find-swap :
      (c d : Condition) (ds : List Condition) (t : String)
      → c.type ≢ d.type
      → (if d.type == t then some d else K.find_status_condition (c ∷ ds) t)
        ≡ K.find_status_condition (c ∷ d ∷ ds) t
  find-swap c d ds t ne =
      rw (L.find_cons c (d ∷ ds) t, L.find_cons d ds t, L.find_cons c ds t)
        (ground (arith, eq_iff c.type t, eq_iff d.type t))

  find-insert_condition :
      (c : Condition) (ds : List Condition) (t : String)
      → K.find_status_condition (insert_condition c ds) t ≡ K.find_status_condition (c ∷ ds) t
  unfolding insert_condition
  find-insert_condition c [] t = refl
  find-insert_condition c (d ∷ ds) t = elim (Bool-cases (type_le c d)) [
    | inl before ↦ rw before refl
    | inr after ↦
        rw (after, L.find_cons d (insert_condition c ds) t, find-insert_condition c ds t)
          (find-swap c d ds t (ne_of_not_le c.type d.type after))
  ]

  pub find-sort_conditions :
      (cs : List Condition) (t : String)
      → K.find_status_condition (sort_conditions cs) t ≡ K.find_status_condition cs t
  unfolding sort_conditions
  find-sort_conditions [] t = refl
  find-sort_conditions (c ∷ cs) t =
      find-insert_condition c (sort_conditions cs) t
      ∙ (L.find_cons c (sort_conditions cs) t
          ∙ (rw (find-sort_conditions cs t, L.find_cons c cs t) refl))

  -- A condition that was set and sorted in: to set and sort it in again changes nothing.
  pub sort-set_again :
      (cs : List Condition) (c : Condition)
      → let once = sort_conditions (K.set_status_condition cs c) in
        sort_conditions (K.set_status_condition once c) ≡ once
  sort-set_again cs c =
      let once = sort_conditions (K.set_status_condition cs c) in
      let (found, e, says) = L.find-set_self cs c in
      ap sort_conditions (
        L.set_unchanged once c (find-sort_conditions (K.set_status_condition cs c) c.type ∙ e) says)
      ∙ sort_conditions_sorted once (sort_conditions-IsSorted (K.set_status_condition cs c))

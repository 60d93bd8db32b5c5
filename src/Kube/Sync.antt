-- ===== src/Kube/Sync.antt =====
-- What one call of the client does: it leaves its object as sent, or gone, and touches no other.
use otterscale_operator.Common.{
  ◌≡◌, refl, ◌∙◌, ap, subst, Option, none, some, true, ◌⊎◌, inl, inr, arith, Bool-cases,
  Option-cases,
}
use otterscale_operator.Common.Exec.{
  continue, ◌>>◌, Error, Result, ok, err, Exec, filter_error, filter_result,
}
use otterscale_operator.Api.Meta.{ObjectMeta, ObjectKey, Object, StringMap}
use otterscale_operator.Api.Owned.{Kind, Resource, Body}
use otterscale_operator.Kube.{
  Kube, key_of, Differ, IsGone, ControlledBy, replace_meta, with_controller,
}
use otterscale_operator.Kube.Laws.{SameLabels, ClientLaws, OwnershipLaws, ErrorLaws, current}

-- The cluster holds the object, with these labels and this body (after defaulting), controlled by
-- the owner.
pub record Holds (K : Kube) (k : Kind) (key : ObjectKey) (owner : ObjectMeta) (labels : StringMap)
    (body : Body k) (s : K.State) : Type 0 where
  pub stored : Resource k
  pub found : K.lookup k key s ≡ some stored
  pub labels_eq : SameLabels k stored.meta.labels labels
  pub body_eq : stored.body ≡ K.defaulted k body
  pub owned : ControlledBy K owner stored.meta.owner_references

-- The call changes nothing but, perhaps, the one object.
abbrev pub OnlyAt : (K : Kube) → Kind → ObjectKey → Exec K.State (Unit {0}) → Type 0
OnlyAt K k key m =
    (s : K.State) (j : Kind) (other : ObjectKey)
    → Differ k key j other
    → K.lookup j other (m s).1 ≡ K.lookup j other s

module _ (K : Kube) (O : OwnershipLaws K) (owner : ObjectMeta) where
  replace_meta-sent :
      {B : Type 0} (o : Object B) (r : Result ObjectMeta) {sent : Object B}
      → K.set_controller_reference owner o.meta ≡ r
      → replace_meta o r ≡ ok sent
      → (sent.body ≡ o.body)
        × (sent.meta.labels ≡ o.meta.labels)
        × ControlledBy K owner sent.meta.owner_references
  replace_meta-sent o (ok m) {sent} set h =
      ground (arith, O.only_references owner o.meta set, O.owned owner o.meta set)
  replace_meta-sent o (err e) set h = cc

  pub with_controller-sent :
      {B : Type 0} (o : Object B) {sent : Object B}
      → with_controller K owner o ≡ ok sent
      → (sent.body ≡ o.body)
        × (sent.meta.labels ≡ o.meta.labels)
        × ControlledBy K owner sent.meta.owner_references
  unfolding with_controller
  with_controller-sent o h = replace_meta-sent o (K.set_controller_reference owner o.meta) refl h

-- The filters that let an error of a delete pass let only those pass after which nothing is there.
abbrev pub OnlyMissing : (K : Kube) → (Error → Option Error) → Type 0
OnlyMissing K filter =
    (e : Error) → filter e ≡ none → (K.is_not_found e ≡ true) ⊎ (K.is_no_match_error e ≡ true)

not_found_of_eq :
    (K : Kube) (d d' : Error) → K.is_not_found d ≡ true → d ≡ d' → K.is_not_found d' ≡ true
not_found_of_eq K d d' h e = rw e at h

module _ (K : Kube) (C : ClientLaws K) where
  -- A create or update that succeeded, when the mutate function changes an object to `g x` and
  -- takes it over.
  pub create_or_update-Holds :
      OwnershipLaws K
      → (owner : ObjectMeta) (k : Kind) (o : Resource k) (f : Resource k → Result (Resource k))
        (g : Resource k → Resource k) (s : K.State) {t : K.State}
      → ((x sent : Resource k) → f x ≡ ok sent → with_controller K owner (g x) ≡ ok sent)
      → K.create_or_update k o f s ≡ (ok tt, t)
      → Holds K k
          (key_of o.meta)
          owner
          (g (current K k o s)).meta.labels
          (g (current K k o s)).body
          t
  create_or_update-Holds O owner k o f g s takes h =
      let (sent, sent_eq, stored, found, keeps) = C.create_or_update_stored k o f s h in
      let (b, l, c) =
        with_controller-sent K O owner (g (current K k o s))
          (takes (current K k o s) sent sent_eq) in
      record {
        stored = stored;
        found = found;
        labels_eq = subst (λ x. SameLabels k stored.meta.labels x) l keeps.labels;
        body_eq = keeps.body ∙ ap (K.defaulted k) b;
        owned = rw keeps.owner_references c;
      }

  module _ (filter : Error → Option Error) (only : OnlyMissing K filter) (k : Kind)
      (key : ObjectKey) where
    filtered-IsGone :
        (s : K.State) (r : Result (Unit {0})) {t : K.State}
        → K.delete k key s ≡ (r, t)
        → filter_result filter r ≡ ok tt
        → IsGone (K.lookup k key t)
    filtered-IsGone s (ok _) e h = C.delete_gone k key s e
    filtered-IsGone s (err x) e h = elim (Option-cases (filter x)) [
      | inr (y, kept) ↦ cc
      | inl passed ↦ elim (only x passed) [
        | inl nf ↦ rw (C.delete_not_found k key s e nf) tt
        | inr nm ↦ rw (C.delete_no_match k key s e nm) tt
      ]
    ]

    pub delete-IsGone :
        (s : K.State) {t : K.State}
        → filter_error filter (K.delete k key) s ≡ (ok tt, t)
        → IsGone (K.lookup k key t)
    delete-IsGone s h =
        let Reply : Type 0 = Result (Unit {0}) × K.State in
        let gone =
          filtered-IsGone s (K.delete k key s).0 {t = (K.delete k key s).1} refl
            (ap (λ (p : Reply). p.0) h) in
        subst (λ u. IsGone (K.lookup k key u)) (ap (λ (p : Reply). p.1) h) gone

  refused_by_read :
      (k : Kind) (o : Resource k) (f : Resource k → Result (Resource k)) (s : K.State) {e : Error}
      → f (current K k o s) ≡ err e
      → (r : Result (Resource k)) → K.get k (key_of o.meta) s ≡ r
      → (e' : Error) × (K.create_or_update k o f s ≡ (err e', s))
  refused_by_read k o f s {e} refuses (ok x) got =
      (e, C.create_or_update_refused k o f s (λ d h. cc) refuses)
  refused_by_read k o f s {e} refuses (err d) got = elim (Bool-cases (K.is_not_found d)) [
    | inl missing ↦
        (e, C.create_or_update_refused k o f s (λ d' h. not_found_of_eq K d d' missing cc) refuses)
    | inr other ↦ (d, C.create_or_update_unread k o f s got other)
  ]

  -- A mutate function that refuses what is stored: nothing is written, also when it cannot be read.
  pub create_or_update-refused :
      (k : Kind) (o : Resource k) (f : Resource k → Result (Resource k)) (s : K.State) {e : Error}
      → f (current K k o s) ≡ err e
      → (e' : Error) × (K.create_or_update k o f s ≡ (err e', s))
  create_or_update-refused k o f s {e} refuses =
      refused_by_read k o f s refuses (K.get k (key_of o.meta) s) refl

  pub ignore_not_found-OnlyMissing : ErrorLaws K → OnlyMissing K K.ignore_not_found
  ignore_not_found-OnlyMissing E e h = elim (Bool-cases (K.is_not_found e)) [
    | inl nf ↦ inl nf
    | inr other ↦ cc (E.kept e other)
  ]

pub Holds-of_eq :
    (K : Kube) (k : Kind) (key : ObjectKey) {owner : ObjectMeta} {labels : StringMap}
    {body : Body k} {s t : K.State}
    → K.lookup k key t ≡ K.lookup k key s
    → Holds K k key owner labels body s
    → Holds K k key owner labels body t
Holds-of_eq K k key e h = record {
  stored = h.stored;
  found = e ∙ h.found;
  labels_eq = h.labels_eq;
  body_eq = h.body_eq;
  owned = h.owned;
}

-- The action leaves the one object as it is, whether it succeeds or fails.
abbrev pub Untouched : (K : Kube) → Kind → ObjectKey → Exec K.State (Unit {0}) → Type 0
Untouched K j other m = (s : K.State) → K.lookup j other (m s).1 ≡ K.lookup j other s

module _ (K : Kube) (j : Kind) (other : ObjectKey) where
  pub OnlyAt-Untouched :
      (k : Kind) (key : ObjectKey) (m : Exec K.State (Unit {0}))
      → OnlyAt K k key m
      → Differ k key j other
      → Untouched K j other m
  OnlyAt-Untouched k key m only d s = only s j other d

  then_from :
      (s : K.State) (n : Exec K.State (Unit {0})) (p : Result (Unit {0}) × K.State)
      → Untouched K j other n
      → K.lookup j other p.1 ≡ K.lookup j other s
      → K.lookup j other (continue p (λ _. n)).1 ≡ K.lookup j other s
  then_from s n (ok _, t) un e = un t ∙ e
  then_from s n (err _, t) un e = e

  pub Untouched-then :
      (m n : Exec K.State (Unit {0}))
      → Untouched K j other m
      → Untouched K j other n
      → Untouched K j other (m >> n)
  Untouched-then m n um un s = then_from s n (m s) un (um s)

  -- The same, of a call whose reply is known.
  pub Untouched-eq :
      (m : Exec K.State (Unit {0})) {s t : K.State} {r : Result (Unit {0})}
      → Untouched K j other m
      → m s ≡ (r, t)
      → K.lookup j other t ≡ K.lookup j other s
  Untouched-eq m {s} um e = rw e at (um s)

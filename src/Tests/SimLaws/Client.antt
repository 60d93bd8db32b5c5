-- ===== src/Tests/SimLaws/Client.antt =====
-- `sim` meets the laws of the client.
use otterscale_operator.Common.{
  String, ◌≡◌, refl, subst, ap, ◌≢◌, true, false, Option, none, some, eq_iff, arith,
}
use otterscale_operator.Common.Exec.{
  Error, Result, ok, err, foreign, namespace_conflict, template_not_found, template_invalid,
  not_workspace_admin, no_admission_request, nil_dereference,
}
use otterscale_operator.Api.Meta.{ObjectKey}
use otterscale_operator.Api.Owned.{Kind, Resource}
use otterscale_operator.Kube.{key_of, Differ, IsGone}
use otterscale_operator.Kube.Laws.{ClientLaws, Keeps}
use otterscale_operator.Tests.Store.{Store, put, put_self, put-ne, read, stamped}
use otterscale_operator.Tests.Sim.{sim, is_text, not_found, deleted, sent, current_or, found_or}

found_or-ok : {A : Type 0} (o : Option A) {a : A} → found_or o ≡ ok a → o ≡ some a
found_or-ok none h = cc
found_or-ok (some b) h = ground arith

found_or-err : {A : Type 0} (o : Option A) {e : Error} → found_or o ≡ err e → o ≡ none
found_or-err none h = refl
found_or-err (some b) h = cc

put_self-read :
    (k : Kind) (key : ObjectKey) (o : Resource k) (s : Store)
    → read k key (put k key (some o) s) ≡ some (stamped o)
put_self-read k key o s = rw (put_self k key (some o) s, read)

put_ne-read :
    (k : Kind) (key : ObjectKey) (o : Option (Resource k)) (s : Store) (j : Kind)
    (other : ObjectKey)
    → Differ k key j other
    → read j other (put k key o s) ≡ read j other s
put_ne-read k key o s j other d = rw (put-ne k key o s j other d, read)

read_created :
    (k : Kind) (key : ObjectKey) (s : Store) (r : Option (Resource k)) {o : Resource k}
    → s k key ≡ r
    → read k key s ≡ some o
    → o.meta.creation_timestamp ≢ none
read_created k key s none e h = let h' = rw (e, read) at h in cc
read_created k key s (some x) e h = let h' = rw (e, read) at h in ground arith

deleted-IsGone :
    (k : Kind) (key : ObjectKey) (s : Store) (r : Option (Resource k)) {t : Store}
    → deleted k key s r ≡ (ok tt, t)
    → IsGone (read k key t)
deleted-IsGone k key s none h = cc
deleted-IsGone k key s (some o) h =
    subst (λ u. IsGone (read k key u)) (ap (λ (p : Result (Unit {0}) × Store). p.1) h)
      (rw (put_self k key none s, read) tt)

deleted_ne :
    (k : Kind) (key : ObjectKey) (s : Store) (r : Option (Resource k)) (j : Kind)
    (other : ObjectKey)
    → Differ k key j other
    → read j other (deleted k key s r).1 ≡ read j other s
deleted_ne k key s none j other d = refl
deleted_ne k key s (some o) j other d = put_ne-read k key none s j other d

deleted_missing :
    (k : Kind) (key : ObjectKey) (s : Store) (r : Option (Resource k)) {e : Error} {t : Store}
    → s k key ≡ r
    → deleted k key s r ≡ (err e, t)
    → (read k key t ≡ none) × (e ≡ not_found)
deleted_missing k key s none absent h = (
  subst (λ u. read k key u ≡ none) (ap (λ (p : Result (Unit {0}) × Store). p.1) h)
      (rw (absent, read)),
  ground arith,
)
deleted_missing k key s (some o) present h = cc

sent_stored :
    (k : Kind) (key : ObjectKey) (s : Store) (r : Result (Resource k)) {t : Store}
    → sent k key s r ≡ (ok tt, t)
    → (o : Resource k) × (r ≡ ok o)
      × (stored : Resource k) × (read k key t ≡ some stored)
      × Keeps sim k o stored
sent_stored k key s (ok o) h = (
  o,
  refl,
  stamped o,
  subst (λ u. read k key u ≡ some (stamped o)) (ap (λ (p : Result (Unit {0}) × Store). p.1) h)
      (put_self-read k key o s),
  record {
    labels = record { elsewhere = λ ne. refl; at_key = λ label other. refl };
    owner_references = refl;
    body = refl;
  },
)
sent_stored k key s (err e) h = cc

sent_ne :
    (k : Kind) (key : ObjectKey) (s : Store) (r : Result (Resource k)) (j : Kind)
    (other : ObjectKey)
    → Differ k key j other
    → read j other (sent k key s r).1 ≡ read j other s
sent_ne k key s (ok o) j other d = put_ne-read k key (some o) s j other d
sent_ne k key s (err e) j other d = refl

sent_err :
    (k : Kind) (key : ObjectKey) (s : Store) (r : Result (Resource k)) {e : Error}
    → r ≡ err e
    → sent k key s r ≡ (err e, s)
sent_err k key s r h = rw h

is_text-eq : (t : String) (e : Error) → is_text t e ≡ true → e ≡ foreign t
is_text-eq t (foreign text) h = ap foreign ((eq_iff text t).0 h)
is_text-eq t (namespace_conflict n) h = cc
is_text-eq t (template_not_found n) h = cc
is_text-eq t (template_invalid n m) h = cc
is_text-eq t not_workspace_admin h = cc
is_text-eq t (no_admission_request e) h = cc
is_text-eq t nil_dereference h = cc

not_found_no_match : is_text "no match" not_found ≡ true → ⊥
not_found_no_match h = cc

found_or-not_unread :
    {A : Type 0} (o : Option A) {e : Error} → found_or o ≡ err e → is_text "not found" e ≡ false → ⊥
found_or-not_unread none h other = ground arith
found_or-not_unread (some a) h other = cc

pub client_laws : ClientLaws sim
client_laws = record {
  get_found = λ k key s h. found_or-ok (read k key s) h;
  get_not_found = λ k key s h _. found_or-err (read k key s) h;
  lookup_created = λ k key s h. read_created k key s (s k key) refl h;
  delete_gone = λ k key s h. deleted-IsGone k key s (s k key) h;
  delete_not_found = λ k key s h _. (deleted_missing k key s (s k key) refl h).0;
  delete_no_match = λ k key s h _. (deleted_missing k key s (s k key) refl h).0;
  lookup-delete_ne = λ k key s. deleted_ne k key s (s k key);
  create_or_update_stored = λ k o f s h. sent_stored k (key_of o.meta) s (f (current_or k o s)) h;
  create_or_update_refused = λ k o f s _ h. sent_err k (key_of o.meta) s (f (current_or k o s)) h;
  create_or_update_unread =
      λ k o f s h other. absurd (found_or-not_unread (read k (key_of o.meta) s) h other);
  lookup-create_or_update_ne = λ k o f s. sent_ne k (key_of o.meta) s (f (current_or k o s));
  lookup-patch_ne = λ k base o s. put_ne-read k (key_of o.meta) (some o) s;
  lookup-patch_status_ne = λ k base o s. put_ne-read k (key_of o.meta) (some o) s;
}

-- ===== src/Webhook/Laws.antt =====
-- The labels that the defaulter leaves.
use text.Mathlib.TextPositions.{starts_with-append}
use otterscale_operator.Common.{
  String, ◌≡◌, ◌≢◌, refl, ◌∙◌, Bool, true, false, ◌||◌, ◌==◌, List, [], ◌∷◌, Option, none, some,
  starts_with, arith, eq_iff, Bool-cases, inl, inr, if◌then◌else◌,
}
use otterscale_operator.Common.Dict.{
  Dict, lookup, insert, delete_where, lookup-insert, lookup-delete_where,
}
use otterscale_operator.Api.Meta.{entries}
use otterscale_operator.Api.Workspace.{Workspace, WorkspaceMember}
use otterscale_operator.Workspace.Helpers.{user_label_prefix}
use otterscale_operator.Webhook.{
  user_label, desired_labels, is_present, is_stale, set_desired, default_member_labels,
}

-- The label names one of the members.
abbrev pub names_member : String → List WorkspaceMember → Bool
names_member k [] = false
names_member k (m ∷ members) = user_label m.subject == k || names_member k members

prefixed-not :
    (k subject : String) → user_label subject ≡ k → starts_with k user_label_prefix ≢ false
prefixed-not k subject e h =
    let yes_it_does = rw e at (starts_with-append user_label_prefix subject) in cc

names_member-prefixed :
    (k : String) (ms : List WorkspaceMember)
    → starts_with k user_label_prefix ≡ false
    → names_member k ms ≡ false
names_member-prefixed k [] h = refl
names_member-prefixed k (m ∷ ms) h = elim (Bool-cases (user_label m.subject == k)) [
  | inl same ↦ absurd (prefixed-not k m.subject ((eq_iff (user_label m.subject) k).0 same) h)
  | inr other ↦ rw other (names_member-prefixed k ms h)
]

present-desired :
    (k : String) (ms : List WorkspaceMember) (desired : Dict (Unit {0}))
    → is_present (lookup k (desired_labels desired ms))
      ≡ (if names_member k ms then true else is_present (lookup k desired))
unfolding desired_labels
present-desired k [] desired = refl
present-desired k (m ∷ ms) desired =
    present-desired k ms (insert (user_label m.subject) tt desired)
    ∙ rw lookup-insert (ground arith)

lookup-set_desired :
    (k : String) (labels : Dict String) (desired : Dict (Unit {0}))
    → lookup k (set_desired labels desired)
      ≡ (if is_present (lookup k desired) then some "true" else lookup k labels)
unfolding set_desired lookup
lookup-set_desired k labels [] = refl
lookup-set_desired k labels ((j, _) ∷ desired) = ground (
  arith,
  lookup-insert j k "true" (set_desired labels desired),
  lookup-set_desired k labels desired,
)

-- The value that a label should have.
abbrev pub label_value : String → List WorkspaceMember → Option String → Option String
label_value k members before =
    if starts_with k user_label_prefix
    then (if names_member k members then some "true" else none)
    else before

-- After the defaulter, a label with the user prefix is there, with the value "true", exactly when
-- it names a member; every other label is as it was before.
pub lookup-default_member_labels :
    (w : Workspace) (k : String)
    → lookup k (entries (default_member_labels w).meta.labels)
      ≡ label_value k w.body.spec.members (lookup k (entries w.meta.labels))
unfolding default_member_labels is_stale
lookup-default_member_labels w k =
    let ms = w.body.spec.members in
    let desired = desired_labels [] ms in
    rw
      (
        lookup-set_desired k (delete_where (is_stale desired) (entries w.meta.labels)) desired,
        lookup-delete_where (is_stale desired) k (entries w.meta.labels),
        is_stale,
        present-desired k ms [],
      )
      (ground (arith, names_member-prefixed k ms))

body-same : (w : Workspace) → (default_member_labels w).body ≡ w.body
unfolding default_member_labels
body-same w = refl

pub value_again :
    (k : String) (ms : List WorkspaceMember) (before : Option String)
    → label_value k ms (label_value k ms before) ≡ label_value k ms before
value_again k ms before = ground arith

again :
    (w : Workspace) (k : String)
    → lookup k (entries (default_member_labels (default_member_labels w)).meta.labels)
      ≡ lookup k (entries (default_member_labels w).meta.labels)
again w k =
    lookup-default_member_labels (default_member_labels w) k
    ∙ rw (lookup-default_member_labels w k, body-same w)
        (value_again k w.body.spec.members (lookup k (entries w.meta.labels)))

-- The defaulter changes nothing but the labels, and applied again it changes no label.
pub default_member_labels-again :
    (w : Workspace) (k : String)
    → let once = default_member_labels w in
      (once.body ≡ w.body)
      × (record once.meta { labels = w.meta.labels } ≡ w.meta)
      × (lookup k (entries (default_member_labels once).meta.labels)
          ≡ lookup k (entries once.meta.labels))
unfolding default_member_labels
default_member_labels-again w k = (refl, refl, again w k)

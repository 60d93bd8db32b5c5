-- ===== src/Tests/Store.antt =====
-- A cluster as a table, for the concrete instance of the Kubernetes libraries in `Sim`.
use otterscale_operator.Common.{
  ◌≡◌, refl, Bool, true, false, ◌&&◌, ◌==◌, Option, none, some, ◌≢◌, inl, inr, arith, eq_iff,
  eq_refl, if◌then◌else◌,
}
use otterscale_operator.Api.Meta.{ObjectKey, Object}
use otterscale_operator.Api.Owned.{
  Kind, Resource, namespaces, role_bindings, resource_quotas, limit_ranges, network_policies,
  peer_authentications, authorization_policies, helm_releases, kustomizations, workspaces, modules,
  module_templates,
}
use otterscale_operator.Kube.{Differ}

abbrev pub Store : Type 0
Store = (k : Kind) → ObjectKey → Option (Resource k)

abbrev pub same_key : ObjectKey → ObjectKey → Bool
same_key a b = a.namespace == b.namespace && a.name == b.name

pub same_key_refl : (key : ObjectKey) → same_key key key ≡ true
same_key_refl key = ground (arith, eq_refl key.namespace, eq_refl key.name)

same_key-ne : (a b : ObjectKey) → a ≢ b → same_key a b ≡ false
same_key-ne a b ne = ground (arith, eq_iff a.namespace b.namespace, eq_iff a.name b.name)

unfoldable pub put : (k : Kind) → ObjectKey → Option (Resource k) → Store → Store
put namespaces key o s namespaces other = if same_key key other then o else s namespaces other
put role_bindings key o s role_bindings other =
    if same_key key other then o else s role_bindings other
put resource_quotas key o s resource_quotas other =
    if same_key key other then o else s resource_quotas other
put limit_ranges key o s limit_ranges other = if same_key key other then o else s limit_ranges other
put network_policies key o s network_policies other =
    if same_key key other then o else s network_policies other
put peer_authentications key o s peer_authentications other =
    if same_key key other then o else s peer_authentications other
put authorization_policies key o s authorization_policies other =
    if same_key key other then o else s authorization_policies other
put helm_releases key o s helm_releases other =
    if same_key key other then o else s helm_releases other
put kustomizations key o s kustomizations other =
    if same_key key other then o else s kustomizations other
put workspaces key o s workspaces other = if same_key key other then o else s workspaces other
put modules key o s modules other = if same_key key other then o else s modules other
put module_templates key o s module_templates other =
    if same_key key other then o else s module_templates other
put _ key o s j other = s j other

put_diag :
    (k : Kind) (key other : ObjectKey) (o b : Option (Resource k))
    → Differ k key k other
    → (if same_key key other then o else b) ≡ b
put_diag k key other o b (inl ne) = absurd (ne refl)
put_diag k key other o b (inr ne) = rw (same_key-ne key other ne)

pub put_self :
    (k : Kind) (key : ObjectKey) (o : Option (Resource k)) (s : Store) → put k key o s k key ≡ o
unfolding put
put_self namespaces key o s = rw same_key_refl
put_self role_bindings key o s = rw same_key_refl
put_self resource_quotas key o s = rw same_key_refl
put_self limit_ranges key o s = rw same_key_refl
put_self network_policies key o s = rw same_key_refl
put_self peer_authentications key o s = rw same_key_refl
put_self authorization_policies key o s = rw same_key_refl
put_self helm_releases key o s = rw same_key_refl
put_self kustomizations key o s = rw same_key_refl
put_self workspaces key o s = rw same_key_refl
put_self modules key o s = rw same_key_refl
put_self module_templates key o s = rw same_key_refl

pub put-ne :
    (k : Kind) (key : ObjectKey) (o : Option (Resource k)) (s : Store) (j : Kind)
    (other : ObjectKey)
    → Differ k key j other
    → put k key o s j other ≡ s j other
unfolding put
put-ne namespaces key o s namespaces other d =
    put_diag namespaces key other o (s namespaces other) d
put-ne role_bindings key o s role_bindings other d =
    put_diag role_bindings key other o (s role_bindings other) d
put-ne resource_quotas key o s resource_quotas other d =
    put_diag resource_quotas key other o (s resource_quotas other) d
put-ne limit_ranges key o s limit_ranges other d =
    put_diag limit_ranges key other o (s limit_ranges other) d
put-ne network_policies key o s network_policies other d =
    put_diag network_policies key other o (s network_policies other) d
put-ne peer_authentications key o s peer_authentications other d =
    put_diag peer_authentications key other o (s peer_authentications other) d
put-ne authorization_policies key o s authorization_policies other d =
    put_diag authorization_policies key other o (s authorization_policies other) d
put-ne helm_releases key o s helm_releases other d =
    put_diag helm_releases key other o (s helm_releases other) d
put-ne kustomizations key o s kustomizations other d =
    put_diag kustomizations key other o (s kustomizations other) d
put-ne workspaces key o s workspaces other d =
    put_diag workspaces key other o (s workspaces other) d
put-ne modules key o s modules other d = put_diag modules key other o (s modules other) d
put-ne module_templates key o s module_templates other d =
    put_diag module_templates key other o (s module_templates other) d
put-ne _ key o s j other d = refl

-- What is read has a creation timestamp.
abbrev pub stamped : {B : Type 0} → Object B → Object B
stamped o = record o {
  meta = record o.meta {
    creation_timestamp = some (elim o.meta.creation_timestamp [ none ↦ 1 | some t ↦ t ]);
  };
}

abbrev pub read : (k : Kind) → ObjectKey → Store → Option (Resource k)
read k key s = elim (s k key) [ none ↦ none | some o ↦ some (stamped o) ]

-- ===== src/Webhook/Requests.antt =====
-- Requests to change a Workspace, one after the other, as the validator lets them through.
use mathlib.Core.List.{Memᴰ}
use otterscale_operator.Common.{String, ◌≡◌, refl, arith, Option, none, some, List, [], ◌∷◌, ◌⊎◌}
use otterscale_operator.Common.Exec.{ok}
use otterscale_operator.Api.Workspace.{Workspace}
use otterscale_operator.Workspace.Authorization.{UserInfo, authorize_modification}
use otterscale_operator.Workspace.Authorization.Laws.{
  InPrivilegedGroup, IsAdminOf, authorize_modification_iff,
}
use otterscale_operator.Webhook.{default_member_labels, validate_update, validate_delete}

-- A user without any say over the Workspace.
abbrev pub IsOutsider : String → Workspace → UserInfo → Type 0
IsOutsider sa w u = ¬ (InPrivilegedGroup u ⊎ ((u.username ≡ sa) ⊎ IsAdminOf u.username w))

-- What one request of a user makes of the stored Workspace: an update that is let through stores
-- the new object with its labels defaulted, a deletion that is let through removes it, and a
-- request that is refused changes nothing.
pub data Request (sa : String) (u : UserInfo) : Option Workspace → Option Workspace → Type 0 where
  update :
      {old : Workspace} (new : Workspace)
      → validate_update sa (ok (record { user_info = u })) old (default_member_labels new) ≡ ok tt
      → Request sa u (some old) (some (default_member_labels new))
  remove :
      {old : Workspace}
      → validate_delete sa (ok (record { user_info = u })) old ≡ ok tt
      → Request sa u (some old) none
  refused : {old : Option Workspace} → Request sa u old old

-- The requests of a sequence of users.
pub data Requests (sa : String) : List UserInfo → Option Workspace → Option Workspace → Type 0 where
  done : {w : Option Workspace} → Requests sa [] w w
  next :
      {u : UserInfo} {us : List UserInfo} {v w x : Option Workspace}
      → Request sa u v w
      → Requests sa us w x
      → Requests sa (u ∷ us) v x

shut-out :
    (sa : String) (w old : Workspace) (u : UserInfo)
    → IsOutsider sa w u
    → some old ≡ some w
    → authorize_modification u old sa ≡ ok tt
    → ⊥
shut-out sa w old u out e h =
    let same : (old ≡ w) = ground arith in
    out ((authorize_modification_iff u w sa).0.0 (rw same at h))

one-outsider :
    (sa : String) (w : Workspace) (u : UserInfo) {v v' : Option Workspace}
    → IsOutsider sa w u
    → v ≡ some w
    → Request sa u v v'
    → v' ≡ some w
unfolding validate_update validate_delete
one-outsider sa w u out e (update {old} new h) = absurd (shut-out sa w old u out e h)
one-outsider sa w u out e (remove {old} h) = absurd (shut-out sa w old u out e h)
one-outsider sa w u out e refused = e

from_here :
    (sa : String) (w : Workspace) (us : List UserInfo) {v v' : Option Workspace}
    → ((u : UserInfo) → Memᴰ u us → IsOutsider sa w u)
    → v ≡ some w
    → Requests sa us v v'
    → v' ≡ some w
from_here sa w [] out e done = e
from_here sa w (u ∷ us) out e (next r rs) =
    from_here sa w us (λ x i. out x (Memᴰ.tail i))
      (one-outsider sa w u (out u (Memᴰ.head refl)) e r) rs

-- However many requests are made, and in whatever order, while all come from users who are
-- outsiders to the Workspace, it stays as it is.
pub Requests-outsiders :
    (sa : String) (w : Workspace) (us : List UserInfo) {v' : Option Workspace}
    → ((u : UserInfo) → Memᴰ u us → IsOutsider sa w u)
    → Requests sa us (some w) v'
    → v' ≡ some w
Requests-outsiders sa w us out r = from_here sa w us out refl r

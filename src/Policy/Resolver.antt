-- ===== src/Policy/Resolver.antt =====
-- daemon/policy/resolver.go: may a peer reach a service, or another peer?
-- An id is the rowid that SQLite gives, a positive number, so `best` is `none` where the source's
-- `bestID` is still -1. A lookup of a missing key in `GroupsByUser` gives Go's nil slice.
pub mod Evaluate
pub mod Access
pub mod Involved
pub mod Peers
mod Tests
use lightscale.Prelude.{
  ℕ, String, Bool, true, false, ◌&&◌, not, Option, none, some, List, [], ◌∷◌, map, ltb, ◌==◌,
  if◌then◌else◌, Map, get, any, nat_eq, string_eq,
}
use lightscale.Policy.{
  Index, UserSnapshot, ServiceSnapshot, UserGroupSnapshot, PortSpec, RuleSnapshot,
}

pub data Decision : Type 0 where
  deny allow : Decision

-- `type` and `id` of the source's `ref`.
pub record Ref : Type 0 where
  pub type : String
  pub id : ℕ

unfoldable pub port_allowed : List PortSpec → ℕ → String → Bool
port_allowed [] port proto = true
port_allowed (p ∷ ps) port proto = any (λ q. (q.port == port) && (q.protocol == proto)) (p ∷ ps)

-- a lookup in a map of slices
abbrev pub slice_at : ℕ → Map ℕ (List ℕ) → List ℕ
slice_at k m = elim (get k m) [ none ↦ [] | some ids ↦ ids ]

unfoldable pub refs : String → List ℕ → List Ref
refs type ids = map (λ i. record { type = type; id = i }) ids

unfoldable pub subject_set : Index → ℕ → List Ref
unfolding refs
subject_set idx user_id =
    record { type = "user"; id = user_id } ∷ refs "user_group" (slice_at user_id idx.groups_by_user)

unfoldable pub service_object_set : Index → ℕ → List Ref
unfolding refs
service_object_set idx service_id =
    record { type = "service"; id = service_id }
    ∷ refs "service_group" (slice_at service_id idx.groups_by_service)

pub user_object_set : Index → ℕ → List Ref
unfolding refs
user_object_set idx user_id =
    record { type = "user"; id = user_id } ∷ refs "user_group" (slice_at user_id idx.groups_by_user)

unfoldable pub matches_any : String → ℕ → List Ref → Bool
matches_any t i set = any (λ r. (r.type == t) && (r.id == i)) set

-- `bestID` and `bestAction`
abbrev pub Best : Type 0
Best = Option (ℕ × String)

abbrev pub beats : ℕ → Best → Bool
beats i none = true
beats i (some (best, _)) = ltb best i

-- the body of the loop over the rules
unfoldable pub consider : List Ref → List Ref → RuleSnapshot → Best → Best
consider subjects objects r best =
    if not (matches_any r.subject_type r.subject_id subjects)
    then best
    else if not (matches_any r.object_type r.object_id objects)
    then best
    else if beats r.id best
    then some (r.id, r.action)
    else best

-- the loop over the rules
unfoldable pub pick : List Ref → List Ref → List RuleSnapshot → Best → Best
pick subjects objects [] best = best
pick subjects objects (r ∷ rules) best =
    pick subjects objects rules (consider subjects objects r best)

unfoldable pub evaluate_explicit : Index → List Ref → List Ref → Decision × Bool
evaluate_explicit idx subjects objects = elim (pick subjects objects idx.rules none) [
  | none ↦ (deny, false)
  | some (_, action) ↦ if action == "allow" then (allow, true) else (deny, true)
]

unfoldable pub evaluate : Index → List Ref → List Ref → Decision
evaluate idx subjects objects = (evaluate_explicit idx subjects objects).0

abbrev pub ServiceVerdict : Type 0
ServiceVerdict = Decision × Option UserSnapshot × Option ServiceSnapshot

abbrev pub PeerVerdict : Type 0
PeerVerdict = Decision × Option UserSnapshot × Option UserSnapshot

unfoldable pub check_service : Index → String → String → ℕ → String → ServiceVerdict
check_service idx src_ip dst_vip port proto = elim (get src_ip idx.peer_by_ip) [
  | none ↦ (deny, none, none)
  | some user ↦ elim (get dst_vip idx.service_by_vip) [
    | none ↦ (deny, some user, none)
    | some svc ↦ if not (port_allowed svc.ports port proto) then (deny, some user, some svc) else (
      evaluate idx (subject_set idx user.id) (service_object_set idx svc.id),
      some user,
      some svc,
    )
  ]
]

-- the loop of `shareLANGroup`
pub lan_member : Map ℕ UserGroupSnapshot → List ℕ → ℕ → Bool
lan_member groups [] dst_id = false
lan_member groups (gid ∷ gids) dst_id =
    let rest = lan_member groups gids dst_id in
    elim (get gid groups) [
      | none ↦ rest
      | some g ↦
          if not g.lan_mode then rest else if any (λ m. m == dst_id) g.members then true else rest
    ]

pub share_lan_group : Index → ℕ → ℕ → Bool
share_lan_group idx src_id dst_id =
    lan_member idx.user_groups (slice_at src_id idx.groups_by_user) dst_id

pub check_peer : Index → String → String → PeerVerdict
check_peer idx src_ip dst_ip = elim (get src_ip idx.peer_by_ip) [
  | none ↦ (deny, none, none)
  | some src ↦ elim (get dst_ip idx.peer_by_ip) [
    | none ↦ (deny, some src, none)
    | some dst ↦
        let (d, found) =
          evaluate_explicit idx (subject_set idx src.id) (user_object_set idx dst.id) in
        if found
        then (d, some src, some dst)
        else if share_lan_group idx src.id dst.id
        then (allow, some src, some dst)
        else (deny, some src, some dst)
  ]
]

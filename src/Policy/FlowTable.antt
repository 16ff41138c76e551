-- ===== src/Policy/FlowTable.antt =====
-- daemon/policy/flowtable.go: the table of open flows. Each method holds the mutex for its whole
-- access to the table, so it is one step here. A flow's `Close` function is named by the number of
-- the connection that it closes, `none` for nil; `reap` returns those that it calls, in order.
pub mod Laws
pub mod History
mod Tests
use lightscale.Prelude.{
  ℕ, ◌+◌, ◌%◌, ◌^◌, String, Bool, true, false, not, Option, none, some, List, [], ◌∷◌, map, ◌==◌,
  if◌then◌else◌, ◌≤◌, All, Distinct, Map, get, put, delete, nat_eq, string_eq, length,
}
use lightscale.Policy.{Index}
use lightscale.Policy.Resolver.{Decision, deny, allow, check_service, check_peer}

pub record Flow : Type 0 where
  pub src_user_id : ℕ
  pub object_type : String
  pub object_id : ℕ
  pub port : ℕ
  pub protocol : String
  pub src_addr : String
  pub backend_local_addr : String
  pub close : Option ℕ

pub record FlowTable : Type 0 where
  pub next : ℕ
  pub flows : Map ℕ Flow

unfoldable pub new_flow_table : FlowTable
new_flow_table = record { next = 0; flows = [] }

pub len : FlowTable → ℕ
len t = length t.flows

pub record FlowSnapshot : Type 0 where
  pub id : ℕ
  pub src_user_id : ℕ
  pub object_type : String
  pub object_id : ℕ
  pub port : ℕ
  pub protocol : String
  pub src_addr : String
  pub backend_local_addr : String

unfoldable pub snapshot_of : ℕ × Flow → FlowSnapshot
snapshot_of (id, f) = record {
  id = id;
  src_user_id = f.src_user_id;
  object_type = f.object_type;
  object_id = f.object_id;
  port = f.port;
  protocol = f.protocol;
  src_addr = f.src_addr;
  backend_local_addr = f.backend_local_addr;
}

unfoldable pub snapshot : FlowTable → List FlowSnapshot
unfolding snapshot_of
snapshot t = map snapshot_of t.flows

-- `next` is a uint64.
unfoldable pub add : FlowTable → Flow → FlowTable × ℕ
add t f = let id = (t.next + 1) % 2 ^ 64 in (record { next = id; flows = put id f t.flows }, id)

unfoldable pub remove : FlowTable → ℕ → FlowTable
remove t id = record t { flows = delete id t.flows }

abbrev pub is_allow : Decision → Bool
is_allow deny = false
is_allow allow = true

-- the method `allowed` of a flow
unfoldable pub allowed : Index → Flow → Bool
allowed idx f = elim (get f.src_user_id idx.user_by_id) [
  | none ↦ false
  | some user ↦
      if f.object_type == "service"
      then elim (get f.object_id idx.service_by_id) [
        | none ↦ false
        | some svc ↦ is_allow (check_service idx user.ip_address svc.ip_address f.port f.protocol).0
      ]
      else if f.object_type == "user"
      then elim (get f.object_id idx.user_by_id) [
        | none ↦ false
        | some dst ↦ is_allow (check_peer idx user.ip_address dst.ip_address).0
      ]
      else false
]

-- the first loop of `Reap`: `toClose` and `toDelete`
unfoldable pub condemned : Index → Map ℕ Flow → List Flow × List ℕ
condemned idx [] = ([], [])
condemned idx ((id, f) ∷ flows) =
    let (to_close, to_delete) = condemned idx flows in
    if allowed idx f then (to_close, to_delete) else (f ∷ to_close, id ∷ to_delete)

-- the second loop
unfoldable pub delete_all : List ℕ → Map ℕ Flow → Map ℕ Flow
delete_all [] flows = flows
delete_all (id ∷ ids) flows = delete_all ids (delete id flows)

-- the last loop, after the mutex is released
unfoldable pub close_all : List Flow → List ℕ
close_all [] = []
close_all (f ∷ fs) = elim f.close [ none ↦ close_all fs | some c ↦ c ∷ close_all fs ]

unfoldable pub reap : FlowTable → Index → FlowTable × List ℕ
unfolding condemned delete_all close_all
reap t idx =
    let (to_close, to_delete) = condemned idx t.flows in
    (record t { flows = delete_all to_delete t.flows }, close_all to_close)

-- No id is in the table twice, and none is larger than the last one given.
pub record IsValid (t : FlowTable) : Type 0 where
  pub distinct : Distinct (λ e. e.0) t.flows
  pub bounded : All (λ e. e.0 ≤ t.next) t.flows

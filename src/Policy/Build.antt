-- ===== src/Policy/Build.antt =====
-- `Build` of daemon/policy/index.go: the index of what is in the store. The queries do not fail here.
pub mod Filled
pub mod Joined
pub mod Tables
pub mod Reaped
pub mod Sample
mod Tests
use lightscale.Prelude.{ℕ, String, List, [], ◌∷◌, ◌++◌, map, Map, put, nat_eq, string_eq}
use lightscale.Store.{User, UserGroup, PolicyRule, Store}
use lightscale.Store.Users.{list_users}
use lightscale.Store.Groups.{list_user_groups, user_group_members}
use lightscale.Store.Services.{Service, list_services}
use lightscale.Store.ServiceMembers.{service_group_ids_for_service}
use lightscale.Store.Policies.{list_policies}
use lightscale.Policy.{
  UserSnapshot, PortSpec, ServiceSnapshot, UserGroupSnapshot, RuleSnapshot, Index, empty_index,
}
use lightscale.Policy.Resolver.{slice_at}

abbrev pub user_snapshot : User → UserSnapshot
user_snapshot u = record {
  id = u.id;
  name = u.name;
  ip_address = u.ip_address;
  public_key = u.public_key;
  preshared_key = u.preshared_key;
}

abbrev pub service_snapshot : Service → ServiceSnapshot
service_snapshot s = record {
  id = s.row.id;
  name = s.row.name;
  hostname = s.row.hostname;
  origin = s.row.origin;
  ip_address = s.row.ip_address;
  ports = map (λ p. record { port = p.port; protocol = p.protocol }) s.ports;
}

abbrev pub rule_snapshot : PolicyRule → RuleSnapshot
rule_snapshot r = record {
  id = r.id;
  subject_type = r.subject_type;
  subject_id = r.subject_id;
  object_type = r.object_type;
  object_id = r.object_id;
  action = r.action;
}

abbrev pub group_snapshot : UserGroup → List User → UserGroupSnapshot
group_snapshot g members = record {
  id = g.id;
  name = g.name;
  lan_mode = g.lan_mode;
  members = map (λ m. m.id) members;
}

-- the loop over the users
unfoldable pub index_users : List User → Index → Index
index_users [] idx = idx
index_users (u ∷ us) idx = index_users us (record idx {
  peer_by_ip = put u.ip_address (user_snapshot u) idx.peer_by_ip;
  user_by_id = put u.id (user_snapshot u) idx.user_by_id;
})

-- the loop over the services
unfoldable pub index_services : List Service → Index → Index
index_services [] idx = idx
index_services (s ∷ ss) idx = index_services ss (record idx {
  service_by_vip = put s.row.ip_address (service_snapshot s) idx.service_by_vip;
  service_by_id = put s.row.id (service_snapshot s) idx.service_by_id;
})

-- the inner loop, over the members of a group
unfoldable pub index_members : ℕ → List User → Map ℕ (List ℕ) → Map ℕ (List ℕ)
index_members group_id [] groups = groups
index_members group_id (m ∷ ms) groups =
    index_members group_id ms (put m.id (slice_at m.id groups ++ group_id ∷ []) groups)

-- the loop over the user groups
unfoldable pub index_groups : Store → List UserGroup → Index → Index
unfolding index_members
index_groups s [] idx = idx
index_groups s (g ∷ gs) idx = index_groups s gs (record idx {
  groups_by_user = index_members g.id (user_group_members s g.id) idx.groups_by_user;
  user_groups = put g.id (group_snapshot g (user_group_members s g.id)) idx.user_groups;
})

-- the second loop over the services
unfoldable pub index_service_groups : Store → List Service → Index → Index
index_service_groups s [] idx = idx
index_service_groups s (svc ∷ ss) idx = index_service_groups s ss (record idx {
  groups_by_service =
      put svc.row.id (service_group_ids_for_service s svc.row.id) idx.groups_by_service;
})

unfoldable pub build : Store → Index
unfolding index_users index_services index_groups index_service_groups
build s =
    let services = list_services s in
    let users_in = index_users (list_users s) empty_index in
    let groups_in = index_groups s (list_user_groups s) (index_services services users_in) in
    record (index_service_groups s services groups_in) {
      rules = map rule_snapshot (list_policies s);
    }

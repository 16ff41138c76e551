-- ===== src/Policy.antt =====
-- daemon/policy/index.go: the index that access decisions are read from.
pub mod Resolver
pub mod FlowTable
pub mod Build
pub mod Sample
use lightscale.Prelude.{ℕ, String, Bool, List, [], Map}
use lightscale.Origin.{Spec}

pub record UserSnapshot : Type 0 where
  pub id : ℕ
  pub name : String
  pub ip_address : String
  pub public_key : String
  pub preshared_key : String

pub record PortSpec : Type 0 where
  pub port : ℕ
  pub protocol : String

pub record ServiceSnapshot : Type 0 where
  pub id : ℕ
  pub name : String
  pub hostname : String
  pub origin : Spec
  pub ip_address : String
  pub ports : List PortSpec

pub record UserGroupSnapshot : Type 0 where
  pub id : ℕ
  pub name : String
  pub lan_mode : Bool
  pub members : List ℕ

pub record RuleSnapshot : Type 0 where
  pub id : ℕ
  pub subject_type : String
  pub subject_id : ℕ
  pub object_type : String
  pub object_id : ℕ
  pub action : String

pub record Index : Type 0 where
  pub peer_by_ip : Map String UserSnapshot
  pub user_by_id : Map ℕ UserSnapshot
  pub service_by_vip : Map String ServiceSnapshot
  pub service_by_id : Map ℕ ServiceSnapshot
  pub groups_by_user : Map ℕ (List ℕ)
  pub groups_by_service : Map ℕ (List ℕ)
  pub user_groups : Map ℕ UserGroupSnapshot
  pub rules : List RuleSnapshot

-- The index with no user, service, group or rule.
abbrev pub empty_index : Index
empty_index = record {
  peer_by_ip = [];
  user_by_id = [];
  service_by_vip = [];
  service_by_id = [];
  groups_by_user = [];
  groups_by_service = [];
  user_groups = [];
  rules = [];
}

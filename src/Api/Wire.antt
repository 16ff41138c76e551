-- ===== src/Api/Wire.antt =====
-- shared/wire/wire.go: the values that the API reads and writes, by the names that daemon/api gives
-- them. An optional field of a request is `none` where the JSON does not have it. Ids and ports are
-- natural numbers: a negative id in a body names no row, as an id does that no row has.
use lightscale.Prelude.{ℕ, String, Bool, Option, List}

pub record UserDto : Type 0 where
  pub id : ℕ
  pub name : String
  pub email : String
  pub public_key : String
  pub preshared_key : String
  pub ip_address : String
  pub endpoint : String
  pub migrated : Bool
  pub created_at : String
  pub updated_at : String

pub record CreateUserReq : Type 0 where
  pub name : String
  pub email : String
  pub ip : String
  pub endpoint : String

pub record UpdateUserReq : Type 0 where
  pub name : Option String
  pub email : Option String
  pub endpoint : Option String

pub record PortDto : Type 0 where
  pub port : ℕ
  pub protocol : String

pub record ServiceDto : Type 0 where
  pub id : ℕ
  pub name : String
  pub hostname : String
  pub origin_kind : String
  pub origin_value : String
  pub origin_network : String
  pub ip_address : String
  pub description : String
  pub ports : List PortDto
  pub created_at : String
  pub updated_at : String

pub record CreateServiceReq : Type 0 where
  pub name : String
  pub origin_kind : String
  pub origin_value : String
  pub origin_network : String
  pub ports : String
  pub hostname : String
  pub ip : String
  pub description : String

pub record UpdateServiceReq : Type 0 where
  pub name : Option String
  pub hostname : Option String
  pub origin_kind : Option String
  pub origin_value : Option String
  pub origin_network : Option String
  pub ip : Option String
  pub description : Option String
  pub ports : Option String

pub record OriginCheck : Type 0 where
  pub reachable : Bool
  pub dial_host : String
  pub network : String
  pub detail : String

pub record UserGroupDto : Type 0 where
  pub id : ℕ
  pub name : String
  pub lan_mode : Bool
  pub created_at : String
  pub updated_at : String

pub record CreateUserGroupReq : Type 0 where
  pub name : String
  pub lan_mode : Bool

pub record UpdateUserGroupReq : Type 0 where
  pub name : Option String
  pub lan_mode : Option Bool

pub record UserGroupMemberReq : Type 0 where
  pub user_id : ℕ
  pub user_name : String

pub record ServiceGroupDto : Type 0 where
  pub id : ℕ
  pub name : String
  pub created_at : String
  pub updated_at : String

pub record CreateServiceGroupReq : Type 0 where
  pub name : String

pub record UpdateServiceGroupReq : Type 0 where
  pub name : Option String

pub record ServiceGroupMemberReq : Type 0 where
  pub service_id : ℕ
  pub service_name : String

pub record PolicyDto : Type 0 where
  pub id : ℕ
  pub subject_type : String
  pub subject_id : ℕ
  pub subject_name : String
  pub object_type : String
  pub object_id : ℕ
  pub object_name : String
  pub action : String
  pub created_at : String
  pub updated_at : String

pub record CreatePolicyReq : Type 0 where
  pub subject_type : String
  pub subject_id : ℕ
  pub subject_name : String
  pub object_type : String
  pub object_id : ℕ
  pub object_name : String
  pub action : String

pub record PrincipalDto : Type 0 where
  pub type : String
  pub id : ℕ
  pub name : String

pub record ObjectDto : Type 0 where
  pub type : String
  pub id : ℕ
  pub name : String

-- `Connection`
pub record ConnectionDto : Type 0 where
  pub id : ℕ
  pub src_user_id : ℕ
  pub src_name : String
  pub src_ip : String
  pub object_type : String
  pub object_id : ℕ
  pub object_name : String
  pub object_ip : String
  pub port : ℕ
  pub protocol : String
  pub src_addr : String
  pub backend_local_addr : String

-- ===== src/Api/Routes.antt =====
-- The routes of daemon/api/server.go that act on the store: a request is one constructor for each,
-- with the parameters of its path and its decoded body. `/status`, `/peers` and
-- `/discover/containers` read other parts of the daemon and are not among them, nor are `/dns` and
-- `/connections`, whose handlers are in Api/Zone and Api/Connections. A handler is one step here. In the
-- source its calls of the store are transactions of their own, so that requests handled at the same
-- time may interleave between them; what is stated of several requests is about one after the other.
pub mod Asked
pub mod Outcomes
pub mod Prepared
pub mod Effects
pub mod Reads
pub mod Hosts
pub mod Inputs
pub mod Always
mod Tests
use lightscale.Prelude.{String, Bool, true, false, Option, List, [], ◌∷◌}
use lightscale.Store.{Store}
use lightscale.Api.{Config, Env, Response, Handler, write_json, Body}
use lightscale.Api.Wire.{
  CreateUserReq, UpdateUserReq, CreateServiceReq, UpdateServiceReq, CreateUserGroupReq,
  UpdateUserGroupReq, UserGroupMemberReq, CreateServiceGroupReq, UpdateServiceGroupReq,
  ServiceGroupMemberReq, CreatePolicyReq,
}
use lightscale.Api.Users
use lightscale.Api.Groups
use lightscale.Api.ServiceGroups
use lightscale.Api.Services
use lightscale.Api.Services.{OriginChecker}
use lightscale.Api.Policies
use lightscale.Api.ClientConf

pub data Request : Type 0 where
  health : Request
  list_users : Request
  create_user : Option CreateUserReq → Request
  get_user : String → Request
  update_user : String → Option UpdateUserReq → Request
  delete_user : String → Request
  get_user_config : String → Request
  list_user_groups : Request
  create_user_group : Option CreateUserGroupReq → Request
  get_user_group : String → Request
  update_user_group : String → Option UpdateUserGroupReq → Request
  delete_user_group : String → Request
  list_user_group_members : String → Request
  add_user_group_member : String → Option UserGroupMemberReq → Request
  remove_user_group_member : String → String → Request
  list_services : Request
  create_service : Option CreateServiceReq → Request
  get_service : String → Request
  update_service : String → Option UpdateServiceReq → Request
  delete_service : String → Request
  check_service_origin : String → Request
  list_service_groups : Request
  create_service_group : Option CreateServiceGroupReq → Request
  get_service_group : String → Request
  update_service_group : String → Option UpdateServiceGroupReq → Request
  delete_service_group : String → Request
  list_service_group_members : String → Request
  add_service_group_member : String → Option ServiceGroupMemberReq → Request
  remove_service_group_member : String → String → Request
  list_policies : Request
  create_policy : Option CreatePolicyReq → Request
  delete_policy : String → Request
  list_principals : Request
  list_objects : Request

unfoldable pub handle_health : Handler
handle_health s = (write_json 200 (Body.text "ok"), s)

module _ (cfg : Config) (env : Env) (checker : Option OriginChecker) where
  unfoldable pub serve : Request → Handler
  serve health = handle_health
  serve list_users = Users.list_users
  serve (create_user body) = Users.create_user cfg env body
  serve (get_user id) = Users.get_user id
  serve (update_user id body) = Users.update_user env id body
  serve (delete_user id) = Users.delete_user id
  serve (get_user_config id) = ClientConf.get_user_config cfg id
  serve list_user_groups = Groups.list_user_groups
  serve (create_user_group body) = Groups.create_user_group env body
  serve (get_user_group id) = Groups.get_user_group id
  serve (update_user_group id body) = Groups.update_user_group env id body
  serve (delete_user_group id) = Groups.delete_user_group id
  serve (list_user_group_members id) = Groups.list_user_group_members id
  serve (add_user_group_member id body) = Groups.add_user_group_member id body
  serve (remove_user_group_member id uid) = Groups.remove_user_group_member id uid
  serve list_services = Services.list_services
  serve (create_service body) = Services.create_service cfg env body
  serve (get_service id) = Services.get_service id
  serve (update_service id body) = Services.update_service env id body
  serve (delete_service id) = Services.delete_service id
  serve (check_service_origin id) = Services.check_service_origin checker id
  serve list_service_groups = ServiceGroups.list_service_groups
  serve (create_service_group body) = ServiceGroups.create_service_group env body
  serve (get_service_group id) = ServiceGroups.get_service_group id
  serve (update_service_group id body) = ServiceGroups.update_service_group env id body
  serve (delete_service_group id) = ServiceGroups.delete_service_group id
  serve (list_service_group_members id) = ServiceGroups.list_service_group_members id
  serve (add_service_group_member id body) = ServiceGroups.add_service_group_member id body
  serve (remove_service_group_member id sid) = ServiceGroups.remove_service_group_member id sid
  serve list_policies = Policies.list_policies
  serve (create_policy body) = Policies.create_policy env body
  serve (delete_policy id) = Policies.delete_policy id
  serve list_principals = Policies.list_principals
  serve list_objects = Policies.list_objects

-- Is the route a POST, PATCH or DELETE that may write to the store?
unfoldable pub writes : Request → Bool
writes (create_user _) = true
writes (update_user _ _) = true
writes (delete_user _) = true
writes (create_user_group _) = true
writes (update_user_group _ _) = true
writes (delete_user_group _) = true
writes (add_user_group_member _ _) = true
writes (remove_user_group_member _ _) = true
writes (create_service _) = true
writes (update_service _ _) = true
writes (delete_service _) = true
writes (create_service_group _) = true
writes (update_service_group _ _) = true
writes (delete_service_group _) = true
writes (add_service_group_member _ _) = true
writes (remove_service_group_member _ _) = true
writes (create_policy _) = true
writes (delete_policy _) = true
writes _ = false

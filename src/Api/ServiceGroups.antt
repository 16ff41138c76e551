-- ===== src/Api/ServiceGroups.antt =====
-- daemon/api/groups.go: service groups and their members
use lightscale.Prelude.{ℕ, String, ◌&&◌, not, Option, map, ◌==◌, nat_eq, string_eq, if◌then◌else◌}
use lightscale.Prelude.Result.{Result}
use lightscale.Store.{ServiceGroup, Store}
use lightscale.Store.ServiceGroups
use lightscale.Store.Services.{Service, get_service_by_name}
use lightscale.Store.ServiceMembers
use lightscale.Api.{
  Env, Response, Handler, write_json, with_id, read_json, answer, answer_empty, Body,
}
use lightscale.Api.Wire.{
  ServiceGroupDto, CreateServiceGroupReq, UpdateServiceGroupReq, ServiceGroupMemberReq,
}
use lightscale.Api.Users.{prepared}
use lightscale.Api.Groups.{required, found_id}
use lightscale.Api.Services.{to_service_dto}

abbrev pub to_service_group_dto : ServiceGroup → ServiceGroupDto
to_service_group_dto g = record {
  id = g.id;
  name = g.name;
  created_at = g.created_at;
  updated_at = g.updated_at;
}

abbrev pub service_group_body : ServiceGroup → Body
service_group_body g = Body.service_group (to_service_group_dto g)

unfoldable pub list_service_groups : Handler
list_service_groups s = (
  write_json 200
      (Body.service_groups (map to_service_group_dto (ServiceGroups.list_service_groups s))),
  s,
)

unfoldable pub create_service_group : Env → Option CreateServiceGroupReq → Handler
create_service_group env body =
    read_json body (λ req s.
      answer 201 service_group_body (ServiceGroups.create_service_group req.name env.now s))

unfoldable pub get_service_group : String → Handler
get_service_group raw =
    with_id raw (λ id s. answer 200 service_group_body (ServiceGroups.get_service_group s id, s))

unfoldable pub update_service_group : Env → String → Option UpdateServiceGroupReq → Handler
update_service_group env raw body = with_id raw (λ id. read_json body (λ req s.
    answer 200 service_group_body (ServiceGroups.update_service_group id req.name env.now s)))

unfoldable pub delete_service_group : String → Handler
delete_service_group raw =
    with_id raw (λ id s. answer_empty (ServiceGroups.delete_service_group id s))

unfoldable pub list_service_group_members : String → Handler
list_service_group_members raw = with_id raw (λ id s. (
  write_json 200 (Body.services (map to_service_dto (ServiceMembers.service_group_members s id))),
  s,
))

-- the service that the request names by its id, or else by its name
unfoldable pub member_service : Store → ServiceGroupMemberReq → Result Response ℕ
member_service s req =
    if (req.service_id == 0) && not (req.service_name == "")
    then found_id (λ (v : Service). v.row.id) (get_service_by_name s req.service_name)
    else required req.service_id

unfoldable pub add_service_group_member : String → Option ServiceGroupMemberReq → Handler
unfolding member_service
add_service_group_member raw body = with_id raw (λ id. read_json body (λ req s.
    prepared (member_service s req)
      (λ sid s'. answer_empty (ServiceMembers.add_service_to_group id sid s')) s))

unfoldable pub remove_service_group_member : String → String → Handler
remove_service_group_member raw raw_sid = with_id raw (λ id.
    with_id raw_sid (λ sid s. answer_empty (ServiceMembers.remove_service_from_group id sid s)))

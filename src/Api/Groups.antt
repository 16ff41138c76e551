-- ===== src/Api/Groups.antt =====
-- daemon/api/groups.go: user groups and their members
use lightscale.Prelude.{ℕ, String, ◌&&◌, not, Option, map, ◌==◌, nat_eq, string_eq, if◌then◌else◌}
use lightscale.Prelude.Result.{Result, ok, err}
use lightscale.Store.{UserGroup, User, Store, Error}
use lightscale.Store.Users.{get_user_by_name}
use lightscale.Store.Groups
use lightscale.Store.Groups.{user_group_members}
use lightscale.Api.{
  Env, Response, Handler, write_json, refusal, write_error, with_id, read_json, answer,
  answer_empty, Body,
}
use lightscale.Api.Wire.{UserGroupDto, CreateUserGroupReq, UpdateUserGroupReq, UserGroupMemberReq}
use lightscale.Api.Users.{to_user_dto, prepared}

abbrev pub to_user_group_dto : UserGroup → UserGroupDto
to_user_group_dto g = record {
  id = g.id;
  name = g.name;
  lan_mode = g.lan_mode;
  created_at = g.created_at;
  updated_at = g.updated_at;
}

abbrev pub group_body : UserGroup → Body
group_body g = Body.user_group (to_user_group_dto g)

unfoldable pub list_user_groups : Handler
list_user_groups s =
    (write_json 200 (Body.user_groups (map to_user_group_dto (Groups.list_user_groups s))), s)

unfoldable pub create_user_group : Env → Option CreateUserGroupReq → Handler
create_user_group env body =
    read_json body
      (λ req s. answer 201 group_body (Groups.create_user_group req.name req.lan_mode env.now s))

unfoldable pub update_user_group : Env → String → Option UpdateUserGroupReq → Handler
update_user_group env raw body = with_id raw (λ id. read_json body (λ req s.
    answer 200 group_body (
      Groups.update_user_group id (record { name = req.name; lan_mode = req.lan_mode }) env.now s)))

unfoldable pub get_user_group : String → Handler
get_user_group raw = with_id raw (λ id s. answer 200 group_body (Groups.get_user_group s id, s))

unfoldable pub delete_user_group : String → Handler
delete_user_group raw = with_id raw (λ id s. answer_empty (Groups.delete_user_group id s))

unfoldable pub list_user_group_members : String → Handler
list_user_group_members raw =
    with_id raw
      (λ id s. (write_json 200 (Body.users (map to_user_dto (user_group_members s id))), s))

-- an id of a request, or status 400 where it is 0
abbrev pub required : ℕ → Result Response ℕ
required id = if id == 0 then err (refusal 400) else ok id

-- the id of the row that a query found, or its error
abbrev pub found_id : {A : Type 0} → (A → ℕ) → Result Error A → Result Response ℕ
found_id id (err e) = err (write_error e)
found_id id (ok row) = required (id row)

-- the user that the request names by its id, or else by its name
unfoldable pub member_user : Store → UserGroupMemberReq → Result Response ℕ
member_user s req =
    if (req.user_id == 0) && not (req.user_name == "")
    then found_id (λ (u : User). u.id) (get_user_by_name s req.user_name)
    else required req.user_id

unfoldable pub add_user_group_member : String → Option UserGroupMemberReq → Handler
unfolding member_user
add_user_group_member raw body = with_id raw (λ id. read_json body (λ req s.
    prepared (member_user s req) (λ uid s'. answer_empty (Groups.add_user_to_group id uid s')) s))

unfoldable pub remove_user_group_member : String → String → Handler
remove_user_group_member raw raw_uid =
    with_id raw
      (λ id. with_id raw_uid (λ uid s. answer_empty (Groups.remove_user_from_group id uid s)))

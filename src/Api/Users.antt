-- ===== src/Api/Users.antt =====
-- daemon/api/users.go and daemon/api/wgconf.go
use Prim.Native.String.{◌++◌}
pub mod Created
use lightscale.Prelude.{
  ℕ, String, Bool, true, false, not, Option, none, some, List, [], ◌∷◌, map, ◌==◌, nat_eq,
  string_eq, if◌then◌else◌,
}
use lightscale.Prelude.Result.{Result, ok, err, ◌>>=◌}
use lightscale.IpAlloc.{AllocError, allocate, is_in_prefix}
use lightscale.Store.{User, Store, Error, not_found}
use lightscale.Store.Users
use lightscale.Store.Users.{CreateUserInput, UpdateUserInput, taken_user_ips}
use lightscale.Store.Settings.{get_setting}
use lightscale.Api.{
  Config, Env, Keypair, Response, Handler, write_json, refusal, write_error, with_id, read_json,
  answer, answer_empty, Body,
}
use lightscale.Api.Wire.{UserDto, CreateUserReq, UpdateUserReq}

abbrev pub to_user_dto : User → UserDto
to_user_dto u = record {
  id = u.id;
  name = u.name;
  email = u.email;
  public_key = u.public_key;
  preshared_key = u.preshared_key;
  ip_address = u.ip_address;
  endpoint = u.endpoint;
  migrated = u.private_key == "";
  created_at = u.created_at;
  updated_at = u.updated_at;
}

unfoldable pub list_users : Handler
list_users s = (write_json 200 (Body.users (map to_user_dto (Users.list_users s))), s)

abbrev pub allocated : Result AllocError String → Result Response String
allocated (ok ip) = ok ip
allocated (err e) = err (refusal 409)

abbrev pub kept_if : Result AllocError Bool → String → Result Response String
kept_if (ok inside) ip = if inside then ok ip else err (refusal 400)
kept_if (err e) ip = err (refusal 400)

-- the address of a new row: one that is free in the subnet, or the one that the request names
unfoldable pub new_address : String → String → List String → List String → Result Response String
new_address subnet ip taken reserved =
    if ip == ""
    then allocated (allocate subnet taken reserved)
    else kept_if (is_in_prefix subnet ip) ip

-- the value, or status 500 for an error of a generator
abbrev pub generated : {A : Type 0} → Option A → Result Response A
generated none = err (refusal 500)
generated (some a) = ok a

-- `createUser` up to the call of the store
unfoldable pub prepare_user : Config → Env → Store → CreateUserReq → Result Response CreateUserInput
unfolding new_address
prepare_user cfg env s req = if req.name == "" then err (refusal 400) else (do
  ip ← new_address cfg.client_subnet req.ip (taken_user_ips s) (cfg.server_ip ∷ [])
  kp ← generated env.keypair
  psk ← generated env.preshared_key
  ok (record {
    name = req.name;
    email = req.email;
    public_key = kp.public_key;
    private_key = kp.private_key;
    preshared_key = psk;
    ip_address = ip;
    endpoint = req.endpoint;
  }))

-- an early return, or the rest of the handler
abbrev pub prepared : {A : Type 0} → Result Response A → (A → Handler) → Handler
prepared (err response) k s = (response, s)
prepared (ok input) k s = k input s

abbrev pub user_body : User → Body
user_body u = Body.user (to_user_dto u)

unfoldable pub create_user : Config → Env → Option CreateUserReq → Handler
create_user cfg env body = read_json body (λ req s.
    prepared (prepare_user cfg env s req)
      (λ input s'. answer 201 user_body (Users.create_user input env.now s')) s)

unfoldable pub get_user : String → Handler
get_user raw = with_id raw (λ id s. answer 200 user_body (Users.get_user s id, s))

unfoldable pub update_user : Env → String → Option UpdateUserReq → Handler
update_user env raw body = with_id raw (λ id. read_json body (λ req s. answer 200 user_body (
    Users.update_user id (record { name = req.name; email = req.email; endpoint = req.endpoint })
      env.now s)))

unfoldable pub delete_user : String → Handler
delete_user raw = with_id raw (λ id s. answer_empty (Users.delete_user id s))

-- ===== src/Api.antt =====
-- daemon/api/server.go: what the handlers answer, and the steps that they share.
-- A handler is a function of the store to a response and the store that it leaves; two requests do
-- not interleave inside one handler. Of `Deps`, the configuration, the clock and the generated keys
-- are the arguments `cfg` and `env`. The text of an error is not modelled, nor are headers. What
-- `readJSON` decodes is an argument of the handler: `none` where the body is no JSON of the type.
pub mod Wire
pub mod Ports
pub mod Users
pub mod Groups
pub mod ServiceGroups
pub mod Services
pub mod Policies
pub mod Names
pub mod ClientConf
pub mod Zone
pub mod Connections
pub mod Routes
mod Tests
use lightscale.Prelude.{ℕ, zero, String, Option, none, some, List}
use lightscale.Prelude.Result.{Result, ok, err}
use lightscale.Strconv.{parse_int}
use lightscale.Store.{
  Store, Error, not_found, name_taken, ip_in_use, port_conflict, invalid_input, constraint,
}
use Wire.{
  UserDto, UserGroupDto, ServiceGroupDto, ServiceDto, PolicyDto, PrincipalDto, ObjectDto,
  OriginCheck, ConnectionDto,
}

-- the parts of `config.Config` that the handlers read
pub record Config : Type 0 where
  pub domain : String
  pub public_endpoint : String
  pub subnet : String
  pub client_subnet : String
  pub service_subnet : String
  pub server_ip : String
  pub dns : List String

-- what `crypto.GenerateKeypair` returns
pub record Keypair : Type 0 where
  pub public_key : String
  pub private_key : String

-- The time stamp of the writes, and what the generators of keys return: `none` for an error.
pub record Env : Type 0 where
  pub now : String
  pub keypair : Option Keypair
  pub preshared_key : Option String

pub data Body : Type 0 where
  empty error : Body
  text : String → Body
  user : UserDto → Body
  users : List UserDto → Body
  user_group : UserGroupDto → Body
  user_groups : List UserGroupDto → Body
  service_group : ServiceGroupDto → Body
  service_groups : List ServiceGroupDto → Body
  service : ServiceDto → Body
  services : List ServiceDto → Body
  policy : PolicyDto → Body
  policies : List PolicyDto → Body
  principals : List PrincipalDto → Body
  objects : List ObjectDto → Body
  check : OriginCheck → Body
  connections : List ConnectionDto → Body

pub record Response : Type 0 where
  pub status : ℕ
  pub body : Body

abbrev pub write_json : ℕ → Body → Response
write_json status body = record { status = status; body = body }

-- an `errorBody`
abbrev pub refusal : ℕ → Response
refusal status = write_json status error

abbrev pub no_content : Response
no_content = write_json 204 empty

abbrev pub error_status : Error → ℕ
error_status not_found = 404
error_status name_taken = 409
error_status ip_in_use = 409
error_status port_conflict = 409
error_status invalid_input = 400
error_status constraint = 500

abbrev pub write_error : Error → Response
write_error e = refusal (error_status e)

abbrev pub Handler : Type 0
Handler = Store → Response × Store

-- `strconv.ParseInt` of the parameter of the path; a negative number is refused as 0 is.
abbrev pub positive : Option ℕ → Option ℕ
positive (some zero) = none
positive o = o

unfoldable pub parse_id : String → Option ℕ
parse_id raw = positive (parse_int raw)

-- the start of a handler with an id: the early return of `parseID`
abbrev pub given_id : Option ℕ → (ℕ → Handler) → Handler
given_id none k s = (refusal 400, s)
given_id (some id) k s = k id s

abbrev pub with_id : String → (ℕ → Handler) → Handler
with_id raw = given_id (parse_id raw)

-- the early return of `readJSON`
abbrev pub read_json : {A : Type 0} → Option A → (A → Handler) → Handler
read_json none k s = (refusal 400, s)
read_json (some req) k s = k req s

-- the end of a handler: `writeError`, or the value with the status
abbrev pub answer : {A : Type 0} → ℕ → (A → Body) → Result Error A × Store → Response × Store
answer status body (ok a, s) = (write_json status (body a), s)
answer status body (err e, s) = (write_error e, s)

-- the end of a handler with no value
abbrev pub answer_empty : Result Error (Unit {0}) × Store → Response × Store
answer_empty = answer 204 (λ _. empty)

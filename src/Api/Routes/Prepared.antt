-- ===== src/Api/Routes/Prepared.antt =====
-- The checks of the handlers of daemon/api before they call the store refuse with the status of an
-- error.
use lightscale.Prelude.{
  ℕ, String, Bool, true, false, ◌&&◌, ◌||◌, not, Option, none, some, List, [], ◌∷◌, ◌==◌, nat_eq,
  string_eq, arith,
}
use lightscale.Prelude.Result.{Result, ok, err}
use lightscale.Origin.{Spec, validate}
use lightscale.IpAlloc.{AllocError, allocate, is_in_prefix}
use lightscale.Store.{Store, Error}
use lightscale.Store.Ports.{PortInput}
use lightscale.Store.Users.{get_user_by_name}
use lightscale.Store.Services.{Service, get_service, get_service_by_name}
use lightscale.Api.{Config, Env}
use lightscale.Api.Wire.{
  CreateUserReq, CreateServiceReq, UpdateServiceReq, UserGroupMemberReq, ServiceGroupMemberReq,
}
use lightscale.Api.Ports.{parse_ports}
use lightscale.Api.Users.{new_address, generated, prepare_user, allocated, kept_if}
use lightscale.Api.Groups.{required, found_id, member_user}
use lightscale.Api.ServiceGroups.{member_service}
use lightscale.Api.Services.{
  checked, guard_ports, prepare_service, given, request_ports, merged, origin_changed,
  request_origin, effective_origin, guard_effective, stored, prepare_update,
}
use lightscale.Api.Routes.Outcomes.{Refuses, Refuses-bind, Refuses-if, error_status-le}

allocated-Refuses : (r : Result AllocError String) → Refuses (allocated r)
allocated-Refuses (ok ip) = tt
allocated-Refuses (err e) = omega arith

kept_if-Refuses : (r : Result AllocError Bool) (ip : String) → Refuses (kept_if r ip)
kept_if-Refuses (ok true) ip = tt
kept_if-Refuses (ok false) ip = omega arith
kept_if-Refuses (err e) ip = omega arith

new_address-Refuses :
    (subnet ip : String) (taken reserved : List String)
    → Refuses (new_address subnet ip taken reserved)
unfolding new_address
new_address-Refuses subnet ip taken reserved =
    Refuses-if (ip == "") _ _ (allocated-Refuses (allocate subnet taken reserved))
      (kept_if-Refuses (is_in_prefix subnet ip) ip)

generated-Refuses : {A : Type 0} (o : Option A) → Refuses (generated o)
generated-Refuses none = omega arith
generated-Refuses (some a) = tt

pub prepare_user-Refuses :
    (cfg : Config) (env : Env) (s : Store) (req : CreateUserReq)
    → Refuses (prepare_user cfg env s req)
unfolding prepare_user
prepare_user-Refuses cfg env s req = Refuses-if (req.name == "") _ _ (omega arith) (
    Refuses-bind _ _ (new_address-Refuses cfg.client_subnet req.ip _ _) (λ ip.
      Refuses-bind _ _ (generated-Refuses env.keypair)
        (λ kp. Refuses-bind _ _ (generated-Refuses env.preshared_key) (λ psk. tt))))

required-Refuses : (id : ℕ) → Refuses (required id)
required-Refuses id = Refuses-if (id == 0) _ _ (omega arith) tt

found_id-Refuses : {A : Type 0} (id : A → ℕ) (r : Result Error A) → Refuses (found_id id r)
found_id-Refuses id (ok row) = required-Refuses (id row)
found_id-Refuses id (err e) = error_status-le e

pub member_user-Refuses : (s : Store) (req : UserGroupMemberReq) → Refuses (member_user s req)
unfolding member_user
member_user-Refuses s req =
    Refuses-if ((req.user_id == 0) && not (req.user_name == "")) _ _
      (found_id-Refuses _ (get_user_by_name s req.user_name)) (required-Refuses req.user_id)

pub member_service-Refuses :
    (s : Store) (req : ServiceGroupMemberReq) → Refuses (member_service s req)
unfolding member_service
member_service-Refuses s req =
    Refuses-if ((req.service_id == 0) && not (req.service_name == "")) _ _
      (found_id-Refuses _ (get_service_by_name s req.service_name))
      (required-Refuses req.service_id)

checked-Refuses : {E A : Type 0} (r : Result E A) → Refuses (checked r)
checked-Refuses (ok a) = tt
checked-Refuses (err e) = omega arith

guard_ports-Refuses :
    {P A : Type 0} (spec : Spec) (ports : List P) (a : A) → Refuses (guard_ports spec ports a)
guard_ports-Refuses spec [] a = Refuses-if (spec.kind == "host") _ _ (omega arith) tt
guard_ports-Refuses spec (p ∷ ps) a = tt

pub prepare_service-Refuses :
    (cfg : Config) (s : Store) (req : CreateServiceReq) → Refuses (prepare_service cfg s req)
unfolding prepare_service
prepare_service-Refuses cfg s req = Refuses-if (req.name == "") _ _ (omega arith) (
    Refuses-bind _ _ (checked-Refuses (validate _)) (λ spec.
      Refuses-bind _ _ (new_address-Refuses cfg.service_subnet req.ip _ _) (λ ip.
        Refuses-bind _ _ (checked-Refuses (parse_ports req.ports))
          (λ ports. guard_ports-Refuses spec ports _))))

request_ports-Refuses : (text : Option String) → Refuses (request_ports text)
request_ports-Refuses none = tt
request_ports-Refuses (some text) =
    Refuses-bind _ _ (checked-Refuses (parse_ports text)) (λ ports. tt)

request_origin-Refuses :
    (req : UpdateServiceReq) (current : Spec) → Refuses (request_origin req current)
request_origin-Refuses req current =
    Refuses-if (origin_changed req) _ _
      (Refuses-bind _ _ (checked-Refuses (validate (merged req current))) (λ spec. tt)) tt

guard_effective-Refuses :
    {A : Type 0} (spec : Option Spec) (ports : Option (List PortInput)) (cur : Service) (a : A)
    → Refuses (guard_effective spec ports cur a)
guard_effective-Refuses spec none cur a =
    guard_ports-Refuses (effective_origin spec cur.row.origin) cur.ports a
guard_effective-Refuses spec (some ports) cur a =
    guard_ports-Refuses (effective_origin spec cur.row.origin) ports a

stored-Refuses : {A : Type 0} (r : Result Error A) → Refuses (stored r)
stored-Refuses (ok a) = tt
stored-Refuses (err e) = error_status-le e

pub prepare_update-Refuses :
    (s : Store) (id : ℕ) (req : UpdateServiceReq) → Refuses (prepare_update s id req)
unfolding prepare_update
prepare_update-Refuses s id req = Refuses-bind _ _ (request_ports-Refuses req.ports) (λ ports.
    Refuses-if (origin_changed req || given req.ports) _ _
      (Refuses-bind _ _ (stored-Refuses (get_service s id)) (λ cur.
        Refuses-bind _ _ (request_origin-Refuses req cur.row.origin)
          (λ spec. guard_effective-Refuses spec ports cur _)))
      tt)

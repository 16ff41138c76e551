-- ===== src/Api/Services.antt =====
-- daemon/api/services.go. `origin_checker` stands for the resolver of daemon/proxy, which is asked
-- for the backend of a service; `none` where the daemon has none.
use Prim.Native.String.{◌++◌}
use lightscale.Prelude.{
  ℕ, String, Bool, true, false, ◌&&◌, ◌||◌, Option, none, some, List, [], ◌∷◌, map, ltb, ◌==◌,
  nat_eq, string_eq, if◌then◌else◌,
}
use lightscale.Prelude.Result.{Result, ok, err, ◌>>=◌}
use lightscale.Origin.{Spec, validate}
use lightscale.Store.{ServicePort, Store, Error}
use lightscale.Store.Ports.{PortInput}
use lightscale.Store.Services
use lightscale.Store.Services.{Service, CreateServiceInput, UpdateServiceInput, taken_service_ips}
use lightscale.Api.{
  Config, Env, Response, Handler, write_json, refusal, write_error, with_id, read_json, answer,
  answer_empty, Body,
}
use lightscale.Api.Wire.{ServiceDto, CreateServiceReq, UpdateServiceReq, OriginCheck}
use lightscale.Api.Ports.{parse_ports}
use lightscale.Api.Users.{new_address, prepared}

abbrev pub to_service_dto : Service → ServiceDto
to_service_dto sv = record {
  id = sv.row.id;
  name = sv.row.name;
  hostname = sv.row.hostname;
  origin_kind = sv.row.origin.kind;
  origin_value = sv.row.origin.value;
  origin_network = sv.row.origin.network;
  ip_address = sv.row.ip_address;
  description = sv.row.description;
  ports = map (λ p. record { port = p.port; protocol = p.protocol }) sv.ports;
  created_at = sv.row.created_at;
  updated_at = sv.row.updated_at;
}

abbrev pub service_body : Service → Body
service_body sv = Body.service (to_service_dto sv)

unfoldable pub list_services : Handler
list_services s =
    (write_json 200 (Body.services (map to_service_dto (Services.list_services s))), s)

-- an error of a validator, which is answered with status 400
abbrev pub checked : {E A : Type 0} → Result E A → Result Response A
checked (ok a) = ok a
checked (err e) = err (refusal 400)

-- A service on the daemon's own host must declare ports.
abbrev pub guard_ports : {P A : Type 0} → Spec → List P → A → Result Response A
guard_ports spec [] a = if spec.kind == "host" then err (refusal 400) else ok a
guard_ports spec (_ ∷ _) a = ok a

-- `createService` up to the call of the store
unfoldable pub prepare_service :
    Config → Store → CreateServiceReq → Result Response CreateServiceInput
prepare_service cfg s req = if req.name == "" then err (refusal 400) else (do
  spec ← checked (
      validate
        (record { kind = req.origin_kind; value = req.origin_value; network = req.origin_network }))
  ip ← new_address cfg.service_subnet req.ip (taken_service_ips s) []
  ports ← checked (parse_ports req.ports)
  guard_ports spec ports (record {
    name = req.name;
    hostname = if req.hostname == "" then req.name ++ "." ++ cfg.domain else req.hostname;
    origin = spec;
    ip_address = ip;
    description = req.description;
    ports = ports;
  }))

unfoldable pub create_service : Config → Env → Option CreateServiceReq → Handler
create_service cfg env body = read_json body (λ req s.
    prepared (prepare_service cfg s req)
      (λ input s'. answer 201 service_body (Services.create_service input env.now s')) s)

unfoldable pub get_service : String → Handler
get_service raw = with_id raw (λ id s. answer 200 service_body (Services.get_service s id, s))

abbrev pub given : Option String → Bool
given none = false
given (some _) = true

-- the ports of the request, if it has some
abbrev pub request_ports : Option String → Result Response (Option (List PortInput))
request_ports none = ok none
request_ports (some text) = checked (parse_ports text) >>= λ ports. ok (some ports)

-- the kind of the request: another kind than the current one starts from an empty spec
abbrev pub with_kind : Option String → Spec → Spec
with_kind none spec = spec
with_kind (some kind) spec =
    if kind == spec.kind then spec else record { kind = kind; value = ""; network = "" }

abbrev pub or_current : Option String → String → String
or_current none current = current
or_current (some new) current = new

-- the origin after the request, before it is validated
abbrev pub merged : UpdateServiceReq → Spec → Spec
merged req current =
    let spec = with_kind req.origin_kind current in
    record spec {
      value = or_current req.origin_value spec.value;
      network = or_current req.origin_network spec.network;
    }

abbrev pub origin_changed : UpdateServiceReq → Bool
origin_changed req = given req.origin_kind || given req.origin_value || given req.origin_network

-- the origin to be written, if the request changes it
abbrev pub request_origin : UpdateServiceReq → Spec → Result Response (Option Spec)
request_origin req current =
    if origin_changed req
    then (checked (validate (merged req current)) >>= λ spec. ok (some spec))
    else ok none

abbrev pub effective_origin : Option Spec → Spec → Spec
effective_origin none current = current
effective_origin (some spec) current = spec

-- the error of the query, or status 400 for a service on the host that would have no ports
abbrev pub guard_effective :
    {A : Type 0} → Option Spec → Option (List PortInput) → Service → A → Result Response A
guard_effective spec none cur a = guard_ports (effective_origin spec cur.row.origin) cur.ports a
guard_effective spec (some ports) cur a = guard_ports (effective_origin spec cur.row.origin) ports a

abbrev pub stored : {A : Type 0} → Result Error A → Result Response A
stored (ok a) = ok a
stored (err e) = err (write_error e)

abbrev pub update_of : UpdateServiceReq → Option Spec → Option (List PortInput) → UpdateServiceInput
update_of req spec ports = record {
  name = req.name;
  hostname = req.hostname;
  origin = spec;
  ip_address = req.ip;
  description = req.description;
  ports = ports;
}

-- `updateService` up to the call of the store
unfoldable pub prepare_update : Store → ℕ → UpdateServiceReq → Result Response UpdateServiceInput
prepare_update s id req = do
  ports ← request_ports req.ports
  (if origin_changed req || given req.ports
      then (do
        cur ← stored (Services.get_service s id)
        spec ← request_origin req cur.row.origin
        guard_effective spec ports cur (update_of req spec ports))
      else ok (update_of req none ports))

unfoldable pub update_service : Env → String → Option UpdateServiceReq → Handler
update_service env raw body = with_id raw (λ id. read_json body (λ req s.
    prepared (prepare_update s id req)
      (λ input s'. answer 200 service_body (Services.update_service id input env.now s')) s))

unfoldable pub delete_service : String → Handler
delete_service raw = with_id raw (λ id s. answer_empty (Services.delete_service id s))

-- the part of `proxy.Target` that the handler shows
pub record Target : Type 0 where
  pub dial_host : String
  pub network : String
  pub detail : String

abbrev pub OriginChecker : Type 0
OriginChecker = Spec → ℕ → String → Option Target

-- the lowest TCP port, or 0
unfoldable pub lowest_tcp : ℕ → List ServicePort → ℕ
lowest_tcp port [] = port
lowest_tcp port (p ∷ ps) =
    lowest_tcp (if (p.protocol == "tcp") && ((port == 0) || ltb p.port port) then p.port else port)
      ps

abbrev unreachable : String → OriginCheck
unreachable detail = record { reachable = false; dial_host = ""; network = ""; detail = detail }

abbrev check_result : Option Target → OriginCheck
check_result none = unreachable ""
check_result (some t) = record {
  reachable = true;
  dial_host = t.dial_host;
  network = t.network;
  detail = t.detail;
}

abbrev check_with : Option OriginChecker → Service → OriginCheck
check_with none sv = unreachable "origin checking is unavailable on this daemon"
check_with (some resolve) sv = check_result (resolve sv.row.origin (lowest_tcp 0 sv.ports) "tcp")

unfoldable pub check_service_origin : Option OriginChecker → String → Handler
unfolding lowest_tcp
check_service_origin checker raw =
    with_id raw
      (λ id s. answer 200 (λ sv. Body.check (check_with checker sv)) (Services.get_service s id, s))

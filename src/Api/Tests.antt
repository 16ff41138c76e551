-- ===== src/Api/Tests.antt =====
-- The handlers of daemon/api on a small store, and the theorems about them at concrete requests.
use lightscale.Prelude.{
  ◌≡◌, refl, inl, inr, true, false, none, some, List, [], ◌∷◌, All, arith, nat_eq, string_eq,
}
use lightscale.Prelude.Result.{ok}
use lightscale.Origin.Text.{trim_space, to_lower}
use lightscale.Strings.{cut, split}
use lightscale.Strconv.{itoa, parse_int}
use lightscale.Strconv.Decimal.{parse_int-itoa}
use lightscale.Store.{Store, new_store}
use lightscale.Store.Ports.{PortInput}
use lightscale.Store.Invariants.Always.{IsValid, new_store-IsValid}
use lightscale.Store.HostPorts.{HostPorts}
use lightscale.Cli.{format_ports}
use lightscale.Api.{Config, Env}
use lightscale.Api.Wire.{CreateUserReq, CreateServiceReq, UpdateServiceReq}
use lightscale.Api.Ports.{parse_ports, port_on, Declared}
use lightscale.Api.Ports.Bounds.{parse_ports-Declared}
use lightscale.Api.Ports.RoundTrip.{parse_ports-format_ports}
use lightscale.Api.Users.{create_user}
use lightscale.Api.Users.Created.{GetsBack, get_user-create_user}
use lightscale.Api.Policies.{list_policies}
use lightscale.Api.Policies.Displayed.{list_policies_lem}
use lightscale.Api.Names.{resolve_subject, resolve_object}
use lightscale.Api.Names.Displayed.{
  PrincipalNamed, ObjectNamed, resolve_subject-Named, resolve_object-Named,
}
use lightscale.Api.Routes.{Request, serve, writes}
use lightscale.Api.Routes.Asked.{Asks}
use lightscale.Api.Routes.Outcomes.{Served}
use lightscale.Api.Routes.Effects.{serve-Served}
use lightscale.Api.Routes.Reads.{serve_reads}
use lightscale.Api.Routes.Always.{serve_all, serve_all-HostPorts}

abbrev config : Config
config = record {
  domain = "mesh.test";
  public_endpoint = "vpn.test:51820";
  subnet = "10.0.0.0/23";
  client_subnet = "10.0.0.0/24";
  service_subnet = "10.0.1.0/24";
  server_ip = "10.0.0.1";
  dns = [];
}

abbrev at_noon : Env
at_noon = record {
  now = "2026-01-01T12:00:00Z";
  keypair = some (record { public_key = "pub"; private_key = "priv" });
  preshared_key = some "psk";
}

abbrev ann : CreateUserReq
ann = record { name = "ann"; email = ""; ip = ""; endpoint = "" }

abbrev web : CreateServiceReq
web = record {
  name = "web";
  origin_kind = "host";
  origin_value = "";
  origin_network = "";
  ports = "80/tcp, 443";
  hostname = "";
  ip = "";
  description = "";
}

abbrev without_ports : UpdateServiceReq
without_ports = record {
  name = none;
  hostname = none;
  origin_kind = none;
  origin_value = none;
  origin_network = none;
  ip = none;
  description = none;
  ports = some "";
}

abbrev requests : List (Env × Request)
requests =
    (at_noon, Request.create_user (some ann))
    ∷ (at_noon, Request.create_service (some web))
    ∷ (at_noon, Request.update_service "1" (some without_ports))
    ∷ []

parse_int-itoa_example : parse_int (itoa 8096) ≡ some 8096
parse_int-itoa_example = parse_int-itoa 8096 (omega arith)

abbrev declared : List PortInput
declared = port_on 80 "tcp" ∷ port_on 443 "udp" ∷ []

parse_ports-format_ports_example : parse_ports (format_ports declared) ≡ ok declared
parse_ports-format_ports_example =
    parse_ports-format_ports (port_on 80 "tcp") (port_on 443 "udp" ∷ [])
      ((omega arith, omega arith, inl refl), ((omega arith, omega arith, inr refl), tt))

two_ports : parse_ports " 80/TCP,,443/udp " ≡ ok declared
unfolding parse_ports trim_space split parse_int cut to_lower
two_ports = refl

parse_ports-Declared_example : All Declared declared
parse_ports-Declared_example = parse_ports-Declared " 80/TCP,,443/udp " declared two_ports

abbrev add_web : Request
add_web = Request.create_service (some web)

writes_web : writes add_web ≡ true
unfolding writes
writes_web = refl

serve-Served_example :
    Served
      (Asks config at_noon new_store add_web)
      at_noon.now
      new_store
      (serve config at_noon none add_web new_store)
serve-Served_example = serve-Served config at_noon none add_web new_store writes_web

reads_users : writes Request.list_users ≡ false
unfolding writes
reads_users = refl

serve_reads_example : (serve config at_noon none Request.list_users new_store).1 ≡ new_store
serve_reads_example = serve_reads config at_noon none Request.list_users new_store reads_users

-- The third request would leave the service on the host without ports.
serve_all-HostPorts_example :
    IsValid (serve_all config none requests new_store).db
    × HostPorts (serve_all config none requests new_store).db
serve_all-HostPorts_example =
    serve_all-HostPorts config none requests new_store new_store-IsValid tt

get_user-create_user_example : GetsBack (create_user config at_noon (some ann) new_store)
get_user-create_user_example =
    get_user-create_user config at_noon (some ann) new_store new_store-IsValid (omega arith)

-- the store after the requests
abbrev busy : Store
busy = serve_all config none requests new_store

busy_valid : IsValid busy.db
busy_valid = (serve_all-HostPorts config none requests new_store new_store-IsValid tt).0

list_policies_example : (list_policies busy).0.status ≡ 200
list_policies_example = list_policies_lem busy busy_valid

resolve_subject-Named_example :
    PrincipalNamed busy "ann" busy_valid.ids (resolve_subject busy "" 0 "ann")
resolve_subject-Named_example = resolve_subject-Named busy "ann" busy_valid.ids "" 0 refl refl

resolve_object-Named_example :
    ObjectNamed busy "web" busy_valid.ids (resolve_object busy "service" 0 "web")
resolve_object-Named_example = resolve_object-Named busy "web" busy_valid.ids "service" 0 refl refl

-- ===== src/Api/Zone.antt =====
-- daemon/api/dns.go: the zone of the services. The texts that `Format` makes of the times are
-- arguments, as is the sort of daemon/dns.
pub mod Announced
mod Tests
use lightscale.Prelude.{String, Option, none, some, List, map}
use lightscale.Store.{Store}
use lightscale.Store.Services.{Service, list_services}
use lightscale.Dns.{Record, Zone, render, leaf_label}
use lightscale.Api.{Config, Response, Handler, Body, write_json, refusal}

abbrev pub record_of : Service → Record
record_of sv = record { name = leaf_label sv.row.hostname; ip = sv.row.ip_address }

abbrev pub zone_of : Config → String → List Service → Zone
zone_of cfg now services = record {
  domain = cfg.domain;
  serial = "";
  records = map record_of services;
  now = some now;
}

-- the text, or the error as `writeError` answers it
abbrev pub zone_response : Option String → Response
zone_response none = refusal 500
zone_response (some body) = record { status = 200; body = Body.text body }

unfoldable pub get_dns_zone : (List Record → List Record) → Config → String → String → Handler
get_dns_zone sort cfg now current s =
    (zone_response (render sort current (zone_of cfg now (list_services s))), s)

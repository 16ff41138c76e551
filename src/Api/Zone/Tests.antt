-- ===== src/Api/Zone/Tests.antt =====
-- The zone of a store with one service.
use Prim.Native.String.{◌++◌}
use lightscale.Prelude.{◌≡◌, refl, String, List, []}
use lightscale.Dns.{Record, concat, trim_dot, leaf_label, record_line, record_lines, padded, render}
use lightscale.Policy.Build.Sample.{small}
use lightscale.Strings.{cut}
use lightscale.Store.Services.{list_services}
use lightscale.Api.{Config, Body}
use lightscale.Api.Zone.{get_dns_zone}
use lightscale.Api.Zone.Announced.{Announced}

abbrev cfg : Config
cfg = record {
  domain = "lan.";
  public_endpoint = "";
  subnet = "";
  client_subnet = "";
  service_subnet = "";
  server_ip = "";
  dns = [];
}

-- one record is sorted
abbrev as_is : List Record → List Record
as_is records = records

zone : (get_dns_zone as_is cfg "2605030000" "" small).0 ≡ record {
  status = 200;
  body = Body.text (
      "$ORIGIN lan.\n$TTL 300\n@           IN SOA   ns.lan. admin.lan. ( 2605030000 3600 600 86400 60 )\n"
      ++ "wiki         IN A     10.1.0.5\n");
}
unfolding get_dns_zone render trim_dot concat record_lines record_line padded leaf_label cut
    list_services
zone = refl

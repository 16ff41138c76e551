-- ===== src/Api/Routes/Tests.antt =====
-- Two PATCH requests to one service whose handlers (`updateService` of daemon/api/services.go) run at
-- the same time.
use lightscale.Prelude.{
  map, ◌≡◌, refl, none, some, [], ◌∷◌, any, find_first, keep, update, has, nat_eq, string_eq,
}
use lightscale.Prelude.Result.{ok}
use lightscale.Origin.{validate}
use lightscale.Origin.Text.{trim_space, to_lower}
use lightscale.Store.{ServiceRow, Store, new_store, with_tx}
use lightscale.Store.Services.{
  UpdateServiceInput, get_service, update_service, service_by_id, new_origin, write_service,
}
use lightscale.Store.Ports.{load_service_ports, replace_service_ports, insert_service_ports}
use lightscale.Api.Wire.{UpdateServiceReq}
use lightscale.Api.Ports.{parse_ports}
use lightscale.Api.Services.{prepare_update}

abbrev wiki : ServiceRow
wiki = record {
  id = 1;
  name = "wiki";
  hostname = "wiki.mesh.test";
  origin = record { kind = "ip"; value = "10.9.0.1"; network = "" };
  ip_address = "10.0.1.1";
  description = "";
  created_at = "";
  updated_at = "";
}

abbrev start : Store
start = record {
  db = record new_store.db {
    services = wiki ∷ [];
    services_seq = 1;
    service_ports = record { id = 1; service_id = 1; port = 80; protocol = "tcp" } ∷ [];
    service_ports_seq = 1;
  };
  notified = [];
}

abbrev without_ports : UpdateServiceReq
without_ports = record {
  name = none;
  hostname = none;
  origin_kind = none;
  origin_value = none;
  origin_network = none;
  ip = none;
  description = none;
  ports = some "";
}

abbrev to_host : UpdateServiceReq
to_host = record without_ports { origin_kind = some "host"; ports = none }

abbrev no_change : UpdateServiceInput
no_change = record {
  name = none;
  hostname = none;
  origin = none;
  ip_address = none;
  description = none;
  ports = none;
}

abbrev drops_ports : UpdateServiceInput
drops_ports = record no_change { ports = some [] }

abbrev goes_to_host : UpdateServiceInput
goes_to_host = record no_change {
  origin = some (record { kind = "host"; value = ""; network = "" });
}

-- Both pass the checks on the row that was there before.
both_pass :
    (prepare_update start 1 without_ports ≡ ok drops_ports)
    × (prepare_update start 1 to_host ≡ ok goes_to_host)
unfolding prepare_update get_service parse_ports trim_space to_lower validate find_first
    service_by_id load_service_ports keep
both_pass = (refl, refl)

abbrev after_both : Store
after_both = (update_service 1 goes_to_host "t2" (update_service 1 drops_ports "t1" start).1).1

-- After both writes the service is on the host, and has no port.
open_on_host :
    (map (λ t. t.origin.kind) after_both.db.services ≡ "host" ∷ [])
    × (after_both.db.service_ports ≡ [])
unfolding update_service find_first keep update any has with_tx service_by_id new_origin
    write_service replace_service_ports insert_service_ports validate to_lower trim_space
open_on_host = (refl, refl)

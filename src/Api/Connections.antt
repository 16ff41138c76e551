-- ===== src/Api/Connections.antt =====
-- daemon/api/status.go: the open flows, with the names that the index has for their ends; the adapters
-- of daemon/runtime/daemon.go only copy fields. `listPeers` is not modelled.
mod Tests
use lightscale.Prelude.{
  ℕ, String, Bool, true, false, not, ◌&&◌, Option, none, some, List, [], ◌∷◌, map, ◌==◌, string_eq,
  nat_eq, if◌then◌else◌, keep, get,
}
use lightscale.Policy.{Index, UserSnapshot, ServiceSnapshot}
use lightscale.Policy.FlowTable.{FlowTable, FlowSnapshot, snapshot}
use lightscale.Api.{Response, Body, write_json}
use lightscale.Api.Wire.{ConnectionDto}

-- a name and an address, empty if there is no such row
abbrev user_end : Option UserSnapshot → String × String
user_end none = ("", "")
user_end (some u) = (u.name, u.ip_address)

abbrev service_end : Option ServiceSnapshot → String × String
service_end none = ("", "")
service_end (some sv) = (sv.name, sv.ip_address)

-- `UserByID` and `ServiceByID` of the resolver, by the type of the object
unfoldable pub object_end : Index → String → ℕ → String × String
object_end idx type id =
    if type == "service"
    then service_end (get id idx.service_by_id)
    else if type == "user"
    then user_end (get id idx.user_by_id)
    else ("", "")

abbrev pub connection : FlowSnapshot → String × String → String × String → ConnectionDto
connection f (src_name, src_ip) (object_name, object_ip) = record {
  id = f.id;
  src_user_id = f.src_user_id;
  src_name = src_name;
  src_ip = src_ip;
  object_type = f.object_type;
  object_id = f.object_id;
  object_name = object_name;
  object_ip = object_ip;
  port = f.port;
  protocol = f.protocol;
  src_addr = f.src_addr;
  backend_local_addr = f.backend_local_addr;
}

-- `none` for a nil resolver
unfoldable pub to_connection_dto : Option Index → FlowSnapshot → ConnectionDto
unfolding object_end
to_connection_dto none f = connection f ("", "") ("", "")
to_connection_dto (some idx) f =
    connection f (user_end (get f.src_user_id idx.user_by_id))
      (object_end idx f.object_type f.object_id)

-- `backend_addr` of the query, empty if it is not given
unfoldable pub list_connections : Option Index → FlowTable → String → Response
unfolding to_connection_dto
list_connections resolver flows backend_addr = write_json 200 (
    Body.connections (
      map (to_connection_dto resolver) (
        keep (λ f. not (not (backend_addr == "") && not (f.backend_local_addr == backend_addr)))
          (snapshot flows))))

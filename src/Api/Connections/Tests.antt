-- ===== src/Api/Connections/Tests.antt =====
-- The list of connections of a small network.
use lightscale.Prelude.{◌≡◌, refl, none, some, [], ◌∷◌, keep, get}
use lightscale.Policy.Sample.{office}
use lightscale.Policy.FlowTable.{FlowTable, snapshot, snapshot_of}
use lightscale.Api.{Body}
use lightscale.Api.Connections.{list_connections, to_connection_dto, object_end}

abbrev flows : FlowTable
flows = record {
  next = 1;
  flows =
      (
        1,
        record {
          src_user_id = 1;
          object_type = "service";
          object_id = 1;
          port = 443;
          protocol = "tcp";
          src_addr = "10.0.0.2:5000";
          backend_local_addr = "127.0.0.1:6000";
          close = none;
        },
      )
      ∷ [];
}

shown : list_connections (some office) flows "127.0.0.1:6000" ≡ record {
  status = 200;
  body = Body.connections (
      record {
        id = 1;
        src_user_id = 1;
        src_name = "ann";
        src_ip = "10.0.0.2";
        object_type = "service";
        object_id = 1;
        object_name = "wiki";
        object_ip = "10.1.0.5";
        port = 443;
        protocol = "tcp";
        src_addr = "10.0.0.2:5000";
        backend_local_addr = "127.0.0.1:6000";
      }
      ∷ []);
}
unfolding list_connections to_connection_dto object_end snapshot snapshot_of keep get
shown = refl

hidden :
    list_connections (some office) flows "127.0.0.1:7000"
    ≡ record { status = 200; body = Body.connections [] }
unfolding list_connections snapshot snapshot_of keep
hidden = refl

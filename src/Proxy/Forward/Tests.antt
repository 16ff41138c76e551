-- ===== src/Proxy/Forward/Tests.antt =====
-- A connection through the forwarder of daemon/proxy/tcp.go.
use lightscale.Prelude.{
  ◌≡◌, refl, false, none, some, [], ◌∷◌, any, keep, get, put, delete, string_eq, nat_eq, here,
}
use lightscale.Origin.{validate, check_spec, valid}
use lightscale.Origin.Text.{trim_space, to_lower}
use lightscale.Store.Users.{list_users}
use lightscale.Store.Groups.{list_user_groups}
use lightscale.Store.Services.{list_services}
use lightscale.Store.Ports.{load_service_ports, order_ports}
use lightscale.Store.ServiceMembers.{service_group_ids_for_service}
use lightscale.Store.Policies.{list_policies}
use lightscale.Policy.Resolver.{
  check_service, port_allowed, evaluate, evaluate_explicit, pick, consider, matches_any, refs,
  subject_set, service_object_set,
}
use lightscale.Policy.FlowTable.{Flow, add, new_flow_table}
use lightscale.Policy.Build.{
  build, index_users, index_services, index_groups, index_members, index_service_groups,
}
use lightscale.Policy.Build.Reaped.{Backed}
use lightscale.Policy.Build.Sample.{small, small-IsValid}
use lightscale.Proxy.{World, new_resolver, resolve, resolve_kind}
use lightscale.Proxy.Forward.{connected, Peer, Dial, State, handle_tcp, open_flow}
use lightscale.Proxy.Forward.Always.{Reach, Reach-Backed}

abbrev outside : World
outside = record { started = 0; finished = 0; lookup_host = λ host. none; probe = λ ip port. false }

abbrev dial : Dial
dial host port = connected ("127.0.0.1:6000", 7)

abbrev ann : Peer
ann = record { host = "10.0.0.2"; port = 5000; text = "10.0.0.2:5000" }

abbrev start : State
start = record { flows = new_flow_table; resolver = new_resolver none }

abbrev now : State
now = (handle_tcp outside dial (build small) ann "10.1.0.5" 443 start).1

abbrev flow : Flow
flow = record {
  src_user_id = 1;
  object_type = "service";
  object_id = 1;
  port = 443;
  protocol = "tcp";
  src_addr = "10.0.0.2:5000";
  backend_local_addr = "127.0.0.1:6000";
  close = some 7;
}

opened : now.flows.flows ≡ (1, flow) ∷ []
unfolding handle_tcp open_flow resolve resolve_kind validate check_spec valid trim_space to_lower
    add new_flow_table new_resolver check_service port_allowed evaluate evaluate_explicit pick
    consider matches_any refs subject_set service_object_set build index_users index_services
    index_groups index_members index_service_groups list_users list_user_groups list_services
    list_policies load_service_ports order_ports service_group_ids_for_service get put delete any
    keep
opened = refl

Reach-Backed_example : Backed small flow
Reach-Backed_example =
    Reach-Backed small now [] 1 flow
      (Reach.connected (Reach.started small none small-IsValid) outside dial ann "10.1.0.5" 443)
      (rw opened (here refl)) refl

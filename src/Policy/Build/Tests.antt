-- ===== src/Policy/Build/Tests.antt =====
-- A decision on the index of a store that some writes made.
use lightscale.Prelude.{
  ◌≡◌, refl, ◌↔◌, true, none, List, [], ◌∷◌, String, has, any, keep, get, put, delete, string_eq,
  nat_eq, arith, In, here,
}
use lightscale.Store.{User, ServiceRow, Store, new_store}
use lightscale.Store.Users.{list_users}
use lightscale.Store.Groups.{list_user_groups}
use lightscale.Store.Services.{list_services}
use lightscale.Store.Ports.{load_service_ports, order_ports}
use lightscale.Store.ServiceMembers.{service_group_ids_for_service}
use lightscale.Store.Policies.{list_policies}
use lightscale.Store.Commands.{Command, run}
use lightscale.Store.Invariants.Always.{new_store-IsValid, run-IsValid}
use lightscale.Policy.Resolver.{
  allow, check_service, port_allowed, evaluate, evaluate_explicit, pick, consider, matches_any,
  refs, subject_set, service_object_set,
}
use lightscale.Policy.FlowTable.{
  Flow, FlowTable, IsValid as IsValidTable, reap, condemned, delete_all, close_all, allowed,
}
use lightscale.Policy.Build.{
  build, index_users, index_services, index_groups, index_members, index_service_groups,
}
use lightscale.Policy.Build.Tables.Access.{TableAccess, check_service-build_iff}
use lightscale.Policy.Build.Reaped.{reap-build}
use lightscale.Policy.Build.Sample.{small, small-IsValid}

abbrev script : List (Command × String)
script =
    (
      Command.create_user (record {
        name = "ann";
        email = "";
        public_key = "pub";
        private_key = "priv";
        preshared_key = "psk";
        ip_address = "10.0.0.2";
        endpoint = "";
      }),
      "t1",
    )
    ∷ (Command.create_user_group "staff" true, "t2")
    ∷ (Command.add_user_to_group 1 1, "t3")
    ∷ (
      Command.create_service (record {
        name = "wiki";
        hostname = "wiki.lan";
        origin = record { kind = "host"; value = ""; network = "" };
        ip_address = "10.1.0.5";
        description = "";
        ports = (record { port = 443; protocol = "tcp" }) ∷ [];
      }),
      "t4",
    )
    ∷ (
      Command.create_policy (record {
        subject_type = "user_group";
        subject_id = 1;
        object_type = "service";
        object_id = 1;
        action = "allow";
      }),
      "t5",
    )
    ∷ []

abbrev office : Store
office = run script new_store

check_service-build_iff_example :
    ((check_service (build office) "10.0.0.2" "10.1.0.5" 443 "tcp").0 ≡ allow)
    ↔ TableAccess office.db "10.0.0.2" "10.1.0.5" 443 "tcp"
check_service-build_iff_example =
    check_service-build_iff office (run-IsValid script new_store new_store-IsValid).0 "10.0.0.2"
      "10.1.0.5" 443 "tcp"

abbrev flow : Flow
flow = record {
  src_user_id = 1;
  object_type = "service";
  object_id = 1;
  port = 443;
  protocol = "tcp";
  src_addr = "10.0.0.2:5000";
  backend_local_addr = "127.0.0.1:6000";
  close = none;
}

abbrev open_flows : FlowTable
open_flows = record { next = 1; flows = (1, flow) ∷ [] }

open_flows-IsValid : IsValidTable open_flows
unfolding has any
open_flows-IsValid = record { distinct = (refl, tt); bounded = (omega arith, tt) }

still_open : (reap open_flows (build small)).0.flows ≡ (1, flow) ∷ []
unfolding reap condemned delete_all close_all allowed check_service port_allowed evaluate
    evaluate_explicit pick consider matches_any refs subject_set service_object_set build
    index_users index_services index_groups index_members index_service_groups list_users
    list_user_groups list_services list_policies load_service_ports order_ports
    service_group_ids_for_service get put delete any keep
still_open = refl

reap-build_example :
    (u : User) × (svc : ServiceRow) × In u small.db.users
    × (u.id ≡ 1)
    × In svc small.db.services
    × (svc.id ≡ 1)
    × TableAccess small.db u.ip_address svc.ip_address 443 "tcp"
reap-build_example =
    reap-build small open_flows 1 flow small-IsValid open_flows-IsValid (rw still_open (here refl))
      refl

-- ===== src/Store/Tests.antt =====
-- A run of daemon/store.
use lightscale.Prelude.{true, List, [], ◌∷◌, String}
use lightscale.Store.{new_store}
use lightscale.Store.Commands.{Command, kind_of, apply, run}
use lightscale.Store.Commands.Changes.{Atomic, apply-Atomic}
use lightscale.Store.Invariants.Always.{IsValid, new_store-IsValid, run-IsValid}
use lightscale.Store.Invariants.Later.{Later}

abbrev new_user : String → String → Command
new_user name ip = Command.create_user (record {
  name = name;
  email = "";
  public_key = "pub";
  private_key = "priv";
  preshared_key = "psk";
  ip_address = ip;
  endpoint = "";
})

abbrev wiki : Command
wiki = Command.create_service (record {
  name = "wiki";
  hostname = "wiki.lan";
  origin = record { kind = "host"; value = ""; network = "" };
  ip_address = "10.1.0.5";
  description = "";
  ports = (record { port = 443; protocol = "tcp" }) ∷ [];
})

abbrev staff_may_read : Command
staff_may_read = Command.create_policy (record {
  subject_type = "user_group";
  subject_id = 1;
  object_type = "service";
  object_id = 1;
  action = "allow";
})

-- The third user has a name that is taken, and is refused.
abbrev script : List (Command × String)
script =
    (new_user "ann" "10.0.0.2", "t1")
    ∷ (new_user "bob" "10.0.0.3", "t2")
    ∷ (new_user "ann" "10.0.0.4", "t3")
    ∷ (Command.create_user_group "staff" true, "t4")
    ∷ (Command.add_user_to_group 1 1, "t5")
    ∷ (wiki, "t6")
    ∷ (staff_may_read, "t7")
    ∷ (Command.delete_user 2, "t8")
    ∷ []

run-IsValid_example :
    IsValid (run script new_store).db × Later new_store.db (run script new_store).db
run-IsValid_example = run-IsValid script new_store new_store-IsValid

apply-Atomic_example :
    Atomic
      (kind_of (new_user "ann" "10.0.0.2"))
      new_store
      (apply (new_user "ann" "10.0.0.2") "t1" new_store)
apply-Atomic_example = apply-Atomic (new_user "ann" "10.0.0.2") "t1" new_store

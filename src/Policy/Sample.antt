-- ===== src/Policy/Sample.antt =====
-- A small network for the tests of daemon/policy.
use lightscale.Prelude.{true, [], ◌∷◌}
use lightscale.Policy.{UserSnapshot, ServiceSnapshot, UserGroupSnapshot, RuleSnapshot, Index}

abbrev pub ann : UserSnapshot
ann = record {
  id = 1;
  name = "ann";
  ip_address = "10.0.0.2";
  public_key = "a";
  preshared_key = "p";
}

abbrev pub bob : UserSnapshot
bob = record {
  id = 2;
  name = "bob";
  ip_address = "10.0.0.3";
  public_key = "b";
  preshared_key = "q";
}

abbrev pub wiki : ServiceSnapshot
wiki = record {
  id = 1;
  name = "wiki";
  hostname = "wiki.lan";
  origin = record { kind = "host"; value = ""; network = "" };
  ip_address = "10.1.0.5";
  ports = (record { port = 443; protocol = "tcp" }) ∷ [];
}

abbrev pub staff : UserGroupSnapshot
staff = record { id = 1; name = "staff"; lan_mode = true; members = 1 ∷ 2 ∷ [] }

abbrev pub staff_rule : RuleSnapshot
staff_rule = record {
  id = 1;
  subject_type = "user_group";
  subject_id = 1;
  object_type = "service";
  object_id = 1;
  action = "allow";
}

-- an exception for Bob, given later
abbrev pub bob_rule : RuleSnapshot
bob_rule = record {
  id = 2;
  subject_type = "user";
  subject_id = 2;
  object_type = "service";
  object_id = 1;
  action = "deny";
}

abbrev pub office : Index
office = record {
  peer_by_ip = ("10.0.0.2", ann) ∷ ("10.0.0.3", bob) ∷ [];
  user_by_id = (1, ann) ∷ (2, bob) ∷ [];
  service_by_vip = ("10.1.0.5", wiki) ∷ [];
  service_by_id = (1, wiki) ∷ [];
  groups_by_user = (1, 1 ∷ []) ∷ (2, 1 ∷ []) ∷ [];
  groups_by_service = [];
  user_groups = (1, staff) ∷ [];
  rules = staff_rule ∷ bob_rule ∷ [];
}

-- ===== src/Policy/Build/Sample.antt =====
-- A small store for the tests of what is built from it.
use lightscale.Prelude.{
  ◌≡◌, refl, sym, true, false, [], ◌∷◌, String, has, any, eq_of_==, string_eq, nat_eq, arith,
}
use lightscale.Store.{Store, empty_db}
use lightscale.Store.Policies.{valid_subject, assert_exists}
use lightscale.Store.Invariants.Always.{IsValid}

-- a store with one user, one service, and a rule between them
abbrev pub small : Store
small = record {
  db = record empty_db {
    users =
        (record {
          id = 1;
          name = "ann";
          email = "";
          public_key = "pub";
          private_key = "priv";
          preshared_key = "psk";
          ip_address = "10.0.0.2";
          endpoint = "";
          created_at = "t1";
          updated_at = "t1";
        })
        ∷ [];
    users_seq = 1;
    services =
        (record {
          id = 1;
          name = "wiki";
          hostname = "wiki.lan";
          origin = record { kind = "host"; value = ""; network = "" };
          ip_address = "10.1.0.5";
          description = "";
          created_at = "t2";
          updated_at = "t2";
        })
        ∷ [];
    services_seq = 1;
    policy_rules =
        (record {
          id = 1;
          subject_type = "user";
          subject_id = 1;
          object_type = "service";
          object_id = 1;
          action = "allow";
          created_at = "t3";
          updated_at = "t3";
        })
        ∷ [];
    policy_rules_seq = 1;
  };
  notified = [];
}

apart :
    (ip : String)
    → has (λ u. u.ip_address) ip small.db.users ≡ true
    → has (λ t. t.ip_address) ip small.db.services ≡ false
unfolding has any
apart ip h = let p : "10.0.0.2" ≡ ip = eq_of_== "10.0.0.2" ip (ground arith) in rw (sym p) refl

pub small-IsValid : IsValid small.db
unfolding has any valid_subject assert_exists
small-IsValid = record {
  ids = (
    ((refl, tt), (omega arith, tt)),
    (tt, tt),
    ((refl, tt), (omega arith, tt)),
    (tt, tt),
    ((refl, tt), (omega arith, tt)),
    (tt, tt),
  );
  names = (
    ((refl, tt), tt, λ k h. refl),
    ((refl, tt), tt, λ k h. refl),
    ((refl, tt), (refl, tt), apart),
    (refl, tt),
  );
  references = (((refl, refl, refl), tt), tt, tt, tt);
  targets = (refl, tt);
}

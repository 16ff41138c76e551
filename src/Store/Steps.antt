-- ===== src/Store/Steps.antt =====
-- The changes that daemon/store makes to its tables, one statement of SQL each, with what the code
-- has established before it.
pub mod Users
pub mod Groups
pub mod Ports
pub mod Services
pub mod ServiceGroups
pub mod Policies
use lightscale.Prelude.{
  ℕ, ◌+◌, ◌≤◌, ◌≡◌, refl, ◌⊎◌, inl, inr, String, Bool, true, false, ◌&&◌, ◌||◌, not, Option, none,
  some, List, [], ◌∷◌, ◌++◌, any, has, All, ◌==◌, nat_eq, string_eq, keep, update, find_first,
  arith, eq_of_==,
}
use lightscale.Prelude.Result.{Result, ok, err}
use lightscale.Store.{
  User, UserGroup, ServiceRow, ServiceGroup, ServicePort, Member, PolicyRule, Db, Tx, mentions,
  without_rules, changes, or_current,
}
use lightscale.Store.Users.{with_user, without_user, renamed}
use lightscale.Store.Groups.{with_group, without_group, group_renamed, insert_member}
use lightscale.Store.ServiceGroups.{
  with_service_group, without_service_group, service_group_renamed, is_object,
}
use lightscale.Store.Services.{with_service, without_service, service_changed}
use lightscale.Store.Ports.{PortInput, port_of, bad_protocol, bad_port}
use lightscale.Store.Policies.{
  CreatePolicyInput, same_pair, rule_of, set_action, assert_exists, valid_subject, valid_object,
}
use lightscale.Store.Settings.{upsert}

-- the name is one of the row's own table already, or it is free in the other
abbrev pub Held {ℓ κ} :
    {A : Type ℓ} {B : Type κ} → (A → String) → (B → String) → String → List A → List B → Type 0
Held ka kb k xs ys = (has ka k xs ≡ true) ⊎ (has kb k ys ≡ false)

-- no other row has the text
abbrev pub Unshared {ℓ} : {A : Type ℓ} → (A → ℕ) → (A → String) → ℕ → String → List A → Type 0
Unshared id key i k xs = any (λ x. (key x == k) && not (id x == i)) xs ≡ false

pub data Step (db : Db) : Db → Type 0 where
  user_added :
      (u : User)
      → u.id ≡ db.users_seq + 1
      → has (λ v. v.name) u.name db.users ≡ false
      → has (λ g. g.name) u.name db.user_groups ≡ false
      → has (λ v. v.ip_address) u.ip_address db.users ≡ false
      → has (λ s. s.ip_address) u.ip_address db.services ≡ false
      → Step db (with_user u db)
  user_changed :
      (id : ℕ) (to : User)
      → Unshared (λ v. v.id) (λ v. v.name) id to.name db.users
      → Held (λ v. v.name) (λ g. g.name) to.name db.users db.user_groups
      → Step db (record db { users = update (λ v. v.id == id) (renamed to) db.users })
  user_removed :
      (id : ℕ) → any (mentions "user" id) db.policy_rules ≡ false → Step db (without_user id db)
  group_added :
      (g : UserGroup)
      → g.id ≡ db.user_groups_seq + 1
      → has (λ h. h.name) g.name db.user_groups ≡ false
      → has (λ u. u.name) g.name db.users ≡ false
      → Step db (with_group g db)
  group_changed :
      (id : ℕ) (to : UserGroup)
      → Unshared (λ g. g.id) (λ g. g.name) id to.name db.user_groups
      → Held (λ g. g.name) (λ u. u.name) to.name db.user_groups db.users
      → Step db
          (record db { user_groups = update (λ g. g.id == id) (group_renamed to) db.user_groups })
  group_removed :
      (id : ℕ)
      → any (mentions "user_group" id) db.policy_rules ≡ false
      → Step db (without_group id db)
  service_added :
      (s : ServiceRow)
      → s.id ≡ db.services_seq + 1
      → has (λ t. t.name) s.name db.services ≡ false
      → has (λ g. g.name) s.name db.service_groups ≡ false
      → has (λ t. t.hostname) s.hostname db.services ≡ false
      → has (λ t. t.ip_address) s.ip_address db.services ≡ false
      → has (λ u. u.ip_address) s.ip_address db.users ≡ false
      → Step db (with_service s db)
  service_updated :
      (id : ℕ) (to : ServiceRow)
      → Unshared (λ t. t.id) (λ t. t.name) id to.name db.services
      → Unshared (λ t. t.id) (λ t. t.hostname) id to.hostname db.services
      → Unshared (λ t. t.id) (λ t. t.ip_address) id to.ip_address db.services
      → Held (λ t. t.name) (λ g. g.name) to.name db.services db.service_groups
      → Held (λ t. t.ip_address) (λ u. u.ip_address) to.ip_address db.services db.users
      → Step db (record db { services = update (λ t. t.id == id) (service_changed to) db.services })
  service_removed :
      (id : ℕ)
      → any (is_object "service" id) db.policy_rules ≡ false
      → Step db (without_service id db)
  service_group_added :
      (g : ServiceGroup)
      → g.id ≡ db.service_groups_seq + 1
      → has (λ h. h.name) g.name db.service_groups ≡ false
      → has (λ t. t.name) g.name db.services ≡ false
      → Step db (with_service_group g db)
  service_group_changed :
      (id : ℕ) (to : ServiceGroup)
      → Unshared (λ g. g.id) (λ g. g.name) id to.name db.service_groups
      → Held (λ g. g.name) (λ t. t.name) to.name db.service_groups db.services
      → Step db (record db {
        service_groups = update (λ g. g.id == id) (service_group_renamed to) db.service_groups;
      })
  service_group_removed :
      (id : ℕ)
      → any (is_object "service_group" id) db.policy_rules ≡ false
      → Step db (without_service_group id db)
  user_joined :
      (user_id group_id : ℕ)
      → has (λ u. u.id) user_id db.users ≡ true
      → has (λ g. g.id) group_id db.user_groups ≡ true
      → Step db
          (record db { user_group_members = insert_member user_id group_id db.user_group_members })
  users_left :
      (p : Member → Bool)
      → Step db (record db { user_group_members = keep p db.user_group_members })
  service_joined :
      (service_id group_id : ℕ)
      → has (λ s. s.id) service_id db.services ≡ true
      → has (λ g. g.id) group_id db.service_groups ≡ true
      → Step db (record db {
        service_group_members = insert_member service_id group_id db.service_group_members;
      })
  services_left :
      (p : Member → Bool)
      → Step db (record db { service_group_members = keep p db.service_group_members })
  rules_dropped : (p : PolicyRule → Bool) → Step db (without_rules p db)
  rule_added :
      (input : CreatePolicyInput) (now : String)
      → valid_subject input.subject_type ≡ true
      → assert_exists input.subject_type input.subject_id db ≡ ok tt
      → assert_exists input.object_type input.object_id db ≡ ok tt
      → any (same_pair input) db.policy_rules ≡ false
      → Step db (record db {
        policy_rules = db.policy_rules ++ rule_of input (db.policy_rules_seq + 1) now now ∷ [];
        policy_rules_seq = db.policy_rules_seq + 1;
      })
  rule_set :
      (id : ℕ) (action now : String)
      → Step db (record db {
        policy_rules = update (λ r. r.id == id) (set_action action now) db.policy_rules;
      })
  ports_cleared :
      (id : ℕ)
      → Step db
          (record db { service_ports = keep (λ p. not (p.service_id == id)) db.service_ports })
  port_added :
      (id : ℕ) (p : PortInput)
      → has (λ s. s.id) id db.services ≡ true
      → bad_protocol p ≡ false
      → bad_port p ≡ false
      → any
          (λ r. (r.service_id == id) && (r.port == p.port) && (r.protocol == p.protocol))
          db.service_ports
        ≡ false
      → Step db (record db {
        service_ports = db.service_ports ++ port_of id p (db.service_ports_seq + 1) ∷ [];
        service_ports_seq = db.service_ports_seq + 1;
      })
  setting_set :
      (key value : String) → Step db (record db { settings = upsert key value db.settings })

-- some changes, one after the other
pub data Steps (db : Db) : Db → Type 0 where
  done : Steps db db
  and_then : {db' : Db} {db'' : Db} → Steps db db' → Step db' db'' → Steps db db''

-- the outcomes that some changes lead to
abbrev pub Reached : Db → {A : Type 0} → A → Db → Type 0
Reached db a db' = Steps db db'

pub Steps-induction :
    (P : Db → Type 0)
    → ((db db' : Db) → Step db db' → P db → P db')
    → (db : Db) (db' : Db) → Steps db db'
    → P db
    → P db'
Steps-induction P keeps db db' done h = h
Steps-induction P keeps db db' (and_then {db' = mid} steps s) h =
    keeps mid db' s (Steps-induction P keeps db mid steps h)

-- The name of an update is the row's own, or one that was checked against the other table.
pub held :
    {A : Type 0} {B : Type 0} (ka : A → String) (kb : B → String) (xs : List A) (ys : List B)
    (name : Option String) (current : String)
    → has ka current xs ≡ true
    → (changes name current ≡ false) ⊎ (has kb (or_current name "") ys ≡ false)
    → Held ka kb (or_current name current) xs ys
held ka kb xs ys none current own checked = inl own
held ka kb xs ys (some name) current own (inl e) =
    let p : name ≡ current = eq_of_== name current (ground arith) in inl (rw p own)
held ka kb xs ys (some name) current own (inr free) = inr free

-- ===== src/Store.antt =====
-- daemon/store/store.go and the schema of daemon/store/migrations: the tables, transactions on them,
-- and the notification of listeners.
-- A table is the list of its rows in the order of their ids. SQLite gives ids from 1 on and, by
-- AUTOINCREMENT, never a second time: `…_seq` is the last one given. NULL is stored for an empty
-- optional text and read back as empty, so the model keeps the text. What SQLite refuses by a UNIQUE,
-- CHECK or REFERENCES clause is the error `constraint`; failures of the disk are not modelled.
pub mod Checks
pub mod Users
pub mod Groups
pub mod ServiceGroups
pub mod Ports
pub mod Services
pub mod ServiceMembers
pub mod Outcomes
pub mod Steps
pub mod Commands
pub mod Invariants
pub mod HostPorts
mod Tests
pub mod Policies
pub mod Settings
use lightscale.Prelude.{
  ℕ, zero, suc, ◌+◌, String, Bool, true, false, not, ◌&&◌, ◌||◌, Option, none, some, List, [], ◌∷◌,
  ◌++◌, if◌then◌else◌, ◌==◌, nat_eq, string_eq, keep,
}
use lightscale.Prelude.Result.{Result, ok, err}
use lightscale.Origin.{Spec}

-- users.go
pub record User : Type 0 where
  pub id : ℕ
  pub name : String
  pub email : String
  pub public_key : String
  pub private_key : String
  pub preshared_key : String
  pub ip_address : String
  pub endpoint : String
  pub created_at : String
  pub updated_at : String

-- groups.go
pub record UserGroup : Type 0 where
  pub id : ℕ
  pub name : String
  pub lan_mode : Bool
  pub created_at : String
  pub updated_at : String

pub record ServiceGroup : Type 0 where
  pub id : ℕ
  pub name : String
  pub created_at : String
  pub updated_at : String

-- a row of user_group_members or of service_group_members
pub record Member : Type 0 where
  pub member_id : ℕ
  pub group_id : ℕ

-- services.go: a row of the table, without its ports
pub record ServiceRow : Type 0 where
  pub id : ℕ
  pub name : String
  pub hostname : String
  pub origin : Spec
  pub ip_address : String
  pub description : String
  pub created_at : String
  pub updated_at : String

pub record ServicePort : Type 0 where
  pub id : ℕ
  pub service_id : ℕ
  pub port : ℕ
  pub protocol : String

-- policies.go
pub record PolicyRule : Type 0 where
  pub id : ℕ
  pub subject_type : String
  pub subject_id : ℕ
  pub object_type : String
  pub object_id : ℕ
  pub action : String
  pub created_at : String
  pub updated_at : String

-- settings.go
pub record Setting : Type 0 where
  pub key : String
  pub value : String

pub record Db : Type 0 where
  pub users : List User
  pub users_seq : ℕ
  pub user_groups : List UserGroup
  pub user_groups_seq : ℕ
  pub user_group_members : List Member
  pub services : List ServiceRow
  pub services_seq : ℕ
  pub service_ports : List ServicePort
  pub service_ports_seq : ℕ
  pub service_groups : List ServiceGroup
  pub service_groups_seq : ℕ
  pub service_group_members : List Member
  pub policy_rules : List PolicyRule
  pub policy_rules_seq : ℕ
  pub settings : List Setting

abbrev pub empty_db : Db
empty_db = record {
  users = [];
  users_seq = 0;
  user_groups = [];
  user_groups_seq = 0;
  user_group_members = [];
  services = [];
  services_seq = 0;
  service_ports = [];
  service_ports_seq = 0;
  service_groups = [];
  service_groups_seq = 0;
  service_group_members = [];
  policy_rules = [];
  policy_rules_seq = 0;
  settings = [];
}

-- ErrNotFound to ErrInvalidInput, and what SQLite refuses
pub data Error : Type 0 where
  not_found name_taken ip_in_use port_conflict invalid_input constraint : Error

pub data ChangeKind : Type 0 where
  users user_groups services service_groups policies membership settings : ChangeKind

-- The body of a transaction: what it wrote before an error is still there when it returns.
abbrev pub Tx : Type 0 → Type 0
Tx A = Db → Result Error A × Db

module _ {A : Type 0} where
  abbrev pub pure : A → Tx A
  pure a db = (ok a, db)

  abbrev pub fail : Error → Tx A
  fail e db = (err e, db)

  -- a query, which writes nothing
  abbrev pub query : (Db → Result Error A) → Tx A
  query q db = (q db, db)

abbrev pub continue : {A B : Type 0} → Result Error A → (A → Tx B) → Tx B
continue (ok a) f db = f a db
continue (err e) f db = (err e, db)

infixl 5 ◌>>=◌ ◌>>◌
abbrev pub ◌>>=◌ : {A B : Type 0} → Tx A → (A → Tx B) → Tx B
◌>>=◌ m f db = let (r, db') = m db in continue r f db'

abbrev pub ◌>>◌ : {A B : Type 0} → Tx A → Tx B → Tx B
m >> k = m >>= λ _. k

abbrev pub exec : (Db → Db) → Tx (Unit {0})
exec f db = (ok tt, f db)

-- `notified` records the calls of the listeners, the last one at the end.
pub record Store : Type 0 where
  pub db : Db
  pub notified : List ChangeKind

abbrev pub new_store : Store
new_store = record { db = empty_db; notified = [] }

-- `withTx` at a kind that is not empty: commit and notify, or roll back.
unfoldable pub settle :
    {A : Type 0} → Store → ChangeKind → Result Error A × Db → Result Error A × Store
settle s kind (ok a, db) = (ok a, record { db = db; notified = s.notified ++ kind ∷ [] })
settle s kind (err e, _) = (err e, s)

unfoldable pub with_tx : {A : Type 0} → ChangeKind → Tx A → Store → Result Error A × Store
unfolding settle
with_tx kind fn s = settle s kind (fn s.db)

-- A field of an update request: `none` leaves the column alone.
abbrev pub or_current : {A : Type 0} → Option A → A → A
or_current none a = a
or_current (some b) a = b

abbrev pub changes : Option String → String → Bool
changes none current = false
changes (some name) current = not (name == current)

-- Does the rule name the entity?
abbrev pub mentions : String → ℕ → PolicyRule → Bool
mentions type id r =
    ((r.subject_type == type) && (r.subject_id == id))
    || ((r.object_type == type) && (r.object_id == id))

-- `DELETE FROM policy_rules WHERE …`
abbrev pub without_rules : (PolicyRule → Bool) → Db → Db
without_rules p db = record db { policy_rules = keep (λ r. not (p r)) db.policy_rules }

-- ===== src/Store/Checks.antt =====
-- The checks that several operations of daemon/store share: namespace.go, checkIPAvailable of
-- users.go and checkHostnameAvailable of services.go.
pub mod Free
use lightscale.Prelude.{
  ℕ, String, Bool, true, false, ◌&&◌, not, Option, none, some, List, [], ◌∷◌, any, ◌==◌, nat_eq,
  string_eq, if◌then◌else◌, find_first,
}
use lightscale.Prelude.Result.{Result, ok, err}
use lightscale.Store.{
  User, UserGroup, ServiceRow, ServiceGroup, Db, Error, name_taken, ip_in_use, Tx, pure, fail,
  query, ◌>>=◌, ◌>>◌,
}

pub data Namespace : Type 0 where
  principal object : Namespace

-- the tables with names
pub data Table : Type 0 where
  users user_groups services service_groups : Table

pub namespace_tables : Namespace → List Table
namespace_tables principal = users ∷ user_groups ∷ []
namespace_tables object = services ∷ service_groups ∷ []

abbrev pub same_table : Option Table → Table → Bool
same_table (some users) users = true
same_table (some user_groups) user_groups = true
same_table (some services) services = true
same_table (some service_groups) service_groups = true
same_table _ _ = false

abbrev ids : {A : Type 0} → (A → ℕ) → Option A → Option ℕ
ids id none = none
ids id (some row) = some (id row)

-- `SELECT id FROM … WHERE name = ?`
pub id_by_name : Db → Table → String → Option ℕ
id_by_name db users name = ids (λ u. u.id) (find_first (λ u. u.name == name) db.users)
id_by_name db user_groups name = ids (λ g. g.id) (find_first (λ g. g.name == name) db.user_groups)
id_by_name db services name = ids (λ s. s.id) (find_first (λ s. s.name == name) db.services)
id_by_name db service_groups name =
    ids (λ g. g.id) (find_first (λ g. g.name == name) db.service_groups)

-- `excludeTable` is `none` for the empty text.
free_in : Option Table → ℕ → Table → Option ℕ → Bool
free_in exclude_table exclude_id table none = true
free_in exclude_table exclude_id table (some id) =
    same_table exclude_table table && (id == exclude_id)

-- the loop of `checkNameAvailable`
pub name_check : Db → List Table → String → Option Table → ℕ → Result Error (Unit {0})
unfolding id_by_name free_in
name_check db [] name exclude_table exclude_id = ok tt
name_check db (table ∷ tables) name exclude_table exclude_id =
    let rest = name_check db tables name exclude_table exclude_id in
    if free_in exclude_table exclude_id table (id_by_name db table name)
    then rest
    else err name_taken

unfoldable pub check_name_available : Namespace → String → Option Table → ℕ → Tx (Unit {0})
unfolding namespace_tables name_check
check_name_available ns name exclude_table exclude_id =
    query (λ db. name_check db (namespace_tables ns) name exclude_table exclude_id)

-- `SELECT id FROM … WHERE ip_address=?`
id_by_ip : Db → Table → String → Option ℕ
id_by_ip db users ip = ids (λ u. u.id) (find_first (λ u. u.ip_address == ip) db.users)
id_by_ip db services ip = ids (λ s. s.id) (find_first (λ s. s.ip_address == ip) db.services)
id_by_ip db _ ip = none

pub ip_check : Db → List Table → String → Option Table → ℕ → Result Error (Unit {0})
unfolding id_by_ip free_in
ip_check db [] ip exclude_table exclude_id = ok tt
ip_check db (table ∷ tables) ip exclude_table exclude_id =
    let rest = ip_check db tables ip exclude_table exclude_id in
    if free_in exclude_table exclude_id table (id_by_ip db table ip) then rest else err ip_in_use

unfoldable pub check_ip_available : String → Option Table → ℕ → Tx (Unit {0})
unfolding ip_check
check_ip_available ip exclude_table exclude_id =
    query (λ db. ip_check db (users ∷ services ∷ []) ip exclude_table exclude_id)

unfoldable pub hostname_check : Db → String → ℕ → Result Error (Unit {0})
hostname_check db hostname exclude_id =
    elim (ids (λ s. s.id) (find_first (λ s. s.hostname == hostname) db.services)) [
      | none ↦ ok tt
      | some id ↦ if id == exclude_id then ok tt else err name_taken
    ]

-- `excludeID` is 0, which is no row's id, when a service is created.
unfoldable pub check_hostname_available : String → ℕ → Tx (Unit {0})
unfolding hostname_check
check_hostname_available hostname exclude_id = query (λ db. hostname_check db hostname exclude_id)

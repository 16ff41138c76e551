-- ===== src/Store/Services.antt =====
-- daemon/store/services.go. `now` is the time stamp that `nowTimestamp` returns.
use lightscale.Prelude.{
  ℕ, ◌+◌, String, ◌&&◌, ◌||◌, not, Option, none, some, List, [], ◌∷◌, ◌++◌, map, any, ◌==◌, nat_eq,
  string_eq, if◌then◌else◌, find_first, keep, update,
}
use lightscale.Prelude.Result.{Result, ok, err}
use lightscale.Origin.{Spec, validate}
use lightscale.Store.{
  ServiceRow, ServicePort, Db, Store, Error, not_found, invalid_input, ChangeKind, Tx, pure, fail,
  query, exec, with_tx, ◌>>=◌, ◌>>◌, or_current, changes, without_rules,
}
use lightscale.Store.Checks.{
  object, Table, check_name_available, check_ip_available, check_hostname_available,
}
use lightscale.Store.ServiceGroups.{is_object}
use lightscale.Store.Ports.{PortInput, load_service_ports, replace_service_ports}

-- The source's `Service`: the columns of the row, and the ports.
pub record Service : Type 0 where
  pub row : ServiceRow
  pub ports : List ServicePort

pub record CreateServiceInput : Type 0 where
  pub name : String
  pub hostname : String
  pub origin : Spec
  pub ip_address : String
  pub description : String
  pub ports : List PortInput

abbrev pub with_ports : Db → ServiceRow → Service
with_ports db row = record { row = row; ports = load_service_ports row.id db }

-- `serviceByID` and `GetService`
unfoldable pub service_by_id : ℕ → Db → Result Error Service
service_by_id id db = elim (find_first (λ s. s.id == id) db.services) [
  | none ↦ err not_found
  | some row ↦ ok (with_ports db row)
]

abbrev pub service_of : CreateServiceInput → Spec → String → ℕ → ServiceRow
service_of input spec now id = record {
  id = id;
  name = input.name;
  hostname = input.hostname;
  origin = spec;
  ip_address = input.ip_address;
  description = input.description;
  created_at = now;
  updated_at = now;
}

abbrev pub with_service : ServiceRow → Db → Db
with_service s db = record db { services = db.services ++ s ∷ []; services_seq = s.id }

-- `INSERT INTO services`, with the UNIQUE clauses on the name, the host name and the address
unfoldable pub insert_service : CreateServiceInput → Spec → String → Tx ServiceRow
insert_service input spec now db =
    let s = service_of input spec now (db.services_seq + 1) in
    if any (λ t. t.name == s.name) db.services
      || any (λ t. t.hostname == s.hostname) db.services
      || any (λ t. t.ip_address == s.ip_address) db.services
    then fail Error.constraint db
    else pure s (with_service s db)

unfoldable pub create_service_tx : CreateServiceInput → Spec → String → Tx Service
create_service_tx input spec now = do
  check_name_available object input.name none 0
  check_ip_available input.ip_address none 0
  check_hostname_available input.hostname 0
  row ← insert_service input spec now
  ports ← replace_service_ports row.id input.ports
  pure (record { row = row; ports = ports })

unfoldable pub create_service : CreateServiceInput → String → Store → Result Error Service × Store
unfolding create_service_tx
create_service input now s =
    if (input.name == "") || (input.hostname == "") || (input.ip_address == "")
    then (err invalid_input, s)
    else elim (validate input.origin) [
      | err _ ↦ (err invalid_input, s)
      | ok spec ↦ with_tx ChangeKind.services (create_service_tx input spec now) s
    ]

unfoldable pub get_service : Store → ℕ → Result Error Service
get_service s id = service_by_id id s.db

unfoldable pub get_service_by_name : Store → String → Result Error Service
get_service_by_name s name = elim (find_first (λ t. t.name == name) s.db.services) [
  | none ↦ err not_found
  | some row ↦ ok (with_ports s.db row)
]

unfoldable pub list_services : Store → List Service
list_services s = map (with_ports s.db) s.db.services

-- the keys of the map
unfoldable pub taken_service_ips : Store → List String
taken_service_ips s = map (λ t. t.ip_address) s.db.services

-- `ports` is `none` where the source's ReplacePorts is false.
pub record UpdateServiceInput : Type 0 where
  pub name : Option String
  pub hostname : Option String
  pub origin : Option Spec
  pub ip_address : Option String
  pub description : Option String
  pub ports : Option (List PortInput)

abbrev pub service_changed : ServiceRow → ServiceRow → ServiceRow
service_changed to s = record s {
  name = to.name;
  hostname = to.hostname;
  origin = to.origin;
  ip_address = to.ip_address;
  description = to.description;
  updated_at = to.updated_at;
}

-- `UPDATE services SET … WHERE id=?`
unfoldable pub write_service : ℕ → ServiceRow → Tx (Unit {0})
write_service id to db =
    if any (λ t. (t.name == to.name) && not (t.id == id)) db.services
      || any (λ t. (t.hostname == to.hostname) && not (t.id == id)) db.services
      || any (λ t. (t.ip_address == to.ip_address) && not (t.id == id)) db.services
    then fail Error.constraint db
    else pure tt
        (record db { services = update (λ t. t.id == id) (service_changed to) db.services })

unfoldable pub new_origin : Option Spec → Spec → Result Error Spec
new_origin none current = ok current
new_origin (some spec) current = elim (validate spec) [
  | err _ ↦ err invalid_input
  | ok spec' ↦ ok spec'
]

unfoldable pub new_ports : Option (List PortInput) → ℕ → Tx (List ServicePort)
new_ports none id = query (λ db. ok (load_service_ports id db))
new_ports (some ports) id = replace_service_ports id ports

unfoldable pub update_service_tx : ℕ → UpdateServiceInput → String → Tx Service
unfolding new_ports
update_service_tx id input now = do
  current ← query (service_by_id id)
  (if changes input.name current.row.name
      then check_name_available object (or_current input.name "") (some Table.services) id
      else pure tt)
  (if changes input.hostname current.row.hostname
      then check_hostname_available (or_current input.hostname "") id
      else pure tt)
  spec ← query (λ _. new_origin input.origin current.row.origin)
  (if changes input.ip_address current.row.ip_address
      then check_ip_available (or_current input.ip_address "") (some Table.services) id
      else pure tt)
  let to = record current.row {
    name = or_current input.name current.row.name;
    hostname = or_current input.hostname current.row.hostname;
    origin = spec;
    ip_address = or_current input.ip_address current.row.ip_address;
    description = or_current input.description current.row.description;
    updated_at = now;
  }
  write_service id to
  ports ← new_ports input.ports id
  pure (record { row = to; ports = ports })

unfoldable pub update_service :
    ℕ → UpdateServiceInput → String → Store → Result Error Service × Store
unfolding update_service_tx
update_service id input now s = with_tx ChangeKind.services (update_service_tx id input now) s

-- `DELETE FROM services WHERE id=?`, with the ON DELETE CASCADE of service_ports and
-- service_group_members
abbrev pub without_service : ℕ → Db → Db
without_service id db = record db {
  services = keep (λ s. not (s.id == id)) db.services;
  service_ports = keep (λ p. not (p.service_id == id)) db.service_ports;
  service_group_members = keep (λ m. not (m.member_id == id)) db.service_group_members;
}

unfoldable pub delete_service_tx : ℕ → Tx (Unit {0})
delete_service_tx id = do
  _ ← query (service_by_id id)
  exec (without_rules (is_object "service" id))
  exec (without_service id)

unfoldable pub delete_service : ℕ → Store → Result Error (Unit {0}) × Store
unfolding delete_service_tx
delete_service id s = with_tx ChangeKind.services (delete_service_tx id) s

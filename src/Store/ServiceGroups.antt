-- ===== src/Store/ServiceGroups.antt =====
-- daemon/store/groups.go: service groups.
use lightscale.Prelude.{
  ℕ, ◌+◌, String, Bool, ◌&&◌, not, Option, none, some, List, [], ◌∷◌, ◌++◌, any, ◌==◌, nat_eq,
  string_eq, if◌then◌else◌, find_first, keep, update,
}
use lightscale.Prelude.Result.{Result, ok, err}
use lightscale.Store.{
  ServiceGroup, PolicyRule, Db, Store, Error, not_found, invalid_input, ChangeKind, Tx, pure, fail,
  query, exec, with_tx, ◌>>=◌, ◌>>◌, or_current, changes, without_rules,
}
use lightscale.Store.Checks.{object, Table, check_name_available}

abbrev pub service_group_of : String → String → ℕ → ServiceGroup
service_group_of name now id = record { id = id; name = name; created_at = now; updated_at = now }

abbrev pub with_service_group : ServiceGroup → Db → Db
with_service_group g db = record db {
  service_groups = db.service_groups ++ g ∷ [];
  service_groups_seq = g.id;
}

unfoldable pub insert_service_group : String → String → Tx ServiceGroup
insert_service_group name now db =
    let g = service_group_of name now (db.service_groups_seq + 1) in
    if any (λ v. v.name == name) db.service_groups
    then fail Error.constraint db
    else pure g (with_service_group g db)

unfoldable pub create_service_group_tx : String → String → Tx ServiceGroup
create_service_group_tx name now = do
  check_name_available object name none 0
  insert_service_group name now

unfoldable pub create_service_group : String → String → Store → Result Error ServiceGroup × Store
unfolding create_service_group_tx
create_service_group name now s =
    if name == ""
    then (err invalid_input, s)
    else with_tx ChangeKind.service_groups (create_service_group_tx name now) s

-- `serviceGroupByID` and `GetServiceGroup`
unfoldable pub service_group_by_id : ℕ → Db → Result Error ServiceGroup
service_group_by_id id db = elim (find_first (λ g. g.id == id) db.service_groups) [
  | none ↦ err not_found
  | some g ↦ ok g
]

unfoldable pub get_service_group : Store → ℕ → Result Error ServiceGroup
get_service_group s id = service_group_by_id id s.db

unfoldable pub get_service_group_by_name : Store → String → Result Error ServiceGroup
get_service_group_by_name s name = elim (find_first (λ g. g.name == name) s.db.service_groups) [
  | none ↦ err not_found
  | some g ↦ ok g
]

unfoldable pub list_service_groups : Store → List ServiceGroup
list_service_groups s = s.db.service_groups

abbrev pub service_group_renamed : ServiceGroup → ServiceGroup → ServiceGroup
service_group_renamed to g = record g { name = to.name; updated_at = to.updated_at }

-- `UPDATE service_groups SET name=?, updated_at=? WHERE id=?`
unfoldable pub write_service_group : ℕ → ServiceGroup → Tx (Unit {0})
write_service_group id to db =
    if any (λ v. (v.name == to.name) && not (v.id == id)) db.service_groups
    then fail Error.constraint db
    else pure tt (record db {
      service_groups = update (λ v. v.id == id) (service_group_renamed to) db.service_groups;
    })

unfoldable pub update_service_group_tx : ℕ → Option String → String → Tx ServiceGroup
update_service_group_tx id name now = do
  current ← query (service_group_by_id id)
  (if changes name current.name
      then check_name_available object (or_current name "") (some Table.service_groups) id
      else pure tt)
  let to = record current { name = or_current name current.name; updated_at = now }
  write_service_group id to
  pure to

unfoldable pub update_service_group :
    ℕ → Option String → String → Store → Result Error ServiceGroup × Store
unfolding update_service_group_tx
update_service_group id name now s =
    with_tx ChangeKind.service_groups (update_service_group_tx id name now) s

abbrev pub is_object : String → ℕ → PolicyRule → Bool
is_object type id r = (r.object_type == type) && (r.object_id == id)

abbrev pub without_service_group : ℕ → Db → Db
without_service_group id db = record db {
  service_groups = keep (λ g. not (g.id == id)) db.service_groups;
  service_group_members = keep (λ m. not (m.group_id == id)) db.service_group_members;
}

unfoldable pub delete_service_group_tx : ℕ → Tx (Unit {0})
delete_service_group_tx id = do
  _ ← query (service_group_by_id id)
  exec (without_rules (is_object "service_group" id))
  exec (without_service_group id)

unfoldable pub delete_service_group : ℕ → Store → Result Error (Unit {0}) × Store
unfolding delete_service_group_tx
delete_service_group id s = with_tx ChangeKind.service_groups (delete_service_group_tx id) s

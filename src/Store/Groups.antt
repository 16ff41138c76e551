-- ===== src/Store/Groups.antt =====
-- daemon/store/groups.go: user groups and their members.
use lightscale.Prelude.{
  ℕ, ◌+◌, String, Bool, ◌&&◌, not, Option, none, some, List, [], ◌∷◌, ◌++◌, map, any, ◌==◌, nat_eq,
  string_eq, if◌then◌else◌, find_first, keep, update,
}
use lightscale.Prelude.Result.{Result, ok, err}
use lightscale.Store.{
  User, UserGroup, Member, Db, Store, Error, not_found, invalid_input, ChangeKind, Tx, pure, fail,
  query, exec, with_tx, ◌>>=◌, ◌>>◌, or_current, changes, mentions, without_rules,
}
use lightscale.Store.Checks.{principal, Table, check_name_available}
use lightscale.Store.Users.{user_by_id}

abbrev pub group_of : String → Bool → String → ℕ → UserGroup
group_of name lan_mode now id = record {
  id = id;
  name = name;
  lan_mode = lan_mode;
  created_at = now;
  updated_at = now;
}

abbrev pub with_group : UserGroup → Db → Db
with_group g db = record db { user_groups = db.user_groups ++ g ∷ []; user_groups_seq = g.id }

-- `INSERT INTO user_groups`, with the UNIQUE clause on the name
unfoldable pub insert_group : String → Bool → String → Tx UserGroup
insert_group name lan_mode now db =
    let g = group_of name lan_mode now (db.user_groups_seq + 1) in
    if any (λ v. v.name == name) db.user_groups
    then fail Error.constraint db
    else pure g (with_group g db)

unfoldable pub create_user_group_tx : String → Bool → String → Tx UserGroup
create_user_group_tx name lan_mode now = do
  check_name_available principal name none 0
  insert_group name lan_mode now

unfoldable pub create_user_group : String → Bool → String → Store → Result Error UserGroup × Store
unfolding create_user_group_tx
create_user_group name lan_mode now s =
    if name == ""
    then (err invalid_input, s)
    else with_tx ChangeKind.user_groups (create_user_group_tx name lan_mode now) s

-- `userGroupByID` and `GetUserGroup`
unfoldable pub user_group_by_id : ℕ → Db → Result Error UserGroup
user_group_by_id id db = elim (find_first (λ g. g.id == id) db.user_groups) [
  | none ↦ err not_found
  | some g ↦ ok g
]

unfoldable pub get_user_group : Store → ℕ → Result Error UserGroup
get_user_group s id = user_group_by_id id s.db

unfoldable pub get_user_group_by_name : Store → String → Result Error UserGroup
get_user_group_by_name s name = elim (find_first (λ g. g.name == name) s.db.user_groups) [
  | none ↦ err not_found
  | some g ↦ ok g
]

unfoldable pub list_user_groups : Store → List UserGroup
list_user_groups s = s.db.user_groups

pub record UpdateUserGroupInput : Type 0 where
  pub name : Option String
  pub lan_mode : Option Bool

abbrev pub group_renamed : UserGroup → UserGroup → UserGroup
group_renamed to g = record g { name = to.name; lan_mode = to.lan_mode; updated_at = to.updated_at }

-- `UPDATE user_groups SET name=?, lan_mode=?, updated_at=? WHERE id=?`
unfoldable pub write_group : ℕ → UserGroup → Tx (Unit {0})
write_group id to db =
    if any (λ v. (v.name == to.name) && not (v.id == id)) db.user_groups
    then fail Error.constraint db
    else pure tt
        (record db { user_groups = update (λ v. v.id == id) (group_renamed to) db.user_groups })

unfoldable pub update_user_group_tx : ℕ → UpdateUserGroupInput → String → Tx UserGroup
update_user_group_tx id input now = do
  current ← query (user_group_by_id id)
  (if changes input.name current.name
      then check_name_available principal (or_current input.name "") (some Table.user_groups) id
      else pure tt)
  let to = record current {
    name = or_current input.name current.name;
    lan_mode = or_current input.lan_mode current.lan_mode;
    updated_at = now;
  }
  write_group id to
  pure to

unfoldable pub update_user_group :
    ℕ → UpdateUserGroupInput → String → Store → Result Error UserGroup × Store
unfolding update_user_group_tx
update_user_group id input now s =
    with_tx ChangeKind.user_groups (update_user_group_tx id input now) s

-- `DELETE FROM user_groups WHERE id=?`, with the ON DELETE CASCADE of user_group_members
abbrev pub without_group : ℕ → Db → Db
without_group id db = record db {
  user_groups = keep (λ g. not (g.id == id)) db.user_groups;
  user_group_members = keep (λ m. not (m.group_id == id)) db.user_group_members;
}

unfoldable pub delete_user_group_tx : ℕ → Tx (Unit {0})
delete_user_group_tx id = do
  _ ← query (user_group_by_id id)
  exec (without_rules (mentions "user_group" id))
  exec (without_group id)

unfoldable pub delete_user_group : ℕ → Store → Result Error (Unit {0}) × Store
unfolding delete_user_group_tx
delete_user_group id s = with_tx ChangeKind.user_groups (delete_user_group_tx id) s

abbrev pub is_member : ℕ → ℕ → Member → Bool
is_member member_id group_id m = (m.member_id == member_id) && (m.group_id == group_id)

-- `INSERT OR IGNORE` into a table of members
abbrev pub insert_member : ℕ → ℕ → List Member → List Member
insert_member member_id group_id ms =
    if any (is_member member_id group_id) ms
    then ms
    else ms ++ (record { member_id = member_id; group_id = group_id }) ∷ []

unfoldable pub add_user_tx : ℕ → ℕ → Tx (Unit {0})
add_user_tx group_id user_id = do
  _ ← query (user_group_by_id group_id)
  _ ← query (user_by_id user_id)
  exec (λ db. record db {
    user_group_members = insert_member user_id group_id db.user_group_members;
  })

unfoldable pub add_user_to_group : ℕ → ℕ → Store → Result Error (Unit {0}) × Store
unfolding add_user_tx
add_user_to_group group_id user_id s =
    with_tx ChangeKind.membership (add_user_tx group_id user_id) s

unfoldable pub remove_user_from_group : ℕ → ℕ → Store → Result Error (Unit {0}) × Store
remove_user_from_group group_id user_id s =
    with_tx ChangeKind.membership
      (exec (λ db. record db {
        user_group_members = keep (λ m. not (is_member user_id group_id m)) db.user_group_members;
      }))
      s

-- `WHERE id IN (SELECT user_id … WHERE group_id=?) ORDER BY id`
unfoldable pub user_group_members : Store → ℕ → List User
user_group_members s group_id =
    keep (λ u. any (is_member u.id group_id) s.db.user_group_members) s.db.users

unfoldable pub user_group_ids_for_user : Store → ℕ → List ℕ
user_group_ids_for_user s user_id =
    map (λ m. m.group_id) (keep (λ m. m.member_id == user_id) s.db.user_group_members)

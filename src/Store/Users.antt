-- ===== src/Store/Users.antt =====
-- daemon/store/users.go. `now` is the time stamp that `nowTimestamp` returns.
use lightscale.Prelude.{
  ℕ, ◌+◌, String, Bool, ◌&&◌, ◌||◌, not, Option, none, some, List, [], ◌∷◌, ◌++◌, map, any, ◌==◌,
  nat_eq, string_eq, if◌then◌else◌, find_first, keep, update,
}
use lightscale.Prelude.Result.{Result, ok, err}
use lightscale.Store.{
  User, Db, Store, Error, not_found, invalid_input, ChangeKind, Tx, pure, fail, query, exec,
  with_tx, ◌>>=◌, ◌>>◌, or_current, changes, mentions, without_rules,
}
use lightscale.Store.Checks.{principal, Table, check_name_available, check_ip_available}

pub record CreateUserInput : Type 0 where
  pub name : String
  pub email : String
  pub public_key : String
  pub private_key : String
  pub preshared_key : String
  pub ip_address : String
  pub endpoint : String

abbrev pub user_of : CreateUserInput → String → ℕ → User
user_of input now id = record {
  id = id;
  name = input.name;
  email = input.email;
  public_key = input.public_key;
  private_key = input.private_key;
  preshared_key = input.preshared_key;
  ip_address = input.ip_address;
  endpoint = input.endpoint;
  created_at = now;
  updated_at = now;
}

abbrev pub with_user : User → Db → Db
with_user u db = record db { users = db.users ++ u ∷ []; users_seq = u.id }

-- `INSERT INTO users`, with the UNIQUE clauses on the name and the address
unfoldable pub insert_user : CreateUserInput → String → Tx User
insert_user input now db =
    let u = user_of input now (db.users_seq + 1) in
    if any (λ v. v.name == u.name) db.users || any (λ v. v.ip_address == u.ip_address) db.users
    then fail Error.constraint db
    else pure u (with_user u db)

unfoldable pub create_user_tx : CreateUserInput → String → Tx User
create_user_tx input now = do
  check_name_available principal input.name none 0
  check_ip_available input.ip_address none 0
  insert_user input now

abbrev pub incomplete : CreateUserInput → Bool
incomplete input =
    (input.name == "")
    || (input.public_key == "")
    || (input.private_key == "")
    || (input.preshared_key == "")
    || (input.ip_address == "")

unfoldable pub create_user : CreateUserInput → String → Store → Result Error User × Store
unfolding create_user_tx
create_user input now s =
    if incomplete input
    then (err invalid_input, s)
    else with_tx ChangeKind.users (create_user_tx input now) s

-- `userByID` and `GetUser`
unfoldable pub user_by_id : ℕ → Db → Result Error User
user_by_id id db = elim (find_first (λ u. u.id == id) db.users) [
  | none ↦ err not_found
  | some u ↦ ok u
]

unfoldable pub get_user : Store → ℕ → Result Error User
get_user s id = user_by_id id s.db

unfoldable pub get_user_by_name : Store → String → Result Error User
get_user_by_name s name = elim (find_first (λ u. u.name == name) s.db.users) [
  | none ↦ err not_found
  | some u ↦ ok u
]

unfoldable pub list_users : Store → List User
list_users s = s.db.users

-- the keys of the map
unfoldable pub taken_user_ips : Store → List String
taken_user_ips s = map (λ u. u.ip_address) s.db.users

pub record UpdateUserInput : Type 0 where
  pub name : Option String
  pub email : Option String
  pub endpoint : Option String

abbrev pub renamed : User → User → User
renamed to u = record u {
  name = to.name;
  email = to.email;
  endpoint = to.endpoint;
  updated_at = to.updated_at;
}

-- `UPDATE users SET name=?, email=?, endpoint=?, updated_at=? WHERE id=?`
unfoldable pub write_user : ℕ → User → Tx (Unit {0})
write_user id to db =
    if any (λ v. (v.name == to.name) && not (v.id == id)) db.users
    then fail Error.constraint db
    else pure tt (record db { users = update (λ v. v.id == id) (renamed to) db.users })

unfoldable pub update_user_tx : ℕ → UpdateUserInput → String → Tx User
update_user_tx id input now = do
  current ← query (user_by_id id)
  (if changes input.name current.name
      then check_name_available principal (or_current input.name "") (some Table.users) id
      else pure tt)
  let to = record current {
    name = or_current input.name current.name;
    email = or_current input.email current.email;
    endpoint = or_current input.endpoint current.endpoint;
    updated_at = now;
  }
  write_user id to
  pure to

unfoldable pub update_user : ℕ → UpdateUserInput → String → Store → Result Error User × Store
unfolding update_user_tx
update_user id input now s = with_tx ChangeKind.users (update_user_tx id input now) s

-- `DELETE FROM users WHERE id=?`, with the ON DELETE CASCADE of user_group_members
abbrev pub without_user : ℕ → Db → Db
without_user id db = record db {
  users = keep (λ u. not (u.id == id)) db.users;
  user_group_members = keep (λ m. not (m.member_id == id)) db.user_group_members;
}

unfoldable pub delete_user_tx : ℕ → Tx (Unit {0})
delete_user_tx id = do
  _ ← query (user_by_id id)
  exec (without_rules (mentions "user" id))
  exec (without_user id)

unfoldable pub delete_user : ℕ → Store → Result Error (Unit {0}) × Store
unfolding delete_user_tx
delete_user id s = with_tx ChangeKind.users (delete_user_tx id) s

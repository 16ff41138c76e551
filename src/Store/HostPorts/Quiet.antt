-- ===== src/Store/HostPorts/Quiet.antt =====
-- The writes of daemon/store that are not about services leave services and ports alone.
use lightscale.Prelude.{
  ℕ, ◌+◌, ◌≡◌, refl, String, Bool, true, false, ◌&&◌, ◌||◌, not, Option, none, some, [], ◌∷◌, any,
  ◌==◌, nat_eq, string_eq, if◌then◌else◌, Bool-cases, inl, inr, Option-cases, find_first,
}
use lightscale.Prelude.Result.{Result, ok, err}
use lightscale.Store.{
  User, UserGroup, ServiceGroup, Db, Store, Error, invalid_input, Tx, ChangeKind, fail, pure, query,
  ◌>>◌, changes, or_current, with_tx,
}
use lightscale.Store.Checks.{
  principal, object, Table, check_name_available, check_ip_available, name_check, namespace_tables,
  ip_check,
}
use lightscale.Store.Users.{
  CreateUserInput, UpdateUserInput, user_of, with_user, incomplete, insert_user, create_user_tx,
  write_user, update_user_tx, delete_user_tx, user_by_id, create_user, update_user, delete_user,
}
use lightscale.Store.Groups.{
  UpdateUserGroupInput, group_of, insert_group, create_user_group_tx, write_group,
  update_user_group_tx, delete_user_group_tx, user_group_by_id, add_user_tx, create_user_group,
  update_user_group, delete_user_group, add_user_to_group, remove_user_from_group,
}
use lightscale.Store.ServiceGroups.{
  service_group_of, insert_service_group, create_service_group_tx, write_service_group,
  update_service_group_tx, delete_service_group_tx, service_group_by_id, create_service_group,
  update_service_group, delete_service_group,
}
use lightscale.Store.Services.{service_by_id}
use lightscale.Store.ServiceMembers.{
  add_service_tx, add_service_to_group, remove_service_from_group,
}
use lightscale.Store.Policies.{
  CreatePolicyInput, valid_subject, valid_object, valid_action, assert_exists, same_pair,
  write_policy, create_policy_tx, create_policy, delete_policy_tx, delete_policy,
}
use lightscale.Store.Settings.{set_setting}
use lightscale.Store.Commands.{Command, outcome, apply}
use lightscale.Store.Outcomes.{Post, Post-query, Post-when, Post-continue}
use lightscale.Store.HostPorts.{Same, with_tx-keeps}

-- Is the write one of a user, a group, a member, a rule or a setting?
unfoldable pub quiet : Command → Bool
quiet (Command.create_service _) = false
quiet (Command.update_service _ _) = false
quiet (Command.delete_service _) = false
quiet _ = true

abbrev Kept : Db → {A : Type 0} → A → Db → Type 0
Kept db a db' = Same db db'

module _ (db : Db) where
  -- a write after a check of the UNIQUE clauses
  inserted :
      {A : Type 0} (clash : Bool) (a : A) (db' : Db)
      → Same db db'
      → Post (Kept db) (if clash then fail Error.constraint db else pure a db')
  inserted true a db' h = tt
  inserted false a db' h = h

  -- a check, a write that leaves the two tables alone, and the result
  checked_write :
      {A : Type 0} (c : Bool) (check : Db → Result Error (Unit {0})) (write : Tx (Unit {0})) (a : A)
      → Post (Kept db) (write db)
      → Post (Kept db) (((if c then query check else pure tt) >> (write >> pure a)) db)
  checked_write c check write a h =
      Post-when (Kept db) db c check _
        (λ ok_. Post-continue (Kept db) (Kept db) (write db) _ h (λ u db' same. same))

  insert_user-Same :
      (input : CreateUserInput) (now : String) → Post (Kept db) (insert_user input now db)
  unfolding insert_user
  insert_user-Same input now =
      let u = user_of input now (db.users_seq + 1) in
      inserted
        (any (λ v. v.name == u.name) db.users || any (λ v. v.ip_address == u.ip_address) db.users) u
        (with_user u db) (refl, refl)

  create_user-Same :
      (input : CreateUserInput) (now : String) → Post (Kept db) (create_user_tx input now db)
  unfolding create_user_tx check_name_available check_ip_available
  create_user-Same input now =
      Post-query (Kept db) db (name_check db (namespace_tables principal) input.name none 0) _
        (λ u e.
          Post-query (Kept db) db
            (ip_check db (Table.users ∷ Table.services ∷ []) input.ip_address none 0) _
            (λ v f. insert_user-Same input now))

  write_user-Same : (id : ℕ) (to : User) → Post (Kept db) (write_user id to db)
  unfolding write_user
  write_user-Same id to =
      inserted (any (λ v. (v.name == to.name) && not (v.id == id)) db.users) tt _ (refl, refl)

  update_user-Same :
      (id : ℕ) (input : UpdateUserInput) (now : String)
      → Post (Kept db) (update_user_tx id input now db)
  unfolding update_user_tx check_name_available
  update_user-Same id input now = Post-query (Kept db) db (user_by_id id db) _ (λ u e.
      checked_write (changes input.name u.name)
        (λ d.
          name_check d (namespace_tables principal) (or_current input.name "") (some Table.users)
            id)
        (write_user id _) _ (write_user-Same id _))

  delete_user-Same : (id : ℕ) → Post (Kept db) (delete_user_tx id db)
  unfolding delete_user_tx
  delete_user-Same id = Post-query (Kept db) db (user_by_id id db) _ (λ u e. (refl, refl))

  create_user_group-Same :
      (name : String) (lan_mode : Bool) (now : String)
      → Post (Kept db) (create_user_group_tx name lan_mode now db)
  unfolding create_user_group_tx check_name_available insert_group
  create_user_group-Same name lan_mode now =
      Post-query (Kept db) db (name_check db (namespace_tables principal) name none 0) _ (λ u e.
        inserted (any (λ v. v.name == name) db.user_groups)
          (group_of name lan_mode now (db.user_groups_seq + 1)) _ (refl, refl))

  write_group-Same : (id : ℕ) (to : UserGroup) → Post (Kept db) (write_group id to db)
  unfolding write_group
  write_group-Same id to =
      inserted (any (λ v. (v.name == to.name) && not (v.id == id)) db.user_groups) tt _ (refl, refl)

  update_user_group-Same :
      (id : ℕ) (input : UpdateUserGroupInput) (now : String)
      → Post (Kept db) (update_user_group_tx id input now db)
  unfolding update_user_group_tx check_name_available
  update_user_group-Same id input now = Post-query (Kept db) db (user_group_by_id id db) _ (λ g e.
      checked_write (changes input.name g.name)
        (λ d.
          name_check d (namespace_tables principal) (or_current input.name "")
            (some Table.user_groups) id)
        (write_group id _) _ (write_group-Same id _))

  delete_user_group-Same : (id : ℕ) → Post (Kept db) (delete_user_group_tx id db)
  unfolding delete_user_group_tx
  delete_user_group-Same id =
      Post-query (Kept db) db (user_group_by_id id db) _ (λ g e. (refl, refl))

  add_user-Same : (group_id user_id : ℕ) → Post (Kept db) (add_user_tx group_id user_id db)
  unfolding add_user_tx
  add_user-Same group_id user_id =
      Post-query (Kept db) db (user_group_by_id group_id db) _
        (λ g e. Post-query (Kept db) db (user_by_id user_id db) _ (λ u f. (refl, refl)))

  create_service_group-Same :
      (name now : String) → Post (Kept db) (create_service_group_tx name now db)
  unfolding create_service_group_tx check_name_available insert_service_group
  create_service_group-Same name now =
      Post-query (Kept db) db (name_check db (namespace_tables object) name none 0) _ (λ u e.
        inserted (any (λ v. v.name == name) db.service_groups)
          (service_group_of name now (db.service_groups_seq + 1)) _ (refl, refl))

  write_service_group-Same :
      (id : ℕ) (to : ServiceGroup) → Post (Kept db) (write_service_group id to db)
  unfolding write_service_group
  write_service_group-Same id to =
      inserted (any (λ v. (v.name == to.name) && not (v.id == id)) db.service_groups) tt _
        (refl, refl)

  update_service_group-Same :
      (id : ℕ) (name : Option String) (now : String)
      → Post (Kept db) (update_service_group_tx id name now db)
  unfolding update_service_group_tx check_name_available
  update_service_group-Same id name now =
      Post-query (Kept db) db (service_group_by_id id db) _ (λ g e.
        checked_write (changes name g.name)
          (λ d.
            name_check d (namespace_tables object) (or_current name "") (some Table.service_groups)
              id)
          (write_service_group id _) _ (write_service_group-Same id _))

  delete_service_group-Same : (id : ℕ) → Post (Kept db) (delete_service_group_tx id db)
  unfolding delete_service_group_tx
  delete_service_group-Same id =
      Post-query (Kept db) db (service_group_by_id id db) _ (λ g e. (refl, refl))

  add_service-Same :
      (group_id service_id : ℕ) → Post (Kept db) (add_service_tx group_id service_id db)
  unfolding add_service_tx
  add_service-Same group_id service_id =
      Post-query (Kept db) db (service_group_by_id group_id db) _
        (λ g e. Post-query (Kept db) db (service_by_id service_id db) _ (λ t f. (refl, refl)))

  create_policy-Same :
      (input : CreatePolicyInput) (now : String) → Post (Kept db) (create_policy_tx input now db)
  unfolding create_policy_tx write_policy
  create_policy-Same input now =
      Post-query (Kept db) db (assert_exists input.subject_type input.subject_id db) _ (λ u e.
        Post-query (Kept db) db (assert_exists input.object_type input.object_id db) _ (λ v f.
          elim (Option-cases (find_first (same_pair input) db.policy_rules)) [
            | inl g ↦ rw (g, Post, write_policy) (refl, refl)
            | inr (old, g) ↦ rw (g, Post, write_policy) (refl, refl)
          ]))

  delete_policy-Same : (id : ℕ) → Post (Kept db) (delete_policy_tx id db)
  unfolding delete_policy_tx
  delete_policy-Same id = elim (Bool-cases (any (λ r. r.id == id) db.policy_rules)) [
    | inl e ↦ rw e (refl, refl)
    | inr e ↦ rw e tt
  ]

outcome-Same :
    {A : Type 0} (db : Db) (x : Result Error A × Store) → Same db x.1.db → Same db (outcome x).1.db
outcome-Same db (ok a, s) h = h
outcome-Same db (err e, s) h = h

module _ {A : Type 0} (s : Store) (kind : ChangeKind) (fn : Tx A) where
  settled : Post (Kept s.db) (fn s.db) → Same s.db (outcome (with_tx kind fn s)).1.db
  settled post =
      outcome-Same s.db (with_tx kind fn s)
        (with_tx-keeps (λ db. Same s.db db) kind fn s (refl, refl) post)

  -- an early return before the transaction
  settled_if :
      (refused : Bool)
      → Post (Kept s.db) (fn s.db)
      → Same s.db (outcome (if refused then (err invalid_input, s) else with_tx kind fn s)).1.db
  settled_if true post = (refl, refl)
  settled_if false post = settled post

-- Such a write leaves the services and their ports as they were.
pub apply-Same :
    (c : Command) (now : String) (s : Store) → quiet c ≡ true → Same s.db (apply c now s).1.db
unfolding apply quiet create_user update_user delete_user create_user_group update_user_group
    delete_user_group add_user_to_group remove_user_from_group create_service_group
    update_service_group delete_service_group add_service_to_group remove_service_from_group
    create_policy delete_policy set_setting
apply-Same (Command.create_user input) now s q =
    settled_if s _ _ (incomplete input) (create_user-Same s.db input now)
apply-Same (Command.update_user id input) now s q =
    settled s _ _ (update_user-Same s.db id input now)
apply-Same (Command.delete_user id) now s q = settled s _ _ (delete_user-Same s.db id)
apply-Same (Command.create_user_group name lan_mode) now s q =
    settled_if s _ _ (name == "") (create_user_group-Same s.db name lan_mode now)
apply-Same (Command.update_user_group id input) now s q =
    settled s _ _ (update_user_group-Same s.db id input now)
apply-Same (Command.delete_user_group id) now s q = settled s _ _ (delete_user_group-Same s.db id)
apply-Same (Command.add_user_to_group group_id user_id) now s q =
    settled s _ _ (add_user-Same s.db group_id user_id)
apply-Same (Command.remove_user_from_group group_id user_id) now s q = settled s _ _ (refl, refl)
apply-Same (Command.create_service input) now s q = absurd (cc q)
apply-Same (Command.update_service id input) now s q = absurd (cc q)
apply-Same (Command.delete_service id) now s q = absurd (cc q)
apply-Same (Command.create_service_group name) now s q =
    settled_if s _ _ (name == "") (create_service_group-Same s.db name now)
apply-Same (Command.update_service_group id name) now s q =
    settled s _ _ (update_service_group-Same s.db id name now)
apply-Same (Command.delete_service_group id) now s q =
    settled s _ _ (delete_service_group-Same s.db id)
apply-Same (Command.add_service_to_group group_id service_id) now s q =
    settled s _ _ (add_service-Same s.db group_id service_id)
apply-Same (Command.remove_service_from_group group_id service_id) now s q =
    settled s _ _ (refl, refl)
apply-Same (Command.create_policy input) now s q =
    settled_if s _ _
      (not (valid_subject input.subject_type)
        || not (valid_object input.object_type)
        || not (valid_action input.action))
      (create_policy-Same s.db input now)
apply-Same (Command.delete_policy id) now s q = settled s _ _ (delete_policy-Same s.db id)
apply-Same (Command.set_setting key value) now s q = settled s _ _ (refl, refl)

-- ===== src/Store/Steps/Groups.antt =====
-- The transactions on user groups of daemon/store/groups.go make the changes that Store.Steps lists.
use lightscale.Prelude.{
  ℕ, ◌+◌, ◌≡◌, refl, inl, inr, String, Bool, false, ◌&&◌, not, none, some, any, has, ◌==◌, nat_eq,
  string_eq, find_first, arith, Bool-cases, Option-cases, find_first_passes, In, In_of_find_first,
  any-keep-not, eq_of_==, has_of_In, has_key_of,
}
use lightscale.Prelude.Result.{ok}
use lightscale.Store.{UserGroup, Db, mentions, changes}
use lightscale.Store.Checks.{Table, check_name_available}
use lightscale.Store.Checks.Free.{principal_free}
use lightscale.Store.Users.{user_by_id}
use lightscale.Store.Groups.{
  UpdateUserGroupInput, group_of, insert_group, create_user_group_tx, user_group_by_id, write_group,
  update_user_group_tx, delete_user_group_tx, add_user_tx,
}
use lightscale.Store.Outcomes.{Post, Post-continue, Post-query, Post-when}
use lightscale.Store.Steps.{Step, done, and_then, Reached, Held, held}
use lightscale.Store.Steps.Users.{user_row}

module _ (db : Db) where
  insert_group-Steps :
      (name : String) (lan_mode : Bool) (now : String)
      → has (λ v. v.name) name db.users ≡ false
      → Post (Reached db) (insert_group name lan_mode now db)
  unfolding insert_group has
  insert_group-Steps name lan_mode now free =
      elim (Bool-cases (any (λ v. v.name == name) db.user_groups)) [
        | inl e ↦ rw e tt
        | inr e ↦ rw e (
            and_then done
              (Step.group_added (group_of name lan_mode now (db.user_groups_seq + 1)) refl e free))
      ]

  pub create_user_group-Steps :
      (name : String) (lan_mode : Bool) (now : String)
      → Post (Reached db) (create_user_group_tx name lan_mode now db)
  unfolding create_user_group_tx check_name_available
  create_user_group-Steps name lan_mode now =
      Post-query (Reached db) db _ _
        (λ u e. insert_group-Steps name lan_mode now ((principal_free db name none 0 u e).0 refl))

  pub user_group_row :
      (id : ℕ) (g : UserGroup) → user_group_by_id id db ≡ ok g → In g db.user_groups × (g.id ≡ id)
  unfolding user_group_by_id
  user_group_row id g found = elim (Option-cases (find_first (λ v. v.id == id) db.user_groups)) [
    | inl e ↦ cc (found, e)
    | inr (v, e) ↦
        let p : g ≡ v = ground arith in
        rw p (
          In_of_find_first _ db.user_groups e,
          eq_of_== v.id id (find_first_passes _ db.user_groups e),
        )
  ]

  write_group-Steps :
      (id : ℕ) (to : UserGroup)
      → Held (λ v. v.name) (λ g. g.name) to.name db.user_groups db.users
      → Post (Reached db) (write_group id to db)
  unfolding write_group
  write_group-Steps id to own =
      elim (Bool-cases (any (λ v. (v.name == to.name) && not (v.id == id)) db.user_groups)) [
        | inl e ↦ rw e tt
        | inr e ↦ rw e (and_then done (Step.group_changed id to e own))
      ]

  pub update_user_group-Steps :
      (id : ℕ) (input : UpdateUserGroupInput) (now : String)
      → Post (Reached db) (update_user_group_tx id input now db)
  unfolding update_user_group_tx check_name_available
  update_user_group-Steps id input now =
      Post-query (Reached db) db (user_group_by_id id db) _ (λ g found.
        Post-when (Reached db) db (changes input.name g.name) _ _ (λ checked.
          Post-continue (Reached db) (Reached db) (write_group id _ db) _
            (write_group-Steps id _ (
              held (λ v. v.name) (λ u. u.name) db.user_groups db.users input.name g.name
                (has_of_In (λ v. v.name) db.user_groups (user_group_row id g found).0)
                (elim checked [
                  | inl e ↦ inl e
                  | inr e ↦ inr ((principal_free db _ (some Table.user_groups) id tt e).0 refl)
                ])))
            (λ _ db' steps. steps)))

  pub delete_user_group-Steps : (id : ℕ) → Post (Reached db) (delete_user_group_tx id db)
  unfolding delete_user_group_tx
  delete_user_group-Steps id = Post-query (Reached db) db (user_group_by_id id db) _ (λ g found.
      and_then (and_then done (Step.rules_dropped (mentions "user_group" id)))
        (Step.group_removed id (any-keep-not (mentions "user_group" id) db.policy_rules)))

  pub add_user-Steps : (group_id user_id : ℕ) → Post (Reached db) (add_user_tx group_id user_id db)
  unfolding add_user_tx
  add_user-Steps group_id user_id =
      Post-query (Reached db) db (user_group_by_id group_id db) _ (λ g found_group.
        Post-query (Reached db) db (user_by_id user_id db) _ (λ u found_user. and_then done (
          Step.user_joined user_id group_id
            (has_key_of (λ v. v.id) user_id db.users (user_row db user_id u found_user))
            (has_key_of (λ v. v.id) group_id db.user_groups
              (user_group_row group_id g found_group)))))

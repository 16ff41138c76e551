-- ===== src/Store/Steps/Users.antt =====
-- The transactions of daemon/store/users.go make the changes that Store.Steps lists.
use lightscale.Prelude.{
  ℕ, ◌+◌, ◌≡◌, refl, inl, inr, String, false, ◌&&◌, ◌||◌, not, none, some, any, has, ◌==◌, nat_eq,
  string_eq, find_first, arith, Bool-cases, Option-cases, find_first_passes, In, In_of_find_first,
  any-keep-not, eq_of_==, has_of_In,
}
use lightscale.Prelude.Result.{ok}
use lightscale.Store.{User, Db, mentions, changes}
use lightscale.Store.Checks.{Table, check_name_available, check_ip_available}
use lightscale.Store.Checks.Free.{principal_free, ip_free}
use lightscale.Store.Users.{
  CreateUserInput, UpdateUserInput, user_of, insert_user, create_user_tx, user_by_id, write_user,
  update_user_tx, delete_user_tx,
}
use lightscale.Store.Outcomes.{Post, Post-continue, Post-query, Post-when}
use lightscale.Store.Steps.{Step, done, and_then, Reached, Held, held}

module _ (db : Db) where
  insert_user-Steps :
      (input : CreateUserInput) (now : String)
      → has (λ g. g.name) input.name db.user_groups ≡ false
      → has (λ s. s.ip_address) input.ip_address db.services ≡ false
      → Post (Reached db) (insert_user input now db)
  unfolding insert_user has
  insert_user-Steps input now name_free ip_free =
      elim (Bool-cases (
        any (λ v. v.name == input.name) db.users
        || any (λ v. v.ip_address == input.ip_address) db.users)) [
          | inl e ↦ rw e tt
          | inr e ↦ rw e (
              and_then done (
                Step.user_added (user_of input now (db.users_seq + 1)) refl (ground arith) name_free
                  (ground arith) ip_free))
        ]

  pub create_user-Steps :
      (input : CreateUserInput) (now : String) → Post (Reached db) (create_user_tx input now db)
  unfolding create_user_tx check_name_available check_ip_available
  create_user-Steps input now = Post-query (Reached db) db _ _ (λ u e.
      Post-query (Reached db) db _ _ (λ v f.
        insert_user-Steps input now ((principal_free db input.name none 0 u e).1 refl)
          ((ip_free db input.ip_address none 0 v f).1 refl)))

  pub user_row : (id : ℕ) (u : User) → user_by_id id db ≡ ok u → In u db.users × (u.id ≡ id)
  unfolding user_by_id
  user_row id u found = elim (Option-cases (find_first (λ v. v.id == id) db.users)) [
    | inl e ↦ cc (found, e)
    | inr (v, e) ↦
        let p : u ≡ v = ground arith in
        rw p (In_of_find_first _ db.users e, eq_of_== v.id id (find_first_passes _ db.users e))
  ]

  write_user-Steps :
      (id : ℕ) (to : User)
      → Held (λ v. v.name) (λ g. g.name) to.name db.users db.user_groups
      → Post (Reached db) (write_user id to db)
  unfolding write_user
  write_user-Steps id to held =
      elim (Bool-cases (any (λ v. (v.name == to.name) && not (v.id == id)) db.users)) [
        | inl e ↦ rw e tt
        | inr e ↦ rw e (and_then done (Step.user_changed id to e held))
      ]

  pub update_user-Steps :
      (id : ℕ) (input : UpdateUserInput) (now : String)
      → Post (Reached db) (update_user_tx id input now db)
  unfolding update_user_tx check_name_available
  update_user-Steps id input now = Post-query (Reached db) db (user_by_id id db) _ (λ u found.
      Post-when (Reached db) db (changes input.name u.name) _ _ (λ checked.
        Post-continue (Reached db) (Reached db) (write_user id _ db) _
          (write_user-Steps id _ (
            held (λ v. v.name) (λ g. g.name) db.users db.user_groups input.name u.name
              (has_of_In (λ v. v.name) db.users (user_row id u found).0)
              (elim checked [
                | inl e ↦ inl e
                | inr e ↦ inr ((principal_free db _ (some Table.users) id tt e).1 refl)
              ])))
          (λ _ db' steps. steps)))

  pub delete_user-Steps : (id : ℕ) → Post (Reached db) (delete_user_tx id db)
  unfolding delete_user_tx
  delete_user-Steps id = Post-query (Reached db) db (user_by_id id db) _ (λ u found.
      and_then (and_then done (Step.rules_dropped (mentions "user" id)))
        (Step.user_removed id (any-keep-not (mentions "user" id) db.policy_rules)))

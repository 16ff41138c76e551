-- ===== src/Store/Steps/ServiceGroups.antt =====
-- The transactions on service groups of daemon/store/groups.go make the changes that Store.Steps
-- lists.
use lightscale.Prelude.{
  ℕ, ◌+◌, ◌≡◌, refl, inl, inr, String, false, ◌&&◌, not, Option, none, some, any, has, ◌==◌, nat_eq,
  string_eq, find_first, arith, Bool-cases, Option-cases, find_first_passes, In, In_of_find_first,
  any-keep-not, eq_of_==, has_of_In, has_key_of,
}
use lightscale.Prelude.Result.{ok}
use lightscale.Store.{ServiceGroup, Db, changes}
use lightscale.Store.Checks.{Table, check_name_available}
use lightscale.Store.Checks.Free.{object_free}
use lightscale.Store.ServiceGroups.{
  service_group_of, insert_service_group, create_service_group_tx, service_group_by_id,
  write_service_group, update_service_group_tx, delete_service_group_tx, is_object,
}
use lightscale.Store.Services.{service_by_id}
use lightscale.Store.ServiceMembers.{add_service_tx}
use lightscale.Store.Outcomes.{Post, Post-continue, Post-query, Post-when}
use lightscale.Store.Steps.{Step, done, and_then, Reached, Held, held}
use lightscale.Store.Steps.Services.{service_row}

module _ (db : Db) where
  insert_service_group-Steps :
      (name now : String)
      → has (λ v. v.name) name db.services ≡ false
      → Post (Reached db) (insert_service_group name now db)
  unfolding insert_service_group has
  insert_service_group-Steps name now free =
      elim (Bool-cases (any (λ v. v.name == name) db.service_groups)) [
        | inl e ↦ rw e tt
        | inr e ↦ rw e (
            and_then done (
              Step.service_group_added (service_group_of name now (db.service_groups_seq + 1)) refl
                e free))
      ]

  pub create_service_group-Steps :
      (name now : String) → Post (Reached db) (create_service_group_tx name now db)
  unfolding create_service_group_tx check_name_available
  create_service_group-Steps name now =
      Post-query (Reached db) db _ _
        (λ u e. insert_service_group-Steps name now ((object_free db name none 0 u e).0 refl))

  pub service_group_row :
      (id : ℕ) (g : ServiceGroup)
      → service_group_by_id id db ≡ ok g
      → In g db.service_groups × (g.id ≡ id)
  unfolding service_group_by_id
  service_group_row id g found =
      elim (Option-cases (find_first (λ v. v.id == id) db.service_groups)) [
        | inl e ↦ cc (found, e)
        | inr (v, e) ↦
            let p : g ≡ v = ground arith in
            rw p (
              In_of_find_first _ db.service_groups e,
              eq_of_== v.id id (find_first_passes _ db.service_groups e),
            )
      ]

  write_service_group-Steps :
      (id : ℕ) (to : ServiceGroup)
      → Held (λ v. v.name) (λ g. g.name) to.name db.service_groups db.services
      → Post (Reached db) (write_service_group id to db)
  unfolding write_service_group
  write_service_group-Steps id to own =
      elim (Bool-cases (any (λ v. (v.name == to.name) && not (v.id == id)) db.service_groups)) [
        | inl e ↦ rw e tt
        | inr e ↦ rw e (and_then done (Step.service_group_changed id to e own))
      ]

  pub update_service_group-Steps :
      (id : ℕ) (input : Option String) (now : String)
      → Post (Reached db) (update_service_group_tx id input now db)
  unfolding update_service_group_tx check_name_available
  update_service_group-Steps id input now =
      Post-query (Reached db) db (service_group_by_id id db) _ (λ g found.
        Post-when (Reached db) db (changes input g.name) _ _ (λ checked.
          Post-continue (Reached db) (Reached db) (write_service_group id _ db) _
            (write_service_group-Steps id _ (
              held (λ v. v.name) (λ u. u.name) db.service_groups db.services input g.name
                (has_of_In (λ v. v.name) db.service_groups (service_group_row id g found).0)
                (elim checked [
                  | inl e ↦ inl e
                  | inr e ↦ inr ((object_free db _ (some Table.service_groups) id tt e).0 refl)
                ])))
            (λ _ db' steps. steps)))

  pub delete_service_group-Steps : (id : ℕ) → Post (Reached db) (delete_service_group_tx id db)
  unfolding delete_service_group_tx
  delete_service_group-Steps id =
      Post-query (Reached db) db (service_group_by_id id db) _ (λ g found.
        and_then (and_then done (Step.rules_dropped (is_object "service_group" id))) (
          Step.service_group_removed id
            (any-keep-not (is_object "service_group" id) db.policy_rules)))

  pub add_service-Steps :
      (group_id service_id : ℕ) → Post (Reached db) (add_service_tx group_id service_id db)
  unfolding add_service_tx
  add_service-Steps group_id service_id =
      Post-query (Reached db) db (service_group_by_id group_id db) _ (λ g found_group.
        Post-query (Reached db) db (service_by_id service_id db) _ (λ s found_service.
          and_then done (
            Step.service_joined service_id group_id
              (has_key_of (λ v. v.id) service_id db.services
                (service_row db service_id s found_service))
              (has_key_of (λ v. v.id) group_id db.service_groups
                (service_group_row group_id g found_group)))))

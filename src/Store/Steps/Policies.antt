-- ===== src/Store/Steps/Policies.antt =====
-- The transactions of daemon/store/policies.go make the changes that Store.Steps lists.
use lightscale.Prelude.{
  ℕ, ◌≡◌, inl, inr, String, true, any, ◌==◌, nat_eq, string_eq, find_first, Bool-cases,
  Option-cases, any-eq-false_of_none,
}
use lightscale.Prelude.Result.{ok}
use lightscale.Store.{Db}
use lightscale.Store.Policies.{
  CreatePolicyInput, valid_subject, assert_exists, same_pair, write_policy, create_policy_tx,
  delete_policy_tx,
}
use lightscale.Store.Outcomes.{Post, Post-query}
use lightscale.Store.Steps.{Step, done, and_then, Reached}

module _ (db : Db) where
  write_policy-Steps :
      (input : CreatePolicyInput) (now : String)
      → valid_subject input.subject_type ≡ true
      → assert_exists input.subject_type input.subject_id db ≡ ok tt
      → assert_exists input.object_type input.object_id db ≡ ok tt
      → Post (Reached db) (write_policy input now db)
  unfolding write_policy
  write_policy-Steps input now subject s o =
      elim (Option-cases (find_first (same_pair input) db.policy_rules)) [
        | inl e ↦
            rw (e, Post, write_policy)
              (and_then done (
                Step.rule_added input now subject s o
                  (any-eq-false_of_none (same_pair input) db.policy_rules e)))
        | inr (old, e) ↦
            rw (e, Post, write_policy) (and_then done (Step.rule_set old.id input.action now))
      ]

  pub create_policy-Steps :
      (input : CreatePolicyInput) (now : String)
      → valid_subject input.subject_type ≡ true
      → Post (Reached db) (create_policy_tx input now db)
  unfolding create_policy_tx
  create_policy-Steps input now subject =
      Post-query (Reached db) db _ _
        (λ u s. Post-query (Reached db) db _ _ (λ v o. write_policy-Steps input now subject s o))

  pub delete_policy-Steps : (id : ℕ) → Post (Reached db) (delete_policy_tx id db)
  unfolding delete_policy_tx
  delete_policy-Steps id = elim (Bool-cases (any (λ r. r.id == id) db.policy_rules)) [
    | inl e ↦ rw e (and_then done (Step.rules_dropped (λ r. r.id == id)))
    | inr e ↦ rw e tt
  ]

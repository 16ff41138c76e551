-- ===== src/Store/Invariants/References/Rules.antt =====
-- A rule of daemon/store that does not name a removed row stays whole.
use lightscale.Prelude.{ℕ, ◌≡◌, false, nat_eq, string_eq, arith, ==_of_eq, has-keep_other}
use lightscale.Store.{PolicyRule, Db, mentions}
use lightscale.Store.Users.{without_user}
use lightscale.Store.Groups.{without_group}
use lightscale.Store.ServiceGroups.{is_object, without_service_group}
use lightscale.Store.Services.{without_service}
use lightscale.Store.Policies.{valid_subject}
use lightscale.Store.Invariants.References.{RuleOk, assert_exists-Survives}

-- the rules that did not name what is removed
module _ (db : Db) (id : ℕ) where
  pub rule-without_user :
      (r : PolicyRule) → RuleOk db r → mentions "user" id r ≡ false → RuleOk (without_user id db) r
  rule-without_user r (v, s, o) h = (
    v,
    assert_exists-Survives db (without_user id db) r.subject_type r.subject_id
        (record {
          user = λ k there_.
              has-keep_other (λ u. u.id) id db.users r.subject_id
                (ground (arith, ==_of_eq r.subject_type "user" k)) there_;
          user_group = λ _ there_. there_;
          service = λ _ there_. there_;
          service_group = λ _ there_. there_;
        })
        s,
    assert_exists-Survives db (without_user id db) r.object_type r.object_id
        (record {
          user = λ k there_.
              has-keep_other (λ u. u.id) id db.users r.object_id
                (ground (arith, ==_of_eq r.object_type "user" k)) there_;
          user_group = λ _ there_. there_;
          service = λ _ there_. there_;
          service_group = λ _ there_. there_;
        })
        o,
  )

  pub rule-without_group :
      (r : PolicyRule)
      → RuleOk db r
      → mentions "user_group" id r ≡ false
      → RuleOk (without_group id db) r
  rule-without_group r (v, s, o) h = (
    v,
    assert_exists-Survives db (without_group id db) r.subject_type r.subject_id
        (record {
          user = λ _ there_. there_;
          user_group = λ k there_.
              has-keep_other (λ g. g.id) id db.user_groups r.subject_id
                (ground (arith, ==_of_eq r.subject_type "user_group" k)) there_;
          service = λ _ there_. there_;
          service_group = λ _ there_. there_;
        })
        s,
    assert_exists-Survives db (without_group id db) r.object_type r.object_id
        (record {
          user = λ _ there_. there_;
          user_group = λ k there_.
              has-keep_other (λ g. g.id) id db.user_groups r.object_id
                (ground (arith, ==_of_eq r.object_type "user_group" k)) there_;
          service = λ _ there_. there_;
          service_group = λ _ there_. there_;
        })
        o,
  )

  pub rule-without_service :
      (r : PolicyRule)
      → RuleOk db r
      → is_object "service" id r ≡ false
      → RuleOk (without_service id db) r
  unfolding valid_subject
  rule-without_service r (v, s, o) h = (
    v,
    assert_exists-Survives db (without_service id db) r.subject_type r.subject_id
        (record {
          user = λ _ there_. there_;
          user_group = λ _ there_. there_;
          service = λ k there_. cc (rw k at v);
          service_group = λ _ there_. there_;
        })
        s,
    assert_exists-Survives db (without_service id db) r.object_type r.object_id
        (record {
          user = λ _ there_. there_;
          user_group = λ _ there_. there_;
          service = λ k there_.
              has-keep_other (λ t. t.id) id db.services r.object_id
                (ground (arith, ==_of_eq r.object_type "service" k)) there_;
          service_group = λ _ there_. there_;
        })
        o,
  )

  pub rule-without_service_group :
      (r : PolicyRule)
      → RuleOk db r
      → is_object "service_group" id r ≡ false
      → RuleOk (without_service_group id db) r
  unfolding valid_subject
  rule-without_service_group r (v, s, o) h = (
    v,
    assert_exists-Survives db (without_service_group id db) r.subject_type r.subject_id
        (record {
          user = λ _ there_. there_;
          user_group = λ _ there_. there_;
          service = λ _ there_. there_;
          service_group = λ k there_. cc (rw k at v);
        })
        s,
    assert_exists-Survives db (without_service_group id db) r.object_type r.object_id
        (record {
          user = λ _ there_. there_;
          user_group = λ _ there_. there_;
          service = λ _ there_. there_;
          service_group = λ k there_.
              has-keep_other (λ g. g.id) id db.service_groups r.object_id
                (ground (arith, ==_of_eq r.object_type "service_group" k)) there_;
        })
        o,
  )

-- ===== src/Api/Policies/Displayed.antt =====
-- `nameFor` (daemon/api/policies.go) does not panic at a rule of the store.
use lightscale.Prelude.{
  ℕ, ◌≡◌, refl, inl, inr, String, true, ◌||◌, not, none, some, List, [], ◌∷◌, Option, find_first,
  ◌==◌, nat_eq, string_eq, arith, Bool-cases, Option-cases, All, All-weaken,
}
use lightscale.Prelude.Result.{Result, ok, err}
use lightscale.Store.{PolicyRule, Db, Store, Error, ChangeKind, with_tx, settle}
use lightscale.Store.Outcomes.{Post, Post-query}
use lightscale.Store.Policies
use lightscale.Store.Policies.{
  CreatePolicyInput, valid_subject, valid_object, valid_action, assert_exists, row_there, same_pair,
  write_policy, create_policy_tx,
}
use lightscale.Store.Invariants.References.{RuleOk}
use lightscale.Api.Wire.{PolicyDto}
use lightscale.Api.Names.{name_for}
use lightscale.Store.Invariants.Always.{IsValid}
use lightscale.Api.{Body}
use lightscale.Api.Policies.{to_policy_dto, policy_dtos, list_policies, or_panic, ◌>>=◌}

-- the subject and the object are of types that `nameFor` knows
abbrev pub Typed : PolicyRule → Type 0
Typed r = (valid_object r.subject_type ≡ true) × (valid_object r.object_type ≡ true)

-- no panic
abbrev pub Given : {A : Type 0} → Option A → Type 0
Given none = ⊥
Given (some a) = Unit

Given-bind :
    {A B : Type 0} (o : Option A) (f : A → Option B)
    → Given o
    → ((a : A) → Given (f a))
    → Given (o >>= f)
Given-bind none f h k = h
Given-bind (some a) f h k = k a

Given-name_for :
    (st : Store) (t : String) (id : ℕ) → valid_object t ≡ true → Given (name_for st t id)
unfolding name_for valid_object
Given-name_for st t id h = elim (Bool-cases (t == "user")) [
  | inl a ↦ rw a tt
  | inr a ↦ elim (Bool-cases (t == "user_group")) [
    | inl b ↦ rw (a, b) tt
    | inr b ↦ elim (Bool-cases (t == "service")) [
      | inl c ↦ rw (a, b, c) tt
      | inr c ↦ elim (Bool-cases (t == "service_group")) [
        | inl d ↦ rw (a, b, c, d) tt
        | inr d ↦ absurd (ground arith)
      ]
    ]
  ]
]

pub Given-to_policy_dto : (st : Store) (p : PolicyRule) → Typed p → Given (to_policy_dto st p)
unfolding to_policy_dto
Given-to_policy_dto st p h =
    Given-bind (name_for st p.subject_type p.subject_id) _
      (Given-name_for st p.subject_type p.subject_id h.0)
      (λ subject.
        Given-bind (name_for st p.object_type p.object_id) _
          (Given-name_for st p.object_type p.object_id h.1) (λ object. tt))

pub Given-policy_dtos :
    (st : Store) (ps : List PolicyRule) → All Typed ps → Given (policy_dtos st ps)
unfolding policy_dtos
Given-policy_dtos st [] h = tt
Given-policy_dtos st (p ∷ ps) h =
    Given-bind (to_policy_dto st p) _ (Given-to_policy_dto st p h.0)
      (λ dto. Given-bind (policy_dtos st ps) _ (Given-policy_dtos st ps h.1) (λ dtos. tt))

-- A subject that a rule may have is one of the types of objects too.
valid_object_of_subject : (t : String) → valid_subject t ≡ true → valid_object t ≡ true
unfolding valid_subject valid_object
valid_object_of_subject t h = ground arith

-- A row of the type is there, so that the type is one of the four.
valid_object_of_exists :
    (t : String) (id : ℕ) (db : Db) → assert_exists t id db ≡ ok tt → valid_object t ≡ true
unfolding assert_exists valid_object
valid_object_of_exists t id db h = elim (Bool-cases (t == "user")) [
  | inl a ↦ rw a refl
  | inr a ↦ elim (Bool-cases (t == "user_group")) [
    | inl b ↦ rw (a, b) refl
    | inr b ↦ elim (Bool-cases (t == "service")) [
      | inl c ↦ rw (a, b, c) refl
      | inr c ↦ elim (Bool-cases (t == "service_group")) [
        | inl d ↦ rw (a, b, c, d) refl
        | inr d ↦ absurd (cc (rw (a, b, c, d) at h))
      ]
    ]
  ]
]

pub Typed-of_RuleOk : (db : Db) (r : PolicyRule) → RuleOk db r → Typed r
Typed-of_RuleOk db r (subject, _, object_there) = (
  valid_object_of_subject r.subject_type subject,
  valid_object_of_exists r.object_type r.object_id db object_there,
)

-- what a new rule has from its input
abbrev Copied : CreatePolicyInput → PolicyRule → Db → Type 0
Copied input r db = (r.subject_type ≡ input.subject_type) × (r.object_type ≡ input.object_type)

write_policy-Copied :
    (input : CreatePolicyInput) (now : String) (db : Db)
    → Post (Copied input) (write_policy input now db)
unfolding write_policy
write_policy-Copied input now db =
    elim (Option-cases (find_first (same_pair input) db.policy_rules)) [
      | inl e ↦ rw (e, Post, write_policy) (refl, refl)
      | inr (old, e) ↦ rw (e, Post, write_policy) (refl, refl)
    ]

create_policy_tx-Copied :
    (input : CreatePolicyInput) (now : String) (db : Db)
    → Post (Copied input) (create_policy_tx input now db)
unfolding create_policy_tx
create_policy_tx-Copied input now db =
    Post-query (Copied input) db (assert_exists input.subject_type input.subject_id db) _ (λ u e.
      Post-query (Copied input) db (assert_exists input.object_type input.object_id db) _
        (λ v f. write_policy-Copied input now db))

-- what holds of the rule, unless there was an error
abbrev pub Created : Result Error PolicyRule × Store → Type 0
Created (ok r, s) = Typed r
Created (err e, s) = Unit

settle-Created :
    (input : CreatePolicyInput) (s : Store) (x : Result Error PolicyRule × Db)
    → valid_object input.subject_type ≡ true
    → valid_object input.object_type ≡ true
    → Post (Copied input) x
    → Created (settle s ChangeKind.policies x)
unfolding settle
settle-Created input s (ok r, db) h k post = (rw post.0 h, rw post.1 k)
settle-Created input s (err e, db) h k post = tt

pub create_policy-Created :
    (input : CreatePolicyInput) (now : String) (s : Store)
    → Created (Policies.create_policy input now s)
unfolding Policies.create_policy with_tx
create_policy-Created input now s =
    elim (Bool-cases (
      not (valid_subject input.subject_type)
      || not (valid_object input.object_type)
      || not (valid_action input.action))) [
        | inl e ↦ rw e tt
        | inr e ↦
            let subject : valid_subject input.subject_type ≡ true = ground arith in
            rw e (
              settle-Created input s (create_policy_tx input now s.db)
                (valid_object_of_subject input.subject_type subject) (ground arith)
                (create_policy_tx-Copied input now s.db))
      ]

-- In a valid store `listPolicies` answers with status 200: `nameFor` panics at no rule.
pub list_policies_lem : (s : Store) → IsValid s.db → (list_policies s).0.status ≡ 200
unfolding list_policies Policies.list_policies
list_policies_lem s v = answered (policy_dtos s s.db.policy_rules) (
    Given-policy_dtos s s.db.policy_rules
      (All-weaken (RuleOk s.db) Typed s.db.policy_rules (Typed-of_RuleOk s.db) v.references.0))
  where
    answered : (o : Option (List PolicyDto)) → Given o → (or_panic 200 Body.policies o).status ≡ 200
    answered none h = absurd h
    answered (some dtos) h = refl

-- ===== src/Store/Policies.antt =====
-- daemon/store/policies.go. `now` is the time stamp that `nowTimestamp` returns.
use lightscale.Prelude.{
  ℕ, ◌+◌, String, Bool, ◌&&◌, ◌||◌, not, none, some, List, [], ◌∷◌, ◌++◌, any, ◌==◌, nat_eq,
  string_eq, if◌then◌else◌, find_first, update,
}
use lightscale.Prelude.Result.{Result, ok, err}
use lightscale.Store.{
  PolicyRule, Db, Store, Error, not_found, invalid_input, ChangeKind, Tx, pure, fail, query,
  with_tx, ◌>>◌, without_rules,
}

pub record CreatePolicyInput : Type 0 where
  pub subject_type : String
  pub subject_id : ℕ
  pub object_type : String
  pub object_id : ℕ
  pub action : String

unfoldable pub valid_subject : String → Bool
valid_subject t = (t == "user") || (t == "user_group")

unfoldable pub valid_object : String → Bool
valid_object t = (t == "user") || (t == "user_group") || (t == "service") || (t == "service_group")

unfoldable pub valid_action : String → Bool
valid_action a = (a == "allow") || (a == "deny")

abbrev pub row_there : Bool → Result Error (Unit {0})
row_there b = if b then ok tt else err not_found

-- Is there a row of the kind with this id?
unfoldable pub assert_exists : String → ℕ → Db → Result Error (Unit {0})
assert_exists kind id db =
    if kind == "user"
    then row_there (any (λ u. u.id == id) db.users)
    else if kind == "user_group"
    then row_there (any (λ g. g.id == id) db.user_groups)
    else if kind == "service"
    then row_there (any (λ s. s.id == id) db.services)
    else if kind == "service_group"
    then row_there (any (λ g. g.id == id) db.service_groups)
    else err invalid_input

-- the WHERE clause of the SELECT
abbrev pub same_pair : CreatePolicyInput → PolicyRule → Bool
same_pair input r =
    (r.subject_type == input.subject_type)
    && (r.subject_id == input.subject_id)
    && (r.object_type == input.object_type)
    && (r.object_id == input.object_id)

abbrev pub rule_of : CreatePolicyInput → ℕ → String → String → PolicyRule
rule_of input id created_at now = record {
  id = id;
  subject_type = input.subject_type;
  subject_id = input.subject_id;
  object_type = input.object_type;
  object_id = input.object_id;
  action = input.action;
  created_at = created_at;
  updated_at = now;
}

abbrev pub set_action : String → String → PolicyRule → PolicyRule
set_action action now r = record r { action = action; updated_at = now }

-- the UPDATE of the rule of the pair, or the INSERT of one
unfoldable pub write_policy : CreatePolicyInput → String → Tx PolicyRule
write_policy input now db = elim (find_first (same_pair input) db.policy_rules) [
  | some old ↦ pure (rule_of input old.id old.created_at now) (record db {
    policy_rules = update (λ r. r.id == old.id) (set_action input.action now) db.policy_rules;
  })
  | none ↦
      let r = rule_of input (db.policy_rules_seq + 1) now now in
      pure r (record db { policy_rules = db.policy_rules ++ r ∷ []; policy_rules_seq = r.id })
]

unfoldable pub create_policy_tx : CreatePolicyInput → String → Tx PolicyRule
create_policy_tx input now = do
  query (assert_exists input.subject_type input.subject_id)
  query (assert_exists input.object_type input.object_id)
  write_policy input now

unfoldable pub create_policy : CreatePolicyInput → String → Store → Result Error PolicyRule × Store
unfolding create_policy_tx
create_policy input now s =
    if not (valid_subject input.subject_type)
      || not (valid_object input.object_type)
      || not (valid_action input.action)
    then (err invalid_input, s)
    else with_tx ChangeKind.policies (create_policy_tx input now) s

-- `RowsAffected` is 0 when no rule has the id.
unfoldable pub delete_policy_tx : ℕ → Tx (Unit {0})
delete_policy_tx id db =
    if any (λ r. r.id == id) db.policy_rules
    then pure tt (without_rules (λ r. r.id == id) db)
    else fail not_found db

unfoldable pub delete_policy : ℕ → Store → Result Error (Unit {0}) × Store
unfolding delete_policy_tx
delete_policy id s = with_tx ChangeKind.policies (delete_policy_tx id) s

unfoldable pub list_policies : Store → List PolicyRule
list_policies s = s.db.policy_rules

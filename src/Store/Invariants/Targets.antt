-- ===== src/Store/Invariants/Targets.antt =====
-- One rule for a subject and an object at most: CreatePolicy (daemon/store/policies.go) sets the
-- action of the rule that is there.
use lightscale.Prelude.{
  ◌≡◌, inl, inr, refl, sym, String, Bool, true, false, ◌&&◌, List, [], ◌∷◌, ◌++◌, ◌==◌, nat_eq,
  string_eq, arith, Bool-cases, eq_of_==, ==_of_eq, any, keep, update, any-append, any-keep,
}
use lightscale.Store.{PolicyRule, Db}
use lightscale.Store.Policies.{set_action}
use lightscale.Store.Steps.{Step}

abbrev pub same_target : PolicyRule → PolicyRule → Bool
same_target q r =
    (r.subject_type == q.subject_type)
    && (r.subject_id == q.subject_id)
    && (r.object_type == q.object_type)
    && (r.object_id == q.object_id)

-- No two of the rules speak of the same subject and object.
abbrev pub Targets : List PolicyRule → Type 0
Targets [] = Unit
Targets (r ∷ rs) = (any (same_target r) rs ≡ false) × Targets rs

keep_absent :
    (p q : PolicyRule → Bool) (rs : List PolicyRule) → any q rs ≡ false → any q (keep p rs) ≡ false
keep_absent p q rs h = elim (Bool-cases (any q (keep p rs))) [
  | inl found ↦ cc (any-keep q p rs found)
  | inr gone ↦ gone
]

Targets-keep : (p : PolicyRule → Bool) (rs : List PolicyRule) → Targets rs → Targets (keep p rs)
unfolding keep
Targets-keep p [] h = tt
Targets-keep p (r ∷ rs) h = elim (Bool-cases (p r)) [
  | inl e ↦ rw e (keep_absent p (same_target r) rs h.0, Targets-keep p rs h.1)
  | inr e ↦ rw e (Targets-keep p rs h.1)
]

module _ (p : PolicyRule → Bool) (action now : String) where
  any-set_action :
      (q : PolicyRule) (rs : List PolicyRule)
      → any (same_target q) (update p (set_action action now) rs) ≡ any (same_target q) rs
  unfolding any update
  any-set_action q [] = refl
  any-set_action q (r ∷ rs) = elim (Bool-cases (p r)) [
    | inl e ↦ rw (e, any-set_action q rs) refl
    | inr e ↦ rw (e, any-set_action q rs) refl
  ]

  Targets-set_action :
      (rs : List PolicyRule) → Targets rs → Targets (update p (set_action action now) rs)
  unfolding update
  Targets-set_action [] h = tt
  Targets-set_action (r ∷ rs) h = elim (Bool-cases (p r)) [
    | inl e ↦ rw (e, any-set_action (set_action action now r) rs) (h.0, Targets-set_action rs h.1)
    | inr e ↦ rw (e, any-set_action r rs) (h.0, Targets-set_action rs h.1)
  ]

same_target_sym : (q r : PolicyRule) → same_target q r ≡ true → same_target r q ≡ true
same_target_sym q r h =
    let a : r.subject_type ≡ q.subject_type =
      eq_of_== r.subject_type q.subject_type (ground arith) in
    let b : r.subject_id ≡ q.subject_id = eq_of_== r.subject_id q.subject_id (ground arith) in
    let c : r.object_type ≡ q.object_type = eq_of_== r.object_type q.object_type (ground arith) in
    let d : r.object_id ≡ q.object_id = eq_of_== r.object_id q.object_id (ground arith) in
    rw
      (
        ==_of_eq q.subject_type r.subject_type (sym a),
        ==_of_eq q.subject_id r.subject_id (sym b),
        ==_of_eq q.object_type r.object_type (sym c),
        ==_of_eq q.object_id r.object_id (sym d),
      )
      refl

Targets-append :
    (rs : List PolicyRule) (q : PolicyRule)
    → any (same_target q) rs ≡ false
    → Targets rs
    → Targets (rs ++ q ∷ [])
unfolding any
Targets-append [] q new h = (refl, tt)
Targets-append (r ∷ rs) q new h = (
  elim (Bool-cases (same_target r q)) [
    | inl e ↦ let back : same_target q r ≡ true = same_target_sym r q e in ground arith
    | inr e ↦ ground (arith, any-append (same_target r) rs (q ∷ []))
  ],
  Targets-append rs q (ground arith) h.1,
)

pub Step-Targets : {db db' : Db} → Step db db' → Targets db.policy_rules → Targets db'.policy_rules
Step-Targets {db} (Step.rule_added input now _ _ _ new) h = Targets-append db.policy_rules _ new h
Step-Targets {db} (Step.rule_set id action now) h =
    Targets-set_action _ action now db.policy_rules h
Step-Targets {db} (Step.rules_dropped p) h = Targets-keep _ db.policy_rules h
Step-Targets (Step.user_added _ _ _ _ _ _) h = h
Step-Targets (Step.user_changed _ _ _ _) h = h
Step-Targets (Step.user_removed _ _) h = h
Step-Targets (Step.group_added _ _ _ _) h = h
Step-Targets (Step.group_changed _ _ _ _) h = h
Step-Targets (Step.group_removed _ _) h = h
Step-Targets (Step.service_added _ _ _ _ _ _ _) h = h
Step-Targets (Step.service_updated _ _ _ _ _ _ _) h = h
Step-Targets (Step.service_removed _ _) h = h
Step-Targets (Step.service_group_added _ _ _ _) h = h
Step-Targets (Step.service_group_changed _ _ _ _) h = h
Step-Targets (Step.service_group_removed _ _) h = h
Step-Targets (Step.user_joined _ _ _ _) h = h
Step-Targets (Step.users_left _) h = h
Step-Targets (Step.service_joined _ _ _ _) h = h
Step-Targets (Step.services_left _) h = h
Step-Targets (Step.ports_cleared _) h = h
Step-Targets (Step.port_added _ _ _ _ _ _) h = h
Step-Targets (Step.setting_set _ _) h = h

-- ===== src/Store/Invariants/Later.antt =====
-- The row ids of daemon/store, which are AUTOINCREMENT: an id that was given, in a later state of the
-- tables.
use lightscale.Prelude.{
  ℕ, ◌+◌, ◌≤◌, ◌≡◌, refl, ◌∙◌, Bool, false, List, [], ◌∷◌, ◌++◌, arith, has, has-append,
  has-keep-false, has-update_same, keep, update, any, nat_eq, string_eq,
}
use lightscale.Store.{Db}
use lightscale.Store.Users.{renamed}
use lightscale.Store.Groups.{group_renamed}
use lightscale.Store.ServiceGroups.{service_group_renamed}
use lightscale.Store.Services.{service_changed}
use lightscale.Store.Policies.{set_action}
use lightscale.Store.Steps.{Step}

-- The last id given does not get smaller, and an id that was given and has no row gets none again.
abbrev pub Used : {A : Type 0} → (A → ℕ) → List A → ℕ → List A → ℕ → Type 0
Used id xs seq ys seq' =
    (seq ≤ seq') × ((k : ℕ) → k ≤ seq → has id k xs ≡ false → has id k ys ≡ false)

module _ {A : Type 0} (id : A → ℕ) (xs : List A) (seq : ℕ) where
  same : Used id xs seq xs seq
  same = (omega arith, λ k l h. h)

  Used_trans :
      (ys zs : List A) (n m : ℕ) → Used id xs seq ys n → Used id ys n zs m → Used id xs seq zs m
  Used_trans ys zs n m (l, f) (r, g) = (omega arith, λ k at h. g k (omega arith) (f k at h))

  Used-append : (x : A) → id x ≡ seq + 1 → Used id xs seq (xs ++ x ∷ []) (id x)
  unfolding has any
  Used-append x next = (omega arith, λ k at h. has-append id k xs (x ∷ []) ∙ ground arith)

  Used-keep : (p : A → Bool) → Used id xs seq (keep p xs) seq
  Used-keep p = (omega arith, λ k at h. has-keep-false id k p xs h)

  Used-update :
      (p : A → Bool) (f : A → A) → ((x : A) → id (f x) ≡ id x) → Used id xs seq (update p f xs) seq
  Used-update p f own = (omega arith, λ k at h. has-update_same id f p k xs own ∙ h)

-- In each table, from the one state to the other.
abbrev pub Later : Db → Db → Type 0
Later db db' =
    Used (λ u. u.id) db.users db.users_seq db'.users db'.users_seq
    × Used (λ g. g.id) db.user_groups db.user_groups_seq db'.user_groups db'.user_groups_seq
    × Used (λ s. s.id) db.services db.services_seq db'.services db'.services_seq
    × Used (λ g. g.id) db.service_groups db.service_groups_seq db'.service_groups
        db'.service_groups_seq
    × Used (λ r. r.id) db.policy_rules db.policy_rules_seq db'.policy_rules db'.policy_rules_seq
    × Used (λ p. p.id) db.service_ports db.service_ports_seq db'.service_ports db'.service_ports_seq

pub refl-Later : (db : Db) → Later db db
refl-Later db = (
  same (λ x. x.id) db.users db.users_seq,
  same (λ x. x.id) db.user_groups db.user_groups_seq,
  same (λ x. x.id) db.services db.services_seq,
  same (λ x. x.id) db.service_groups db.service_groups_seq,
  same (λ x. x.id) db.policy_rules db.policy_rules_seq,
  same (λ x. x.id) db.service_ports db.service_ports_seq,
)

pub trans-Later : (a b c : Db) → Later a b → Later b c → Later a c
trans-Later a b c (us, gs, ss, sgs, rs, ps) (us', gs', ss', sgs', rs', ps') = (
  Used_trans (λ x. x.id) a.users a.users_seq b.users c.users b.users_seq c.users_seq us us',
  Used_trans (λ x. x.id) a.user_groups a.user_groups_seq b.user_groups c.user_groups
      b.user_groups_seq c.user_groups_seq gs gs',
  Used_trans (λ x. x.id) a.services a.services_seq b.services c.services b.services_seq
      c.services_seq ss ss',
  Used_trans (λ x. x.id) a.service_groups a.service_groups_seq b.service_groups c.service_groups
      b.service_groups_seq c.service_groups_seq sgs sgs',
  Used_trans (λ x. x.id) a.policy_rules a.policy_rules_seq b.policy_rules c.policy_rules
      b.policy_rules_seq c.policy_rules_seq rs rs',
  Used_trans (λ x. x.id) a.service_ports a.service_ports_seq b.service_ports c.service_ports
      b.service_ports_seq c.service_ports_seq ps ps',
)

pub Step-Later : {db db' : Db} → Step db db' → Later db db'
Step-Later {db} (Step.user_added u next _ _ _ _) = (
  Used-append (λ x. x.id) db.users db.users_seq u next,
  same (λ x. x.id) db.user_groups db.user_groups_seq,
  same (λ x. x.id) db.services db.services_seq,
  same (λ x. x.id) db.service_groups db.service_groups_seq,
  same (λ x. x.id) db.policy_rules db.policy_rules_seq,
  same (λ x. x.id) db.service_ports db.service_ports_seq,
)
Step-Later {db} (Step.user_changed id to _ _) = (
  Used-update (λ x. x.id) db.users db.users_seq _ (renamed to) (λ x. refl),
  same (λ x. x.id) db.user_groups db.user_groups_seq,
  same (λ x. x.id) db.services db.services_seq,
  same (λ x. x.id) db.service_groups db.service_groups_seq,
  same (λ x. x.id) db.policy_rules db.policy_rules_seq,
  same (λ x. x.id) db.service_ports db.service_ports_seq,
)
Step-Later {db} (Step.user_removed id _) = (
  Used-keep (λ x. x.id) db.users db.users_seq _,
  same (λ x. x.id) db.user_groups db.user_groups_seq,
  same (λ x. x.id) db.services db.services_seq,
  same (λ x. x.id) db.service_groups db.service_groups_seq,
  same (λ x. x.id) db.policy_rules db.policy_rules_seq,
  same (λ x. x.id) db.service_ports db.service_ports_seq,
)
Step-Later {db} (Step.group_added g next _ _) = (
  same (λ x. x.id) db.users db.users_seq,
  Used-append (λ x. x.id) db.user_groups db.user_groups_seq g next,
  same (λ x. x.id) db.services db.services_seq,
  same (λ x. x.id) db.service_groups db.service_groups_seq,
  same (λ x. x.id) db.policy_rules db.policy_rules_seq,
  same (λ x. x.id) db.service_ports db.service_ports_seq,
)
Step-Later {db} (Step.group_changed id to _ _) = (
  same (λ x. x.id) db.users db.users_seq,
  Used-update (λ x. x.id) db.user_groups db.user_groups_seq _ (group_renamed to) (λ x. refl),
  same (λ x. x.id) db.services db.services_seq,
  same (λ x. x.id) db.service_groups db.service_groups_seq,
  same (λ x. x.id) db.policy_rules db.policy_rules_seq,
  same (λ x. x.id) db.service_ports db.service_ports_seq,
)
Step-Later {db} (Step.group_removed id _) = (
  same (λ x. x.id) db.users db.users_seq,
  Used-keep (λ x. x.id) db.user_groups db.user_groups_seq _,
  same (λ x. x.id) db.services db.services_seq,
  same (λ x. x.id) db.service_groups db.service_groups_seq,
  same (λ x. x.id) db.policy_rules db.policy_rules_seq,
  same (λ x. x.id) db.service_ports db.service_ports_seq,
)
Step-Later {db} (Step.service_added s next _ _ _ _ _) = (
  same (λ x. x.id) db.users db.users_seq,
  same (λ x. x.id) db.user_groups db.user_groups_seq,
  Used-append (λ x. x.id) db.services db.services_seq s next,
  same (λ x. x.id) db.service_groups db.service_groups_seq,
  same (λ x. x.id) db.policy_rules db.policy_rules_seq,
  same (λ x. x.id) db.service_ports db.service_ports_seq,
)
Step-Later {db} (Step.service_updated id to _ _ _ _ _) = (
  same (λ x. x.id) db.users db.users_seq,
  same (λ x. x.id) db.user_groups db.user_groups_seq,
  Used-update (λ x. x.id) db.services db.services_seq _ (service_changed to) (λ x. refl),
  same (λ x. x.id) db.service_groups db.service_groups_seq,
  same (λ x. x.id) db.policy_rules db.policy_rules_seq,
  same (λ x. x.id) db.service_ports db.service_ports_seq,
)
Step-Later {db} (Step.service_removed id _) = (
  same (λ x. x.id) db.users db.users_seq,
  same (λ x. x.id) db.user_groups db.user_groups_seq,
  Used-keep (λ x. x.id) db.services db.services_seq _,
  same (λ x. x.id) db.service_groups db.service_groups_seq,
  same (λ x. x.id) db.policy_rules db.policy_rules_seq,
  Used-keep (λ x. x.id) db.service_ports db.service_ports_seq _,
)
Step-Later {db} (Step.service_group_added g next _ _) = (
  same (λ x. x.id) db.users db.users_seq,
  same (λ x. x.id) db.user_groups db.user_groups_seq,
  same (λ x. x.id) db.services db.services_seq,
  Used-append (λ x. x.id) db.service_groups db.service_groups_seq g next,
  same (λ x. x.id) db.policy_rules db.policy_rules_seq,
  same (λ x. x.id) db.service_ports db.service_ports_seq,
)
Step-Later {db} (Step.service_group_changed id to _ _) = (
  same (λ x. x.id) db.users db.users_seq,
  same (λ x. x.id) db.user_groups db.user_groups_seq,
  same (λ x. x.id) db.services db.services_seq,
  Used-update (λ x. x.id) db.service_groups db.service_groups_seq _ (service_group_renamed to)
      (λ x. refl),
  same (λ x. x.id) db.policy_rules db.policy_rules_seq,
  same (λ x. x.id) db.service_ports db.service_ports_seq,
)
Step-Later {db} (Step.service_group_removed id _) = (
  same (λ x. x.id) db.users db.users_seq,
  same (λ x. x.id) db.user_groups db.user_groups_seq,
  same (λ x. x.id) db.services db.services_seq,
  Used-keep (λ x. x.id) db.service_groups db.service_groups_seq _,
  same (λ x. x.id) db.policy_rules db.policy_rules_seq,
  same (λ x. x.id) db.service_ports db.service_ports_seq,
)
Step-Later {db} (Step.rules_dropped _) = (
  same (λ x. x.id) db.users db.users_seq,
  same (λ x. x.id) db.user_groups db.user_groups_seq,
  same (λ x. x.id) db.services db.services_seq,
  same (λ x. x.id) db.service_groups db.service_groups_seq,
  Used-keep (λ x. x.id) db.policy_rules db.policy_rules_seq _,
  same (λ x. x.id) db.service_ports db.service_ports_seq,
)
Step-Later {db} (Step.rule_added _ _ _ _ _ _) = (
  same (λ x. x.id) db.users db.users_seq,
  same (λ x. x.id) db.user_groups db.user_groups_seq,
  same (λ x. x.id) db.services db.services_seq,
  same (λ x. x.id) db.service_groups db.service_groups_seq,
  Used-append (λ x. x.id) db.policy_rules db.policy_rules_seq _ refl,
  same (λ x. x.id) db.service_ports db.service_ports_seq,
)
Step-Later {db} (Step.rule_set id action now) = (
  same (λ x. x.id) db.users db.users_seq,
  same (λ x. x.id) db.user_groups db.user_groups_seq,
  same (λ x. x.id) db.services db.services_seq,
  same (λ x. x.id) db.service_groups db.service_groups_seq,
  Used-update (λ x. x.id) db.policy_rules db.policy_rules_seq _ (set_action action now) (λ x. refl),
  same (λ x. x.id) db.service_ports db.service_ports_seq,
)
Step-Later {db} (Step.ports_cleared _) = (
  same (λ x. x.id) db.users db.users_seq,
  same (λ x. x.id) db.user_groups db.user_groups_seq,
  same (λ x. x.id) db.services db.services_seq,
  same (λ x. x.id) db.service_groups db.service_groups_seq,
  same (λ x. x.id) db.policy_rules db.policy_rules_seq,
  Used-keep (λ x. x.id) db.service_ports db.service_ports_seq _,
)
Step-Later {db} (Step.port_added _ _ _ _ _ _) = (
  same (λ x. x.id) db.users db.users_seq,
  same (λ x. x.id) db.user_groups db.user_groups_seq,
  same (λ x. x.id) db.services db.services_seq,
  same (λ x. x.id) db.service_groups db.service_groups_seq,
  same (λ x. x.id) db.policy_rules db.policy_rules_seq,
  Used-append (λ x. x.id) db.service_ports db.service_ports_seq _ refl,
)
Step-Later {db} (Step.user_joined _ _ _ _) = refl-Later db
Step-Later {db} (Step.users_left _) = refl-Later db
Step-Later {db} (Step.service_joined _ _ _ _) = refl-Later db
Step-Later {db} (Step.services_left _) = refl-Later db
Step-Later {db} (Step.setting_set _ _) = refl-Later db

-- ===== src/Store/Invariants/RowIds.antt =====
-- The row ids of daemon/store, which are AUTOINCREMENT, in one state of the tables.
use lightscale.Prelude.{
  refl, nat_eq, string_eq, Numbered, Numbered-append, Numbered-keep, Numbered-update,
}
use lightscale.Store.{Db}
use lightscale.Store.Users.{renamed}
use lightscale.Store.Groups.{group_renamed}
use lightscale.Store.ServiceGroups.{service_group_renamed}
use lightscale.Store.Services.{service_changed}
use lightscale.Store.Policies.{set_action}
use lightscale.Store.Steps.{Step}

-- In each table the ids are distinct, and none is above the last one that was given.
abbrev pub Ids : Db → Type 0
Ids db =
    Numbered (λ u. u.id) db.users db.users_seq
    × Numbered (λ g. g.id) db.user_groups db.user_groups_seq
    × Numbered (λ s. s.id) db.services db.services_seq
    × Numbered (λ g. g.id) db.service_groups db.service_groups_seq
    × Numbered (λ r. r.id) db.policy_rules db.policy_rules_seq
    × Numbered (λ p. p.id) db.service_ports db.service_ports_seq

pub Step-Ids : {db db' : Db} → Step db db' → Ids db → Ids db'
Step-Ids {db} (Step.user_added u next name_free group_free ip_free service_free)
      (us, gs, ss, sgs, rs, ps) =
    (Numbered-append (λ x. x.id) db.users db.users_seq u next us, gs, ss, sgs, rs, ps)
Step-Ids {db} (Step.user_changed id to unshared own) (us, gs, ss, sgs, rs, ps) = (
  Numbered-update (λ x. x.id) _ (renamed to) db.users db.users_seq (λ x. refl) us,
  gs,
  ss,
  sgs,
  rs,
  ps,
)
Step-Ids {db} (Step.user_removed id _) (us, gs, ss, sgs, rs, ps) =
    (Numbered-keep (λ x. x.id) _ db.users db.users_seq us, gs, ss, sgs, rs, ps)
Step-Ids {db} (Step.group_added g next name_free user_free) (us, gs, ss, sgs, rs, ps) =
    (us, Numbered-append (λ x. x.id) db.user_groups db.user_groups_seq g next gs, ss, sgs, rs, ps)
Step-Ids {db} (Step.group_changed id to unshared own) (us, gs, ss, sgs, rs, ps) = (
  us,
  Numbered-update (λ x. x.id) _ (group_renamed to) db.user_groups db.user_groups_seq (λ x. refl) gs,
  ss,
  sgs,
  rs,
  ps,
)
Step-Ids {db} (Step.group_removed id _) (us, gs, ss, sgs, rs, ps) =
    (us, Numbered-keep (λ x. x.id) _ db.user_groups db.user_groups_seq gs, ss, sgs, rs, ps)
Step-Ids {db} (Step.service_added s next name_free group_free host_free ip_free user_free)
      (us, gs, ss, sgs, rs, ps) =
    (us, gs, Numbered-append (λ x. x.id) db.services db.services_seq s next ss, sgs, rs, ps)
Step-Ids {db} (Step.service_updated id to unshared unshared_host unshared_ip own own_ip)
      (us, gs, ss, sgs, rs, ps) =
    (
      us,
      gs,
      Numbered-update (λ x. x.id) _ (service_changed to) db.services db.services_seq (λ x. refl) ss,
      sgs,
      rs,
      ps,
    )
Step-Ids {db} (Step.service_removed id _) (us, gs, ss, sgs, rs, ps) = (
  us,
  gs,
  Numbered-keep (λ x. x.id) _ db.services db.services_seq ss,
  sgs,
  rs,
  Numbered-keep (λ x. x.id) _ db.service_ports db.service_ports_seq ps,
)
Step-Ids {db} (Step.service_group_added g next name_free service_free) (us, gs, ss, sgs, rs, ps) = (
  us,
  gs,
  ss,
  Numbered-append (λ x. x.id) db.service_groups db.service_groups_seq g next sgs,
  rs,
  ps,
)
Step-Ids {db} (Step.service_group_changed id to unshared own) (us, gs, ss, sgs, rs, ps) = (
  us,
  gs,
  ss,
  Numbered-update (λ x. x.id) _ (service_group_renamed to) db.service_groups db.service_groups_seq
      (λ x. refl) sgs,
  rs,
  ps,
)
Step-Ids {db} (Step.service_group_removed id _) (us, gs, ss, sgs, rs, ps) =
    (us, gs, ss, Numbered-keep (λ x. x.id) _ db.service_groups db.service_groups_seq sgs, rs, ps)
Step-Ids {db} (Step.user_joined _ _ _ _) (us, gs, ss, sgs, rs, ps) = (us, gs, ss, sgs, rs, ps)
Step-Ids {db} (Step.users_left _) (us, gs, ss, sgs, rs, ps) = (us, gs, ss, sgs, rs, ps)
Step-Ids {db} (Step.service_joined _ _ _ _) (us, gs, ss, sgs, rs, ps) = (us, gs, ss, sgs, rs, ps)
Step-Ids {db} (Step.services_left _) (us, gs, ss, sgs, rs, ps) = (us, gs, ss, sgs, rs, ps)
Step-Ids {db} (Step.setting_set _ _) (us, gs, ss, sgs, rs, ps) = (us, gs, ss, sgs, rs, ps)
Step-Ids {db} (Step.rules_dropped _) (us, gs, ss, sgs, rs, ps) =
    (us, gs, ss, sgs, Numbered-keep (λ x. x.id) _ db.policy_rules db.policy_rules_seq rs, ps)
Step-Ids {db} (Step.rule_added _ _ _ _ _ _) (us, gs, ss, sgs, rs, ps) =
    (us, gs, ss, sgs, Numbered-append (λ x. x.id) db.policy_rules db.policy_rules_seq _ refl rs, ps)
Step-Ids {db} (Step.rule_set id action now) (us, gs, ss, sgs, rs, ps) = (
  us,
  gs,
  ss,
  sgs,
  Numbered-update (λ x. x.id) _ (set_action action now) db.policy_rules db.policy_rules_seq
      (λ x. refl) rs,
  ps,
)
Step-Ids {db} (Step.ports_cleared _) (us, gs, ss, sgs, rs, ps) =
    (us, gs, ss, sgs, rs, Numbered-keep (λ x. x.id) _ db.service_ports db.service_ports_seq ps)
Step-Ids {db} (Step.port_added _ _ _ _ _ _) (us, gs, ss, sgs, rs, ps) = (
  us,
  gs,
  ss,
  sgs,
  rs,
  Numbered-append (λ x. x.id) db.service_ports db.service_ports_seq _ refl ps,
)

-- ===== src/Store/Invariants/References/Kept.antt =====
-- Every change to the tables of daemon/store keeps the references whole.
use lightscale.Prelude.{
  refl, [], ◌∷◌, nat_eq, string_eq, All-append, All-keep, All-update, has-keep_other,
}
use lightscale.Store.{Db, mentions}
use lightscale.Store.Users.{renamed, without_user}
use lightscale.Store.Groups.{group_renamed, without_group}
use lightscale.Store.ServiceGroups.{service_group_renamed, is_object, without_service_group}
use lightscale.Store.Services.{service_changed, without_service}
use lightscale.Store.Policies.{set_action}
use lightscale.Store.Steps.{Step}
use lightscale.Store.Invariants.References.{UserMemberOk, ServiceMemberOk, PortOk, References}
use lightscale.Store.Invariants.References.Rules.{
  rule-without_user, rule-without_group, rule-without_service, rule-without_service_group,
}
use lightscale.Store.Invariants.References.Carried.{
  has-append_old, has-update_old, still_there, RefersTo-grows, kept_rules, kept_members, unmoved,
  insert_member-All, port_range, known_protocol,
}

pub Step-References : {db db' : Db} → Step db db' → References db → References db'
Step-References {db} (Step.user_added u _ _ _ _ _) h =
    RefersTo-grows db _ (has-append_old (λ v. v.id) db.users (u ∷ []), λ _ m. m, λ _ m. m, λ _ m. m)
      db.policy_rules db.user_group_members db.service_group_members db.service_ports h
Step-References {db} (Step.user_changed id to _ _) h =
    RefersTo-grows db _
      (has-update_old (λ v. v.id) _ (renamed to) (λ x. refl) db.users, λ _ m. m, λ _ m. m, λ _ m. m)
      db.policy_rules db.user_group_members db.service_group_members db.service_ports h
Step-References {db} (Step.group_added g _ _ _) h =
    RefersTo-grows db _
      (λ _ m. m, has-append_old (λ v. v.id) db.user_groups (g ∷ []), λ _ m. m, λ _ m. m)
      db.policy_rules db.user_group_members db.service_group_members db.service_ports h
Step-References {db} (Step.group_changed id to _ _) h =
    RefersTo-grows db _
      (
        λ _ m. m,
        has-update_old (λ v. v.id) _ (group_renamed to) (λ x. refl) db.user_groups,
        λ _ m. m,
        λ _ m. m,
      )
      db.policy_rules db.user_group_members db.service_group_members db.service_ports h
Step-References {db} (Step.service_added t _ _ _ _ _ _) h =
    RefersTo-grows db _
      (λ _ m. m, λ _ m. m, has-append_old (λ v. v.id) db.services (t ∷ []), λ _ m. m)
      db.policy_rules db.user_group_members db.service_group_members db.service_ports h
Step-References {db} (Step.service_updated id to _ _ _ _ _) h =
    RefersTo-grows db _
      (
        λ _ m. m,
        λ _ m. m,
        has-update_old (λ v. v.id) _ (service_changed to) (λ x. refl) db.services,
        λ _ m. m,
      )
      db.policy_rules db.user_group_members db.service_group_members db.service_ports h
Step-References {db} (Step.service_group_added g _ _ _) h =
    RefersTo-grows db _
      (λ _ m. m, λ _ m. m, λ _ m. m, has-append_old (λ v. v.id) db.service_groups (g ∷ []))
      db.policy_rules db.user_group_members db.service_group_members db.service_ports h
Step-References {db} (Step.service_group_changed id to _ _) h =
    RefersTo-grows db _
      (
        λ _ m. m,
        λ _ m. m,
        λ _ m. m,
        has-update_old (λ v. v.id) _ (service_group_renamed to) (λ x. refl) db.service_groups,
      )
      db.policy_rules db.user_group_members db.service_group_members db.service_ports h
Step-References {db} (Step.user_removed id free) (rs, um, sm, pm) = (
  kept_rules db id (without_user id db) (mentions "user" id) (rule-without_user db id) free rs,
  kept_members db id (UserMemberOk db) (UserMemberOk (without_user id db)) (λ m. m.member_id)
      db.user_group_members
      (λ m b k. (has-keep_other (λ u. u.id) id db.users m.member_id k b.0, b.1)) um,
  sm,
  pm,
)
Step-References {db} (Step.group_removed id free) (rs, um, sm, pm) = (
  kept_rules db id (without_group id db) (mentions "user_group" id) (rule-without_group db id) free
      rs,
  kept_members db id (UserMemberOk db) (UserMemberOk (without_group id db)) (λ m. m.group_id)
      db.user_group_members
      (λ m b k. (b.0, has-keep_other (λ g. g.id) id db.user_groups m.group_id k b.1)) um,
  sm,
  pm,
)
Step-References {db} (Step.service_removed id free) (rs, um, sm, pm) = (
  kept_rules db id (without_service id db) (is_object "service" id) (rule-without_service db id)
      free rs,
  um,
  kept_members db id (ServiceMemberOk db) (ServiceMemberOk (without_service id db))
      (λ m. m.member_id) db.service_group_members
      (λ m b k. (has-keep_other (λ t. t.id) id db.services m.member_id k b.0, b.1)) sm,
  kept_members db id (PortOk db) (PortOk (without_service id db)) (λ p. p.service_id)
      db.service_ports
      (λ p b k. (has-keep_other (λ t. t.id) id db.services p.service_id k b.0, b.1, b.2, b.3)) pm,
)
Step-References {db} (Step.service_group_removed id free) (rs, um, sm, pm) = (
  kept_rules db id (without_service_group id db) (is_object "service_group" id)
      (rule-without_service_group db id) free rs,
  um,
  kept_members db id (ServiceMemberOk db) (ServiceMemberOk (without_service_group id db))
      (λ m. m.group_id) db.service_group_members
      (λ m b k. (b.0, has-keep_other (λ g. g.id) id db.service_groups m.group_id k b.1)) sm,
  pm,
)
Step-References {db} (Step.user_joined user_id group_id u g) h =
    let (rs, um, sm, pm) = unmoved db _ refl refl refl refl h in
    (rs, insert_member-All _ user_id group_id db.user_group_members (u, g) um, sm, pm)
Step-References {db} (Step.users_left p) h =
    let (rs, um, sm, pm) = unmoved db _ refl refl refl refl h in
    (rs, All-keep _ p db.user_group_members um, sm, pm)
Step-References {db} (Step.service_joined service_id group_id t g) h =
    let (rs, um, sm, pm) = unmoved db _ refl refl refl refl h in
    (rs, um, insert_member-All _ service_id group_id db.service_group_members (t, g) sm, pm)
Step-References {db} (Step.services_left p) h =
    let (rs, um, sm, pm) = unmoved db _ refl refl refl refl h in
    (rs, um, All-keep _ p db.service_group_members sm, pm)
Step-References {db} (Step.rules_dropped p) h =
    let (rs, um, sm, pm) = unmoved db _ refl refl refl refl h in
    (All-keep _ _ db.policy_rules rs, um, sm, pm)
Step-References {db} (Step.rule_added input now subject found found_object _) h =
    let (rs, um, sm, pm) = unmoved db _ refl refl refl refl h in
    (
      All-append _ db.policy_rules _ rs (
        (
          subject,
          still_there db _ (λ _ m. m, λ _ m. m, λ _ m. m, λ _ m. m) input.subject_type
              input.subject_id found,
          still_there db _ (λ _ m. m, λ _ m. m, λ _ m. m, λ _ m. m) input.object_type
              input.object_id found_object,
        ),
        tt,
      ),
      um,
      sm,
      pm,
    )
Step-References {db} (Step.rule_set id action now) h =
    let (rs, um, sm, pm) = unmoved db _ refl refl refl refl h in
    (All-update _ _ (set_action action now) db.policy_rules (λ r ok_. ok_) rs, um, sm, pm)
Step-References {db} (Step.ports_cleared id) h =
    let (rs, um, sm, pm) = unmoved db _ refl refl refl refl h in
    (rs, um, sm, All-keep _ _ db.service_ports pm)
Step-References {db} (Step.port_added id p there_ protocol port _) h =
    let (rs, um, sm, pm) = unmoved db _ refl refl refl refl h in
    (
      rs,
      um,
      sm,
      All-append _ db.service_ports _ pm
          ((there_, (port_range p port).0, (port_range p port).1, known_protocol p protocol), tt),
    )
Step-References {db} (Step.setting_set key value) h =
    let (rs, um, sm, pm) = unmoved db _ refl refl refl refl h in (rs, um, sm, pm)

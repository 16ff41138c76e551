-- ===== src/Policy/Build/Tables/Access.antt =====
-- CheckService (daemon/policy/resolver.go) on a freshly built index, against the tables of the store.
use lightscale.Prelude.{
  ℕ, String, ◌≤◌, ◌≡◌, refl, sym, ◌∙◌, ap, ◌↔◌, inl, inr, true, some, [], map, get, nat_eq,
  string_eq, In, All, Distinct, Distinct-map, In-map, row_of_In-map, All-map, All-map_back,
  All-weaken,
}
use lightscale.Store.{User, ServiceRow, PolicyRule, Db, Store}
use lightscale.Store.Users.{list_users}
use lightscale.Store.Services.{Service, with_ports, list_services}
use lightscale.Store.Policies.{list_policies}
use lightscale.Store.Invariants.Always.{IsValid}
use lightscale.Policy.{UserSnapshot, ServiceSnapshot, RuleSnapshot}
use lightscale.Policy.Resolver.{allow, check_service, subject_set, service_object_set}
use lightscale.Policy.Resolver.Evaluate.{Decides, rule_matches}
use lightscale.Policy.Resolver.Access.{ServiceAccess, check_service-allow_iff}
use lightscale.Policy.Build.{build, user_snapshot, service_snapshot, rule_snapshot}
use lightscale.Policy.Build.Filled.{build_lem, get-put_each, row_of_get}
use lightscale.Policy.Build.Tables.{applies, rule_matches-build}
use lightscale.Policy.Build.Tables.Ports.{PortOpen, declared_iff}

-- Why a peer may reach a service, in the rows of the tables.
pub record TableAccess (db : Db) (src_ip dst_vip : String) (port : ℕ) (proto : String)
    : Type 0 where
  pub user : User
  pub service : ServiceRow
  pub rule : PolicyRule
  pub user_there : In user db.users
  pub user_ip : user.ip_address ≡ src_ip
  pub service_there : In service db.services
  pub service_ip : service.ip_address ≡ dst_vip
  pub declared : PortOpen db service.id port proto
  pub rule_there : In rule db.policy_rules
  pub rule_applies : applies db user.id service.id rule ≡ true
  pub last : All (λ q. applies db user.id service.id q ≡ true → q.id ≤ rule.id) db.policy_rules
  pub allows : rule.action ≡ "allow"

module _ (s : Store) (v : IsValid s.db) where
  peer_of_user :
      (u : User) → In u s.db.users → get u.ip_address (build s).peer_by_ip ≡ some (user_snapshot u)
  unfolding list_users
  peer_of_user u n =
      rw (build_lem s) (get-put_each (λ x. x.ip_address) user_snapshot s.db.users [] v.names.2.0 n)

  pub user_of_peer :
      (ip : String) (snap : UserSnapshot)
      → get ip (build s).peer_by_ip ≡ some snap
      → (u : User) × In u s.db.users × (u.ip_address ≡ ip) × (user_snapshot u ≡ snap)
  unfolding list_users get
  user_of_peer ip snap h =
      elim (row_of_get (λ x. x.ip_address) user_snapshot ip snap s.db.users []
        (rw (build_lem s) at h)) [ inl found ↦ found | inr e ↦ cc ]

  vip_of_service :
      (t : ServiceRow)
      → In t s.db.services
      → get t.ip_address (build s).service_by_vip ≡ some (service_snapshot (with_ports s.db t))
  unfolding list_services
  vip_of_service t n = rw (build_lem s) (
      get-put_each (λ x. x.row.ip_address) service_snapshot (map (with_ports s.db) s.db.services) []
        (Distinct-map (with_ports s.db) (λ x. x.row.ip_address) s.db.services v.names.2.1)
        (In-map (with_ports s.db) s.db.services n))

  pub service_of_vip :
      (ip : String) (snap : ServiceSnapshot)
      → get ip (build s).service_by_vip ≡ some snap
      → (t : ServiceRow) × In t s.db.services
        × (t.ip_address ≡ ip)
        × (service_snapshot (with_ports s.db t) ≡ snap)
  unfolding list_services get
  service_of_vip ip snap h =
      elim (row_of_get (λ x. x.row.ip_address) service_snapshot ip snap
        (map (with_ports s.db) s.db.services) [] (rw (build_lem s) at h)) [
          | inl (svc, n, p, q) ↦
              let (t, m, e) = row_of_In-map (with_ports s.db) s.db.services n in
              (
                t,
                m,
                ap (λ (x : Service). x.row.ip_address) (sym e) ∙ p,
                ap service_snapshot (sym e) ∙ q,
              )
          | inr e ↦ cc
        ]

  rules_of : (build s).rules ≡ map rule_snapshot s.db.policy_rules
  unfolding list_policies
  rules_of = rw (build_lem s) refl

  Distinct-rules : Distinct (λ r. r.id) (build s).rules
  Distinct-rules = rw rules_of (Distinct-map rule_snapshot (λ r. r.id) s.db.policy_rules v.ids.4.0)

  All-rules :
      (P : RuleSnapshot → Type 0)
      → All P (build s).rules
      → All (λ q. P (rule_snapshot q)) s.db.policy_rules
  All-rules P h = All-map_back rule_snapshot P s.db.policy_rules (rw rules_of at h)

  All-rules_back :
      (P : RuleSnapshot → Type 0)
      → All (λ q. P (rule_snapshot q)) s.db.policy_rules
      → All P (build s).rules
  All-rules_back P h = rw rules_of (All-map rule_snapshot P s.db.policy_rules h)

  module _ (u : User) (t : ServiceRow) (there_ : In t s.db.services) where
    match :
        (r : PolicyRule)
        → rule_matches
            (subject_set (build s) u.id)
            (service_object_set (build s) t.id)
            (rule_snapshot r)
          ≡ applies s.db u.id t.id r
    match r = rule_matches-build s t there_ v.ids.2.0 u.id r v.references

    rule_of_Decides :
        (x : RuleSnapshot)
        → Decides (subject_set (build s) u.id) (service_object_set (build s) t.id) (build s).rules x
        → (r : PolicyRule) × (x ≡ rule_snapshot r)
          × In r s.db.policy_rules
          × (applies s.db u.id t.id r ≡ true)
          × All (λ q. applies s.db u.id t.id q ≡ true → q.id ≤ r.id) s.db.policy_rules
    rule_of_Decides x d =
        let (r, n, e) = row_of_In-map rule_snapshot s.db.policy_rules (rw rules_of at d.listed) in
        let matching : rule_matches (subject_set (build s) u.id) (service_object_set (build s) t.id)
              (rule_snapshot r)
            ≡ true =
          rw e at d.matching in
        (
          r,
          e,
          n,
          sym (match r) ∙ matching,
          All-weaken _ _ s.db.policy_rules
              (λ q h a. rw (ap (λ (y : RuleSnapshot). y.id) (sym e)) (h (match q ∙ a)))
              (All-rules _ d.last),
        )

    Decides-rule :
        (r : PolicyRule)
        → In r s.db.policy_rules
        → applies s.db u.id t.id r ≡ true
        → All (λ q. applies s.db u.id t.id q ≡ true → q.id ≤ r.id) s.db.policy_rules
        → Decides
            (subject_set (build s) u.id)
            (service_object_set (build s) t.id)
            (build s).rules
            (rule_snapshot r)
    Decides-rule r n a last = record {
      listed = rw rules_of (In-map rule_snapshot s.db.policy_rules n);
      matching = match r ∙ a;
      last =
          All-rules_back _ (All-weaken _ _ s.db.policy_rules (λ q h m. h (sym (match q) ∙ m)) last);
    }

module _ (s : Store) (v : IsValid s.db) (src_ip dst_vip : String) (port : ℕ) (proto : String) where
  tables_of_index :
      ServiceAccess (build s) src_ip dst_vip port proto → TableAccess s.db src_ip dst_vip port proto
  tables_of_index a =
      let (u, nu, pu, qu) = user_of_peer s v src_ip a.user a.known_peer in
      let (t, nt, pt, qt) = service_of_vip s v dst_vip a.svc a.known_vip in
      let (r, e, nr, applied, last) =
        rule_of_Decides s v u t nt a.rule (rw (sym qu, sym qt) at a.decides) in
      record {
        user = u;
        service = t;
        rule = r;
        user_there = nu;
        user_ip = pu;
        service_there = nt;
        service_ip = pt;
        declared = (declared_iff s.db t port proto).0 (rw (sym qt) at a.declared);
        rule_there = nr;
        rule_applies = applied;
        last = last;
        allows = rw e at a.allows;
      }

  index_of_tables :
      TableAccess s.db src_ip dst_vip port proto → ServiceAccess (build s) src_ip dst_vip port proto
  index_of_tables a = record {
    user = user_snapshot a.user;
    svc = service_snapshot (with_ports s.db a.service);
    rule = rule_snapshot a.rule;
    known_peer = rw (sym a.user_ip) (peer_of_user s v a.user a.user_there);
    known_vip = rw (sym a.service_ip) (vip_of_service s v a.service a.service_there);
    declared = (declared_iff s.db a.service port proto).1 a.declared;
    decides =
        Decides-rule s v a.user a.service a.service_there a.rule a.rule_there a.rule_applies a.last;
    allows = a.allows;
  }

  -- On the index that Build makes of a valid store, CheckService answers allow exactly when, in the
  -- tables, the source address is that of a user and the destination that of a service, the table
  -- of ports has a row of the service with the port and the protocol (or none of the service), and
  -- the rule with the largest id among those
  -- whose subject is the user or a group with the user as a member, and whose object is the service
  -- or a group with the service as a member, says "allow".
  pub check_service-build_iff :
      ((check_service (build s) src_ip dst_vip port proto).0 ≡ allow)
      ↔ TableAccess s.db src_ip dst_vip port proto
  check_service-build_iff = (
    λ h.
        tables_of_index
          ((check_service-allow_iff (build s) src_ip dst_vip port proto (Distinct-rules s v)).0 h),
    λ a.
        (check_service-allow_iff (build s) src_ip dst_vip port proto (Distinct-rules s v)).1
          (index_of_tables a),
  )

-- ===== src/Policy/Resolver/Access.antt =====
-- When CheckService (daemon/policy/resolver.go) answers allow.
use lightscale.Prelude.{
  ℕ, ◌≡◌, refl, ◌↔◌, ◌⊎◌, inl, inr, String, Bool, true, ◌&&◌, some, List, [], ◌∷◌, arith,
  Bool-cases, Option-cases, get, In, In_of_any, any, any_of_In, Distinct, nat_eq, string_eq, ◌==◌,
  ==_of_eq, eq_of_==,
}
use lightscale.Policy.{Index, UserSnapshot, ServiceSnapshot, PortSpec, RuleSnapshot}
use lightscale.Policy.Resolver.{
  allow, port_allowed, subject_set, service_object_set, evaluate, check_service,
}
use lightscale.Policy.Resolver.Evaluate.{
  Decides, evaluate_explicit-cases, evaluate_explicit-Decides,
}

-- A service with no declared port is open on all of them.
abbrev pub PortDeclared : List PortSpec → ℕ → String → Type 0
PortDeclared ports port proto =
    (ports ≡ []) ⊎ ((p : PortSpec) × In p ports × (p.port ≡ port) × (p.protocol ≡ proto))

port_allowed_iff :
    (ports : List PortSpec) (port : ℕ) (proto : String)
    → (port_allowed ports port proto ≡ true) ↔ PortDeclared ports port proto
unfolding port_allowed
port_allowed_iff [] port proto = (λ _. inl refl, λ _. refl)
port_allowed_iff (p ∷ ps) port proto = (to, from)
  where
    test : PortSpec → Bool
    test q = (q.port == port) && (q.protocol == proto)

    to : any test (p ∷ ps) ≡ true → PortDeclared (p ∷ ps) port proto
    to h =
        let (q, m, t) = In_of_any test (p ∷ ps) h in
        inr (q, m, eq_of_== q.port port (ground arith), eq_of_== q.protocol proto (ground arith))

    from : PortDeclared (p ∷ ps) port proto → any test (p ∷ ps) ≡ true
    from (inl e) = cc
    from (inr (q, m, a, b)) =
        any_of_In test (p ∷ ps) m (rw (==_of_eq q.port port a, ==_of_eq q.protocol proto b) refl)

-- Why a peer may reach a service.
pub record ServiceAccess (idx : Index) (src_ip dst_vip : String) (port : ℕ) (proto : String)
    : Type 0 where
  pub user : UserSnapshot
  pub svc : ServiceSnapshot
  pub rule : RuleSnapshot
  pub known_peer : get src_ip idx.peer_by_ip ≡ some user
  pub known_vip : get dst_vip idx.service_by_vip ≡ some svc
  pub declared : PortDeclared svc.ports port proto
  pub decides : Decides (subject_set idx user.id) (service_object_set idx svc.id) idx.rules rule
  pub allows : rule.action ≡ "allow"

module _ (idx : Index) (src_ip dst_vip : String) (port : ℕ) (proto : String) where
  service_access :
      (check_service idx src_ip dst_vip port proto).0 ≡ allow
      → ServiceAccess idx src_ip dst_vip port proto
  unfolding check_service evaluate
  service_access h = elim (Option-cases (get src_ip idx.peer_by_ip)) [
    | inl e ↦ ground arith
    | inr (user, eu) ↦ elim (Option-cases (get dst_vip idx.service_by_vip)) [
      | inl e ↦ ground arith
      | inr (svc, es) ↦ elim (Bool-cases (port_allowed svc.ports port proto)) [
        | inr e ↦ ground arith
        | inl ep ↦
            elim (evaluate_explicit-cases (subject_set idx user.id) (service_object_set idx svc.id)
              idx) [
                | inl (e, _) ↦ ground arith
                | inr (r, d, e) ↦ record {
                  user = user;
                  svc = svc;
                  rule = r;
                  known_peer = eu;
                  known_vip = es;
                  declared = (port_allowed_iff svc.ports port proto).0 ep;
                  decides = d;
                  allows = eq_of_== r.action "allow" (ground arith);
                }
              ]
      ]
    ]
  ]

  allow_service :
      Distinct (λ r. r.id) idx.rules
      → ServiceAccess idx src_ip dst_vip port proto
      → (check_service idx src_ip dst_vip port proto).0 ≡ allow
  unfolding check_service evaluate
  allow_service distinct a = ground (
    arith,
    a.known_peer,
    a.known_vip,
    (port_allowed_iff a.svc.ports port proto).1 a.declared,
    evaluate_explicit-Decides (subject_set idx a.user.id) (service_object_set idx a.svc.id) idx
        a.rule distinct a.decides,
    ==_of_eq a.rule.action "allow" a.allows,
  )

  -- With distinct rule ids, a peer may reach a service exactly when its address is a user's, the
  -- destination is a service's, the port and protocol are declared (or the service declares none),
  -- and the rule with the largest id among those that speak of the user or its groups and of the
  -- service or its groups says "allow".
  pub check_service-allow_iff :
      Distinct (λ r. r.id) idx.rules
      → ((check_service idx src_ip dst_vip port proto).0 ≡ allow)
        ↔ ServiceAccess idx src_ip dst_vip port proto
  check_service-allow_iff distinct = (service_access, allow_service distinct)

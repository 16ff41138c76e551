-- ===== src/Policy/Build/Reaped.antt =====
-- The flows to services that Reap (daemon/policy/flowtable.go) leaves after the index was built anew.
use lightscale.Prelude.{
  ℕ, ◌≡◌, sym, ◌∙◌, ap, inl, inr, true, some, [], map, get, nat_eq, string_eq, ==_of_eq, In, All_at,
  keep, keep_passes, row_of_In-map, Option-cases, arith,
}
use lightscale.Store.{User, ServiceRow, Store}
use lightscale.Store.Users.{list_users}
use lightscale.Store.Services.{Service, with_ports, list_services}
use lightscale.Store.Invariants.Always.{IsValid}
use lightscale.Policy.{UserSnapshot, ServiceSnapshot, Index}
use lightscale.Policy.Resolver.{allow, check_service}
use lightscale.Policy.FlowTable.{Flow, FlowTable, IsValid as IsValidTable, reap, allowed}
use lightscale.Policy.FlowTable.Laws.{flows-reap}
use lightscale.Policy.Build.{build, user_snapshot, service_snapshot}
use lightscale.Policy.Build.Filled.{build_lem, row_of_get}
use lightscale.Policy.Build.Tables.Access.{TableAccess, check_service-build_iff}

module _ (idx : Index) (f : Flow) where
  -- An allowed flow to a service: the user and the service are in the index, and CheckService allows.
  allowed_service :
      f.object_type ≡ "service"
      → allowed idx f ≡ true
      → (u : UserSnapshot) × (t : ServiceSnapshot) × (get f.src_user_id idx.user_by_id ≡ some u)
        × (get f.object_id idx.service_by_id ≡ some t)
        × ((check_service idx u.ip_address t.ip_address f.port f.protocol).0 ≡ allow)
  unfolding allowed
  allowed_service kind h = elim (Option-cases (get f.src_user_id idx.user_by_id)) [
    | inl e ↦ ground arith
    | inr (u, eu) ↦ elim (Option-cases (get f.object_id idx.service_by_id)) [
      | inl e ↦ ground (arith, ==_of_eq f.object_type "service" kind)
      | inr (t, et) ↦ (u, t, eu, et, ground (arith, ==_of_eq f.object_type "service" kind))
    ]
  ]

module _ (s : Store) where
  user_with_id :
      (id : ℕ) (snap : UserSnapshot)
      → get id (build s).user_by_id ≡ some snap
      → (u : User) × In u s.db.users × (u.id ≡ id) × (user_snapshot u ≡ snap)
  unfolding list_users get
  user_with_id id snap h =
      elim (row_of_get (λ x. x.id) user_snapshot id snap s.db.users [] (rw (build_lem s) at h)) [
        | inl found ↦ found
        | inr e ↦ cc
      ]

  service_with_id :
      (id : ℕ) (snap : ServiceSnapshot)
      → get id (build s).service_by_id ≡ some snap
      → (t : ServiceRow) × In t s.db.services
        × (t.id ≡ id)
        × (service_snapshot (with_ports s.db t) ≡ snap)
  unfolding list_services get
  service_with_id id snap h =
      elim (row_of_get (λ x. x.row.id) service_snapshot id snap
        (map (with_ports s.db) s.db.services) [] (rw (build_lem s) at h)) [
          | inl (svc, n, p, q) ↦
              let (t, m, e) = row_of_In-map (with_ports s.db) s.db.services n in
              (t, m, ap (λ (x : Service). x.row.id) (sym e) ∙ p, ap service_snapshot (sym e) ∙ q)
          | inr e ↦ cc
        ]

  -- A flow to a service that the index allows is, in the tables, one of a user that has access.
  abbrev pub Backed : Flow → Type 0
  Backed f =
      (u : User) × (svc : ServiceRow) × In u s.db.users
      × (u.id ≡ f.src_user_id)
      × In svc s.db.services
      × (svc.id ≡ f.object_id)
      × TableAccess s.db u.ip_address svc.ip_address f.port f.protocol

  pub allowed-Backed :
      (f : Flow) → IsValid s.db → f.object_type ≡ "service" → allowed (build s) f ≡ true → Backed f
  allowed-Backed f v kind h =
      let (us, ts, eu, et, a) = allowed_service (build s) f kind h in
      let (u, nu, pu, qu) = user_with_id f.src_user_id us eu in
      let (svc, ns, ps, qs) = service_with_id f.object_id ts et in
      (
        u,
        svc,
        nu,
        pu,
        ns,
        ps,
        (check_service-build_iff s v u.ip_address svc.ip_address f.port f.protocol).0
            (rw (sym qu, sym qs) at a),
      )

  -- After Reap with the index that Build makes of a valid store, every flow to a service that is left
  -- in a valid table is one of a user and to a service that are in the tables, and the tables give
  -- that user access to that service on the flow's port and protocol.
  pub reap-build :
      (t : FlowTable) (id : ℕ) (f : Flow)
      → IsValid s.db
      → IsValidTable t
      → In (id, f) (reap t (build s)).0.flows
      → f.object_type ≡ "service"
      → (u : User) × (svc : ServiceRow) × In u s.db.users
        × (u.id ≡ f.src_user_id)
        × In svc s.db.services
        × (svc.id ≡ f.object_id)
        × TableAccess s.db u.ip_address svc.ip_address f.port f.protocol
  reap-build t id f v vt n kind =
      let kept : In (id, f) (keep (λ e. allowed (build s) e.1) t.flows) =
        rw (flows-reap t (build s) vt) at n in
      let ok_ : allowed (build s) f ≡ true =
        All_at _ (keep (λ e. allowed (build s) e.1) t.flows) (keep_passes _ t.flows) kept in
      allowed-Backed f v kind ok_

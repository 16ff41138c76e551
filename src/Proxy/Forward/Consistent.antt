-- ===== src/Proxy/Forward/Consistent.antt =====
-- The snapshots of an index (daemon/policy/index.go) as its maps have them.
use lightscale.Prelude.{◌≡◌, some, String, [], map, get, nat_eq, string_eq, In-map, Distinct-map}
use lightscale.Store.{Store}
use lightscale.Store.Users.{list_users}
use lightscale.Store.Services.{with_ports, list_services}
use lightscale.Store.Invariants.Always.{IsValid}
use lightscale.Policy.{UserSnapshot, ServiceSnapshot, Index}
use lightscale.Policy.Build.{build, user_snapshot, service_snapshot}
use lightscale.Policy.Build.Filled.{get-put_each, build_lem}
use lightscale.Policy.Build.Tables.Access.{user_of_peer, service_of_vip}

-- A snapshot that is found by its address is found by its id, and has that address.
pub record Consistent (idx : Index) : Type 0 where
  pub user :
      (ip : String) (u : UserSnapshot)
      → get ip idx.peer_by_ip ≡ some u
      → (u.ip_address ≡ ip) × (get u.id idx.user_by_id ≡ some u)
  pub service :
      (vip : String) (t : ServiceSnapshot)
      → get vip idx.service_by_vip ≡ some t
      → (t.ip_address ≡ vip) × (get t.id idx.service_by_id ≡ some t)

module _ (s : Store) (v : IsValid s.db) where
  consistent_user :
      (ip : String) (u : UserSnapshot)
      → get ip (build s).peer_by_ip ≡ some u
      → (u.ip_address ≡ ip) × (get u.id (build s).user_by_id ≡ some u)
  unfolding list_users
  consistent_user ip u h =
      let (x, m, p, q) = user_of_peer s v ip u h in
      let there : get x.id (build s).user_by_id ≡ some (user_snapshot x) =
        rw (build_lem s) (get-put_each (λ x. x.id) user_snapshot s.db.users [] v.ids.0.0 m) in
      rw (← q) (p, there)

  consistent_service :
      (vip : String) (t : ServiceSnapshot)
      → get vip (build s).service_by_vip ≡ some t
      → (t.ip_address ≡ vip) × (get t.id (build s).service_by_id ≡ some t)
  unfolding list_services
  consistent_service vip t h =
      let (x, m, p, q) = service_of_vip s v vip t h in
      let there : get x.id (build s).service_by_id ≡ some (service_snapshot (with_ports s.db x)) =
        rw (build_lem s) (
          get-put_each (λ x. x.row.id) service_snapshot (map (with_ports s.db) s.db.services) []
            (Distinct-map (with_ports s.db) (λ x. x.row.id) s.db.services v.ids.2.0)
            (In-map (with_ports s.db) s.db.services m)) in
      rw (← q) (p, there)

  -- Build of a valid store makes such an index.
  pub Consistent-build : Consistent (build s)
  Consistent-build = record { user = consistent_user; service = consistent_service }

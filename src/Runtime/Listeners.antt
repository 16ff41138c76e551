-- ===== src/Runtime/Listeners.antt =====
-- daemon/runtime/listeners.go: the virtual addresses that the daemon listens on.
-- The network device is a parameter: a state, and what AddVIP and RemoveVIP do to it and whether they
-- succeed. `dispatcherChecker` and the accept functions are not modelled.
pub mod Addresses
mod Tests
use lightscale.Prelude.{
  ℕ, Bool, true, false, Option, none, some, List, [], ◌∷◌, Map, get, put, nat_eq,
}
use lightscale.Netip.{Addr}
use lightscale.Netip.Parse.{parse_addr}
use lightscale.Policy.{ServiceSnapshot}

module _ {D : Type 0} (add_vip remove_vip : Addr → D → Bool × D) where
  -- the loop over `current`: RemoveVIP for what is no longer wanted
  pub close_gone : Map ℕ ServiceSnapshot → Map ℕ Addr → D → Map ℕ Addr × D
  close_gone want [] dev = ([], dev)
  close_gone want ((key, vip) ∷ current) dev = elim (get key want) [
    | some _ ↦ let (rest, dev') = close_gone want current dev in ((key, vip) ∷ rest, dev')
    | none ↦ close_gone want current (remove_vip vip dev).1
  ]

  -- the loop over `want`: AddVIP for what is new
  pub open_new : Map ℕ ServiceSnapshot → Map ℕ Addr → D → Map ℕ Addr × D
  open_new [] current dev = (current, dev)
  open_new ((key, svc) ∷ want) current dev = elim (get key current) [
    | some _ ↦ open_new want current dev
    | none ↦ elim (parse_addr svc.ip_address) [
      | none ↦ open_new want current dev
      | some vip ↦
          let (added, dev') = add_vip vip dev in
          elim added [
            | true ↦ open_new want (put key vip current) dev'
            | false ↦ open_new want current dev'
          ]
    ]
  ]

  -- `want` is the index's ServiceByID
  pub reconcile : Map ℕ ServiceSnapshot → Map ℕ Addr → D → Map ℕ Addr × D
  unfolding close_gone open_new
  reconcile want current dev =
      let (left, dev') = close_gone want current dev in open_new want left dev'

  -- `closeAll`
  pub close_listeners : Map ℕ Addr → D → Map ℕ Addr × D
  close_listeners [] dev = ([], dev)
  close_listeners ((key, vip) ∷ current) dev = close_listeners current (remove_vip vip dev).1

-- ===== src/Runtime/Listeners/Tests.antt =====
-- `reconcile` (daemon/runtime/listeners.go) with a device that keeps the list of its addresses.
use lightscale.Prelude.{
  ◌≡◌, refl, Bool, true, some, none, List, [], ◌∷◌, Map, ℕ, get, if◌then◌else◌, ◌*◌, ◌^◌, ◌+◌, here,
  Distinct, has, nat_eq,
}
use lightscale.Netip.{Addr, v4}
use lightscale.Netip.Parse.{parse_addr}
use lightscale.Policy.{ServiceSnapshot}
use lightscale.Policy.Sample.{wiki}
use lightscale.Runtime.Listeners.{close_gone, open_new, reconcile}
use lightscale.Runtime.Listeners.Addresses.{known, reconcile-listener, reconcile-added}

abbrev add_vip : Addr → List Addr → Bool × List Addr
add_vip a dev = (true, a ∷ dev)

abbrev remove_vip : Addr → List Addr → Bool × List Addr
remove_vip a dev = (true, dev)

abbrev old_vip : Addr
old_vip = v4 (10 * 2 ^ 24 + 9)

abbrev wiki_vip : Addr
wiki_vip = v4 (10 * 2 ^ 24 + 1 * 2 ^ 16 + 5)

-- the address of the wiki before it was changed
abbrev stale : Map ℕ Addr
stale = (1, old_vip) ∷ []

kept_old : (reconcile add_vip remove_vip ((1, wiki) ∷ []) stale []).0 ≡ stale
unfolding reconcile close_gone open_new get
kept_old = refl

stale_listener : get 1 stale ≡ some old_vip
unfolding get
stale_listener = refl

reconcile-listener_example :
    get 1 (reconcile add_vip remove_vip ((1, wiki) ∷ []) stale []).0
    ≡ (if known 1 ((1, wiki) ∷ []) then some old_vip else none)
reconcile-listener_example =
    reconcile-listener add_vip remove_vip ((1, wiki) ∷ []) stale [] 1 old_vip stale_listener

parsed_vip : parse_addr "10.1.0.5" ≡ some wiki_vip
unfolding parse_addr
parsed_vip = refl

abbrev services : Map ℕ ServiceSnapshot
services = (1, wiki) ∷ []

abbrev nothing : Map ℕ Addr
nothing = []

alone : Distinct (λ e. e.0) services
unfolding has
alone = (refl, tt)

no_listener : get 1 nothing ≡ none
unfolding get
no_listener = refl

reconcile-added_example : get 1 (reconcile add_vip remove_vip services nothing []).0 ≡ some wiki_vip
reconcile-added_example =
    reconcile-added add_vip remove_vip services nothing [] 1 wiki wiki_vip (λ a d. refl) alone
      (here refl) parsed_vip no_listener

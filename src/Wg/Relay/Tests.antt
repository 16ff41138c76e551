-- ===== src/Wg/Relay/Tests.antt =====
-- A packet of a small network in the hands of daemon/wg/relay.go.
use lightscale.Prelude.{ℕ, ◌≡◌, ◌↔◌, refl, true, some, List, [], ◌∷◌, has}
use lightscale.Netip.{Addr, v4}
use lightscale.Policy.Sample.{office}
use lightscale.Wg.Relay.{Relay, handle}
use lightscale.Wg.Relay.Relayed.{ToClient, Relayable, handle-kept_iff, handle-injected_iff}

abbrev relay : Relay
relay = record { daemon_ip = v4 167772161; client_cidr = record { addr = v4 167772160; bits = 24 } }

-- from Ann to Bob, only the header
abbrev packet : List ℕ
packet = 69 ∷ 0 ∷ 0 ∷ 20 ∷ 0 ∷ 0 ∷ 0 ∷ 0 ∷ 64 ∷ 17 ∷ 0 ∷ 0 ∷ 10 ∷ 0 ∷ 0 ∷ 2 ∷ 10 ∷ 0 ∷ 0 ∷ 3 ∷ []

handle-kept_iff_example :
    ((handle relay office packet).0 ≡ true)
    ↔ ((src : Addr) × (dst : Addr) × ToClient relay packet src dst)
handle-kept_iff_example = handle-kept_iff relay office packet

handle-injected_iff_example :
    ((handle relay office packet).1 ≡ some packet)
    ↔ ((packet ≡ packet) × Relayable relay office packet)
unfolding has
handle-injected_iff_example = handle-injected_iff relay office packet packet (refl, (refl, tt))

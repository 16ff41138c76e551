-- ===== src/Wg/Relay.antt =====
-- daemon/wg/relay.go: packets that go from one peer to another. A packet is a list of bytes; the
-- index that the policy holder has at the time is an argument.
pub mod Layout
pub mod Relayed
mod Tests
use lightscale.Prelude.{
  ℕ, zero, suc, ◌+◌, ◌*◌, ◌/◌, String, Bool, true, false, ◌&&◌, not, Option, none, some, List, [],
  ◌∷◌, ltb, ◌==◌, nat_eq, string_eq, if◌then◌else◌, length, get, Map,
}
use lightscale.Netip.{Addr, zero_addr, v4, v6, Prefix, contains, unmap}
use lightscale.Netip.Text.{to_string}
use lightscale.Netip.Parse.{parse_addr, parse_prefix}
use lightscale.Policy.{Index, UserSnapshot}
use lightscale.Policy.FlowTable.{is_allow}
use lightscale.Policy.Resolver.{check_peer}

pub record Relay : Type 0 where
  pub daemon_ip : Addr
  pub client_cidr : Prefix

abbrev relay_of : Option Prefix → Option Addr → Option Relay
relay_of (some prefix) (some addr) = some (record { daemon_ip = addr; client_cidr = prefix })
relay_of _ _ = none

unfoldable pub new_relay : String → String → Option Relay
new_relay client_subnet daemon_ip = relay_of (parse_prefix client_subnet) (parse_addr daemon_ip)

-- `packet[n:]`, for an `n` within the packet
unfoldable pub from : ℕ → List ℕ → List ℕ
from zero bytes = bytes
from (suc n) [] = []
from (suc n) (b ∷ bytes) = from n bytes

-- `AddrFromSlice` of the first four bytes
abbrev pub addr_at : List ℕ → Option Addr
addr_at (a ∷ b ∷ c ∷ d ∷ _) = some (v4 (((a * 256 + b) * 256 + c) * 256 + d))
addr_at _ = none

abbrev both : Option Addr → Option Addr → Option (Addr × Addr)
both (some src) (some dst) = some (unmap src, unmap dst)
both _ _ = none

unfoldable pub parse_ipv4 : List ℕ → Option (Addr × Addr)
unfolding from
parse_ipv4 packet =
    if ltb (length packet) 20
    then none
    else both (addr_at (from 12 packet)) (addr_at (from 16 packet))

-- Go's `==` on `Addr`
abbrev pub same_addr : Addr → Addr → Bool
same_addr zero_addr zero_addr = true
same_addr (v4 m) (v4 n) = m == n
same_addr (v6 m z) (v6 n zone) = (m == n) && (z == zone)
same_addr _ _ = false

-- `packet[0] >> 4`
abbrev pub version : List ℕ → ℕ
version [] = 0
version (b ∷ _) = b / 16

abbrev pub is_known : Option UserSnapshot → Bool
is_known none = false
is_known (some _) = true

-- the rest of `Handle`, with the addresses
unfoldable pub handle_between :
    Relay → Index → List ℕ → Option (Addr × Addr) → Bool × Option (List ℕ)
handle_between r idx packet none = (false, none)
handle_between r idx packet (some (src, dst)) =
    if same_addr dst r.daemon_ip
    then (false, none)
    else if not (contains r.client_cidr dst)
    then (false, none)
    else if same_addr src dst
    then (true, none)
    else if not (is_known (get (to_string dst) idx.peer_by_ip))
    then (true, none)
    else if not (is_allow (check_peer idx (to_string src) (to_string dst)).0)
    then (true, none)
    else (true, some packet)

-- the result of `Handle`, whether the network stack shall not see the packet, and what is injected
unfoldable pub handle : Relay → Index → List ℕ → Bool × Option (List ℕ)
unfolding parse_ipv4 handle_between
handle r idx packet =
    if ltb (length packet) 20
    then (false, none)
    else if not (version packet == 4)
    then (false, none)
    else handle_between r idx packet (parse_ipv4 packet)

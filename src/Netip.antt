-- ===== src/Netip.antt =====
-- The parts of Go's package net/netip that the daemon uses: addresses and prefixes, and the classes
-- of addresses. Their text is in the child modules.
pub mod Subnet
pub mod Text
pub mod Parse
use Prim.Native.String.{compare}
use text.Mathlib.Text.{is_lt}
use lightscale.Prelude.{
  ℕ, ◌+◌, ◌-◌, ◌/◌, ◌*◌, ◌^◌, ◌%◌, String, Bool, true, false, ◌&&◌, ltb, ◌==◌, nat_eq, string_eq,
  if◌then◌else◌,
}

-- The zero `Addr`, an IPv4 address as a 32-bit number, or an IPv6 address as a 128-bit number with
-- its zone.
pub data Addr : Type 0 where
  zero_addr : Addr
  v4 : ℕ → Addr
  v6 : ℕ → String → Addr

pub record Prefix : Type 0 where
  pub addr : Addr
  pub bits : ℕ

abbrev pub is4 : Addr → Bool
is4 (v4 n) = true
is4 _ = false

abbrev pub mapped_base : ℕ
mapped_base = 0xffff * 2 ^ 32

-- `Is4In6`: ::ffff:0:0/96
abbrev pub is_4_in_6 : ℕ → Bool
is_4_in_6 n = n / 2 ^ 32 == 0xffff

abbrev pub unmap : Addr → Addr
unmap zero_addr = zero_addr
unmap (v4 n) = v4 n
unmap (v6 n zone) = if is_4_in_6 n then v4 (n % 2 ^ 32) else v6 n zone

-- `Next`: the zero `Addr` after the last address
unfoldable pub next : Addr → Addr
next zero_addr = zero_addr
next (v4 n) = if n + 1 == 2 ^ 32 then zero_addr else v4 (n + 1)
next (v6 n zone) = if n + 1 == 2 ^ 128 then zero_addr else v6 (n + 1) zone

-- `Less` orders by bit length first: the zero `Addr`, then IPv4, then IPv6.
unfoldable pub less : Addr → Addr → Bool
less zero_addr zero_addr = false
less zero_addr _ = true
less (v4 m) zero_addr = false
less (v4 m) (v4 n) = ltb m n
less (v4 m) (v6 n zone) = true
less (v6 m z) (v6 n zone) = if m == n then is_lt (compare z zone) else ltb m n
less (v6 m z) _ = false

-- `Masked`
unfoldable pub masked : Prefix → Prefix
masked p = record p {
  addr = elim p.addr [
    | zero_addr ↦ zero_addr
    | v4 n ↦ v4 (n / 2 ^ (32 - p.bits) * 2 ^ (32 - p.bits))
    | v6 n zone ↦ v6 (n / 2 ^ (128 - p.bits) * 2 ^ (128 - p.bits)) ""
  ];
}

-- `Contains`: an address with a zone is in no prefix, nor is one of the other family.
same_network : ℕ → Addr → Addr → Bool
same_network bits (v4 m) (v4 n) = m / 2 ^ (32 - bits) == n / 2 ^ (32 - bits)
same_network bits (v6 m _) (v6 n zone) =
    (zone == "") && (m / 2 ^ (128 - bits) == n / 2 ^ (128 - bits))
same_network bits _ _ = false

unfoldable pub contains : Prefix → Addr → Bool
unfolding same_network
contains p ip = same_network p.bits p.addr ip

-- The classes of addresses. All but `IsUnspecified` look at a mapped address as at an IPv4 one.
loopback : Addr → Bool
loopback zero_addr = false
loopback (v4 n) = n / 2 ^ 24 == 127
loopback (v6 n zone) = n == 1

unfoldable pub is_loopback : Addr → Bool
unfolding loopback
is_loopback ip = loopback (unmap ip)

link_local_unicast : Addr → Bool
link_local_unicast zero_addr = false
link_local_unicast (v4 n) = n / 2 ^ 16 == 169 * 256 + 254
link_local_unicast (v6 n zone) = n / 2 ^ 118 == 0x3fa

unfoldable pub is_link_local_unicast : Addr → Bool
unfolding link_local_unicast
is_link_local_unicast ip = link_local_unicast (unmap ip)

link_local_multicast : Addr → Bool
link_local_multicast zero_addr = false
link_local_multicast (v4 n) = n / 2 ^ 8 == 224 * 2 ^ 16
link_local_multicast (v6 n zone) = (n / 2 ^ 120 == 0xff) && ((n / 2 ^ 112) % 16 == 2)

unfoldable pub is_link_local_multicast : Addr → Bool
unfolding link_local_multicast
is_link_local_multicast ip = link_local_multicast (unmap ip)

multicast : Addr → Bool
multicast zero_addr = false
multicast (v4 n) = n / 2 ^ 28 == 14
multicast (v6 n zone) = n / 2 ^ 120 == 0xff

unfoldable pub is_multicast : Addr → Bool
unfolding multicast
is_multicast ip = multicast (unmap ip)

unfoldable pub is_unspecified : Addr → Bool
is_unspecified zero_addr = false
is_unspecified (v4 n) = n == 0
is_unspecified (v6 n zone) = (n == 0) && (zone == "")

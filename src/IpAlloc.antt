-- ===== src/IpAlloc.antt =====
-- daemon/ipalloc/allocator.go: the lowest free address of an IPv4 subnet.
-- The map `taken` and the set of reserved addresses are the lists of their keys. The loop of
-- `Allocate` runs on fuel, one more than the addresses from the first candidate to the broadcast
-- address.
pub mod Broadcast
pub mod Lowest
pub mod Inside
mod Tests
use lightscale.Prelude.{
  ℕ, zero, suc, ◌+◌, ◌-◌, ◌/◌, ◌*◌, ◌^◌, ◌%◌, String, Bool, true, false, not, Option, none, some,
  List, [], ◌∷◌, any, ◌==◌, nat_eq, string_eq, if◌then◌else◌,
}
use lightscale.Prelude.Result.{Result, ok, err, ◌>>=◌}
use lightscale.Netip.{Addr, zero_addr, v4, v6, Prefix, is4, next, less, masked, contains}
use lightscale.Netip.Text.{to_string}
use lightscale.Netip.Parse.{parse_addr, parse_prefix}

pub data AllocError : Type 0 where
  bad_cidr not_ipv4 bad_reserved subnet_exhausted bad_ip : AllocError
  -- the fuel ran out, where the source would still be in its loop
  out_of_fuel : AllocError

pub listed : String → List String → Bool
listed key keys = any (λ k. k == key) keys

-- the loop over the reserved addresses
pub reserved_set : List String → Result AllocError (List String)
reserved_set [] = ok []
reserved_set (r ∷ rs) = if r == "" then reserved_set rs else elim (parse_addr r) [
  | none ↦ err bad_reserved
  | some addr ↦ (do set ← reserved_set rs; ok (to_string addr ∷ set))
]

-- `b |= 1 << i` on the 32-bit number that the four bytes stand for
pub set_bit : ℕ → ℕ → ℕ
set_bit n i = if (n / 2 ^ i) % 2 == 0 then n + 2 ^ i else n

-- the loop of `lastAddr` from bit `i` on, `left` bits
pub set_bits : ℕ → ℕ → ℕ → ℕ
unfolding set_bit
set_bits n i zero = n
set_bits n i (suc left) = set_bits (set_bit n i) (i + 1) left

pub last_addr : Prefix → Addr
unfolding set_bits
last_addr p = elim (masked p).addr [ v4 n ↦ v4 (set_bits n 0 (32 - p.bits)) | _ ↦ zero_addr ]

-- The loop of `Allocate`. It runs out of fuel only for the single address 255.255.255.255 with the text
-- "invalid IP" taken or reserved: `Next` stays at the zero `Addr` then, and the source's loop never ends.
pub scan : ℕ → Addr → Addr → List String → List String → Result AllocError String
scan zero candidate broadcast taken reserved = err out_of_fuel
scan (suc fuel) candidate broadcast taken reserved =
    let rest = scan fuel (next candidate) broadcast taken reserved in
    if not (less candidate broadcast)
    then err subnet_exhausted
    else if listed (to_string candidate) taken
    then rest
    else if listed (to_string candidate) reserved
    then rest
    else ok (to_string candidate)

abbrev pub value : Addr → ℕ
value (v4 n) = n
value _ = 0

pub allocate : String → List String → List String → Result AllocError String
allocate cidr taken reserved = elim (parse_prefix cidr) [
  | none ↦ err bad_cidr
  | some prefix ↦ if not (is4 prefix.addr) then err not_ipv4 else (do
    set ← reserved_set reserved
    let network = (masked prefix).addr
    let broadcast = last_addr prefix
    scan (suc (value broadcast - value network)) (next network) broadcast taken set)
]

pub is_in_prefix : String → String → Result AllocError Bool
is_in_prefix cidr ip = elim (parse_prefix cidr) [
  | none ↦ err bad_cidr
  | some prefix ↦ elim (parse_addr ip) [ none ↦ err bad_ip | some addr ↦ ok (contains prefix addr) ]
]

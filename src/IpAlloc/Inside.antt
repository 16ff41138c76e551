-- ===== src/IpAlloc/Inside.antt =====
-- Which addresses `IsInPrefix` of daemon/ipalloc/allocator.go accepts.
use lightscale.Prelude.{◌≡◌, String, true, some, Option-cases, inl, inr}
use lightscale.Prelude.Result.{ok}
use lightscale.Netip.{Addr, Prefix, contains}
use lightscale.Netip.Parse.{parse_addr, parse_prefix}
use lightscale.IpAlloc.{is_in_prefix}

-- Both texts parse, and the prefix contains the address.
abbrev pub Inside : String → String → Type 0
Inside cidr ip =
    (p : Prefix) × (a : Addr) × (parse_prefix cidr ≡ some p)
    × (parse_addr ip ≡ some a)
    × (contains p a ≡ true)

pub is_in_prefix-Inside : (cidr ip : String) → is_in_prefix cidr ip ≡ ok true → Inside cidr ip
unfolding is_in_prefix
is_in_prefix-Inside cidr ip h = elim (Option-cases (parse_prefix cidr)) [
  | inl e ↦ absurd (cc (rw (e, is_in_prefix) at h))
  | inr (p, e) ↦ elim (Option-cases (parse_addr ip)) [
    | inl f ↦ absurd (cc (rw (e, is_in_prefix, f) at h))
    | inr (a, f) ↦ (p, a, e, f, cc (rw (e, is_in_prefix, f) at h))
  ]
]

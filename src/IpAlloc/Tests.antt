-- ===== src/IpAlloc/Tests.antt =====
-- Allocation (daemon/ipalloc/allocator.go) in small subnets.
use lightscale.Prelude.{◌+◌, ◌*◌, ◌^◌, ◌-◌, ◌/◌, ◌≡◌, [], ◌∷◌, List, String}
use lightscale.Netip.{v4}
use lightscale.IpAlloc.{last_addr}
use lightscale.IpAlloc.Lowest.{Lowest}
use lightscale.IpAlloc.Broadcast.{last_addr_lem}

abbrev taken : List String
taken = "10.6.0.1" ∷ "10.6.0.2" ∷ []

last_addr_lem_example :
    last_addr (record { addr = v4 10; bits = 29 })
    ≡ v4 (10 / 2 ^ (32 - 29) * 2 ^ (32 - 29) + (2 ^ (32 - 29) - 1))
last_addr_lem_example = last_addr_lem 10 29

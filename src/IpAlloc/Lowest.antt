-- ===== src/IpAlloc/Lowest.antt =====
-- What the loop of `Allocate` (daemon/ipalloc/allocator.go) finds.
use lightscale.Prelude.{
  ℕ, ◌+◌, ◌-◌, ◌/◌, ◌*◌, ◌^◌, ◌≤◌, ◌<◌, ◌≡◌, ◌⊎◌, String, Bool, true, false, ◌||◌, List, nat_eq,
}
use lightscale.Prelude.Result.{Result, ok, err}
use lightscale.Netip.{v4}
use lightscale.Netip.Text.{to_string}
use lightscale.IpAlloc.{AllocError, subnet_exhausted, listed}

-- Is the address one of those that the caller gave?
abbrev pub used : List String → List String → ℕ → Bool
used taken reserved n = listed (to_string (v4 n)) taken || listed (to_string (v4 n)) reserved

-- The lowest unused address from `lo` up to `hi`, the end left out; or that there is none.
abbrev pub Lowest : List String → List String → ℕ → ℕ → Result AllocError String → Type 0
Lowest taken reserved lo hi result =
    ((n : ℕ) × (lo ≤ n)
      × (n < hi)
      × (used taken reserved n ≡ false)
      × ((m : ℕ) → lo ≤ m → m < n → used taken reserved m ≡ true)
      × (result ≡ ok (to_string (v4 n))))
    ⊎ (((m : ℕ) → lo ≤ m → m < hi → used taken reserved m ≡ true) × (result ≡ err subnet_exhausted))

-- The subnet in numbers: how many addresses, the first, and the broadcast address.
abbrev pub hosts : ℕ → ℕ
hosts bits = 2 ^ (32 - bits)

abbrev pub network_of : ℕ → ℕ → ℕ
network_of n bits = n / hosts bits * hosts bits

abbrev pub broadcast_of : ℕ → ℕ → ℕ
broadcast_of n bits = network_of n bits + (hosts bits - 1)

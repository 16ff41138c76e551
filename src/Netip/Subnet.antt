-- ===== src/Netip/Subnet.antt =====
-- Which IPv4 addresses `Contains` of Go's net/netip says are in a prefix.
use lightscale.Prelude.{refl, ℕ, ◌/◌, ◌^◌, ◌-◌, ◌≡◌, nat_eq, true, eq_of_==, ==_of_eq}
use lightscale.Netip.{Addr, zero_addr, v4, v6, Prefix, same_network, contains}

-- Both are IPv4 addresses, and they agree in the bits of the prefix.
abbrev pub InSubnet : Prefix → Addr → Type 0
InSubnet p ip =
    (m : ℕ) × (n : ℕ) × (p.addr ≡ v4 m)
    × (ip ≡ v4 n)
    × (m / 2 ^ (32 - p.bits) ≡ n / 2 ^ (32 - p.bits))

same_network-v4 :
    (bits n : ℕ) (a : Addr)
    → same_network bits a (v4 n) ≡ true
    → (m : ℕ) × (a ≡ v4 m) × (m / 2 ^ (32 - bits) ≡ n / 2 ^ (32 - bits))
unfolding same_network
same_network-v4 bits n zero_addr h = absurd (cc h)
same_network-v4 bits n (v4 m) h = (m, refl, eq_of_== (m / 2 ^ (32 - bits)) (n / 2 ^ (32 - bits)) h)
same_network-v4 bits n (v6 m zone) h = absurd (cc h)

pub contains-InSubnet :
    (p : Prefix) (ip : Addr) (n : ℕ) → ip ≡ v4 n → contains p ip ≡ true → InSubnet p ip
unfolding contains
contains-InSubnet p ip n e h =
    let (m, base, agree) = same_network-v4 p.bits n p.addr (rw e at h) in (m, n, base, e, agree)

pub InSubnet-contains : (p : Prefix) (ip : Addr) → InSubnet p ip → contains p ip ≡ true
unfolding contains same_network
InSubnet-contains p ip (m, n, base, e, agree) =
    rw (e, base) (==_of_eq (m / 2 ^ (32 - p.bits)) (n / 2 ^ (32 - p.bits)) agree)

-- ===== src/IpAlloc/Broadcast.antt =====
-- What `lastAddr` of daemon/ipalloc/allocator.go computes.
use native.Mathlib.Nat.{pow-suc, div-eq_of_lt-le, pow-zero}
use native.Mathlib.Numerals.{add-one}
use lightscale.Prelude.{ℕ, zero, suc, ◌+◌, ◌-◌, ◌/◌, ◌*◌, ◌^◌, ◌<◌, ◌≡◌, ap, ◌∙◌, arith, nat_eq}
use lightscale.Netip.{v4, masked}
use lightscale.IpAlloc.{set_bit, set_bits, last_addr}

quotient : (p q : ℕ) → 0 < p → (q * (2 * p) + (p - 1)) / p ≡ 2 * q
quotient p q pos = div-eq_of_lt-le p (omega arith) (omega arith)

-- One more bit on top of `i` ones, where what lies above is even.
set_bit_ones :
    (p q i : ℕ) → 2 ^ i ≡ p → 0 < p → set_bit (q * (2 * p) + (p - 1)) i ≡ q * (2 * p) + (2 * p - 1)
unfolding set_bit
set_bit_ones p q i e pos = rw (e, quotient p q pos) (ground arith)

double : (i p : ℕ) → 2 ^ i ≡ p → 2 ^ (i + 1) ≡ 2 * p
double i p e = rw (add-one i, pow-suc, e) (omega arith)

-- The loop turns the zeros above the ones into ones.
set_bits_ones :
    (left p q i : ℕ)
    → 2 ^ i ≡ p
    → 0 < p
    → set_bits (q * (2 ^ left * p) + (p - 1)) i left ≡ q * (2 ^ left * p) + (2 ^ left * p - 1)
unfolding set_bits
set_bits_ones zero p q i e pos = rw (pow-zero 2) (omega arith)
set_bits_ones (suc left) p q i e pos =
    let split : q * (2 ^ suc left * p) ≡ q * 2 ^ left * (2 * p) =
      rw (pow-suc 2 left) (omega arith) in
    let join : q * 2 ^ left * (2 * p) ≡ q * (2 ^ left * (2 * p)) = omega arith in
    let top : 2 ^ suc left * p ≡ 2 ^ left * (2 * p) = rw (pow-suc 2 left) (omega arith) in
    rw (split, set_bit_ones p (q * 2 ^ left) i e pos, join, top)
      (set_bits_ones left (2 * p) q (i + 1) (double i p e) (omega arith))

-- lastAddr is the network address with all host bits set.
pub last_addr_lem :
    (n bits : ℕ)
    → last_addr (record { addr = v4 n; bits = bits })
      ≡ v4 (n / 2 ^ (32 - bits) * 2 ^ (32 - bits) + (2 ^ (32 - bits) - 1))
unfolding last_addr masked
last_addr_lem n bits =
    let h : ℕ = 2 ^ (32 - bits) in
    let e : n / h * h ≡ n / h * (h * 1) + (1 - 1) = omega arith in
    rw e (ap v4 (set_bits_ones (32 - bits) 1 (n / h) 0 (pow-zero 2) (omega arith) ∙ omega arith))

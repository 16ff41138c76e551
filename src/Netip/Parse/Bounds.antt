-- ===== src/Netip/Parse/Bounds.antt =====
-- Parsed addresses and prefixes are in range.
use lightscale.Prelude.{
  ℕ, ◌+◌, ◌-◌, ◌*◌, ◌^◌, ◌≤◌, ◌<◌, ◌≡◌, ◌≢◌, refl, ap, ◌∙◌, String, Bool, true, false, ◌&&◌, not,
  Option, none, some, List, [], ◌∷◌, arith, ltb, leb, ◌==◌, nat_eq, string_eq, length, leb→le,
  Bool-cases, inl, inr,
}
use native.Mathlib.Nat.{pow-suc}
use native.Mathlib.Numerals.{add-one}
use lightscale.Netip.{v4, Prefix}
use lightscale.Netip.Parse.Fields.{◌>>=◌, when, ipv4_fields, parse_ipv4, parse_ipv6}
use lightscale.Netip.Parse.{
  codes, zone_of, leading_zero, max_bits, cut_slash, bits_of, family_mark, cut_zone, with_zone,
  parse_addr, parse_prefix,
}

-- A complete field joins the others.
join_fields : (acc val pos : ℕ) → acc < 256 ^ pos → val ≤ 255 → acc * 256 + val < 256 ^ (pos + 1)
join_fields acc val pos h k = rw (add-one pos, pow-suc) (omega arith)

ipv4_fields-lt :
    (s : List ℕ) (acc pos val dig_len n : ℕ)
    → acc < 256 ^ pos
    → val ≤ 255
    → ipv4_fields s acc pos val dig_len ≡ some n
    → n < 2 ^ 32
unfolding ipv4_fields
ipv4_fields-lt [] acc pos val dig_len n h k e =
    let last : pos ≡ 3 = ground arith in
    let whole : n ≡ acc * 256 + val = ground arith in
    let room : acc < 256 ^ 3 = rw last at h in omega arith
ipv4_fields-lt (c ∷ s) acc pos val dig_len n h k e = ground (
  arith,
  join_fields acc val pos h k,
  ipv4_fields-lt s acc pos (val * 10 + (c - 48)) (dig_len + 1) n h,
  ipv4_fields-lt s (acc * 256 + val) (pos + 1) 0 0 n,
)

>>=-eq-some :
    {A B : Type 0} (m : Option A) (f : A → Option B) {b : B}
    → (m >>= f) ≡ some b
    → (a : A) × (m ≡ some a) × (f a ≡ some b)
>>=-eq-some none f h = cc
>>=-eq-some (some a) f h = (a, refl, h)

some_inj : {A : Type 0} {a b : A} → some a ≡ some b → a ≡ b
some_inj h = cc

when-eq-some :
    {A : Type 0} (b : Bool) (o : Option A) {a : A} → when b o ≡ some a → (b ≡ true) × (o ≡ some a)
when-eq-some true o h = (refl, h)
when-eq-some false o h = cc

pub parse_ipv4-lt : (s : List ℕ) {n : ℕ} → parse_ipv4 s ≡ some n → n < 2 ^ 32
unfolding parse_ipv4
parse_ipv4-lt s {n} e = ipv4_fields-lt s 0 0 0 0 n (omega arith) (omega arith) e

with_zone-ne-v4 : (k : ℕ) (zone : Option String) {n : ℕ} → with_zone k zone ≢ some (v4 n)
unfolding with_zone
with_zone-ne-v4 k none e = cc
with_zone-ne-v4 k (some z) e = ground arith

parse_addr-lt : (text : String) {n : ℕ} → parse_addr text ≡ some (v4 n) → n < 2 ^ 32
unfolding parse_addr
parse_addr-lt text {n} e =
    let (mark, _, e1) = >>=-eq-some (family_mark (codes text)) _ e in
    elim (Bool-cases (mark == b'.')) [
      | inl dot ↦
          let (k, four, e2) =
            >>=-eq-some (parse_ipv4 (codes text)) (λ k. some (v4 k)) (rw dot at e1) in
          parse_ipv4-lt (codes text) (ground arith)
      | inr other ↦ elim (Bool-cases (mark == b':')) [
        | inl c ↦
            let (k, six, e2) =
              >>=-eq-some (parse_ipv6 (cut_zone text).0) (λ k. with_zone k (cut_zone text).1)
                (rw (other, c) at e1) in
            absurd (with_zone-ne-v4 k (cut_zone text).1 e2)
        | inr d ↦ let e2 : none ≡ some (v4 n) = rw (other, d) at e1 in cc
      ]
    ]

-- An IPv4 prefix that parses has a 32-bit address and at most 32 bits.
pub parse_prefix_bounds :
    (text : String) {n bits : ℕ}
    → parse_prefix text ≡ some (record { addr = v4 n; bits = bits })
    → (n < 2 ^ 32) × (bits ≤ 32)
unfolding parse_prefix
parse_prefix_bounds text {n} {bits} e =
    let (cut, _, e1) = >>=-eq-some (cut_slash text) _ e in
    let (ip, parsed, e2) = >>=-eq-some (parse_addr cut.0) _ e1 in
    let (_, e3) =
      when-eq-some ((zone_of ip == "") && not (leading_zero cut.1) && ltb 0 (length cut.1))
        (bits_of cut.1 0 >>= λ b.
          when (leb b (max_bits ip)) (some (record { addr = ip; bits = b })))
        e2 in
    let (b, _, e4) =
      >>=-eq-some (bits_of cut.1 0)
        (λ b. when (leb b (max_bits ip)) (some (record { addr = ip; bits = b }))) e3 in
    let (fits, e5) =
      when-eq-some (leb b (max_bits ip)) (some (record { addr = ip; bits = b })) e4 in
    let same : ip ≡ v4 n = ap (λ (p : Prefix). p.addr) (some_inj e5) in
    let width : b ≡ bits = ap (λ (p : Prefix). p.bits) (some_inj e5) in
    let most : max_bits ip ≡ 32 = ap max_bits same in
    (parse_addr-lt cut.0 (parsed ∙ ap some same), omega (arith, leb→le b (max_bits ip) fits))

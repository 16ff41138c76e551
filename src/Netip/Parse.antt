-- ===== src/Netip/Parse.antt =====
-- `ParseAddr` and `ParsePrefix` of net/netip, over the characters of the text.
mod Fields
pub mod Bounds
use Prim.Native.Char.{code}
use lightscale.Prelude.{
  ℕ, zero, suc, ◌+◌, ◌-◌, ◌/◌, ◌*◌, ◌^◌, ◌%◌, ◌≡◌, refl, String, Bool, true, false, ◌&&◌, ◌||◌, not,
  Option, none, some, List, [], ◌∷◌, ◌++◌, ltb, leb, ◌==◌, nat_eq, string_eq, if◌then◌else◌, length,
}
use lightscale.Netip.{Addr, zero_addr, v4, v6, is4, Prefix}
use Fields.{◌>>=◌, when, is_digit, parse_ipv4, parse_ipv6}

abbrev codes : String → List ℕ
codes String.[] = []
codes (String.◌∷◌ c s) = code c ∷ codes s

-- the text before the first `%`, and the zone after it
cut_zone : String → List ℕ × Option String
cut_zone String.[] = ([], none)
cut_zone (String.◌∷◌ c s) =
    let (before, zone) = cut_zone s in
    if code c == b'%' then ([], some s) else (code c ∷ before, zone)

-- the first of `.`, `:` and `%` in the text
family_mark : List ℕ → Option ℕ
family_mark [] = none
family_mark (c ∷ s) = if (c == b'.') || (c == b':') || (c == b'%') then some c else family_mark s

-- A `%` with nothing after it is an error.
with_zone : ℕ → Option String → Option Addr
with_zone n none = some (v6 n "")
with_zone n (some zone) = if zone == "" then none else some (v6 n zone)

unfoldable pub parse_addr : String → Option Addr
unfolding cut_zone family_mark parse_ipv4 parse_ipv6 with_zone
parse_addr text = do
  mark ← family_mark (codes text)
  if mark == b'.'
      then (do n ← parse_ipv4 (codes text); some (v4 n))
      else if mark == b':'
      then (do n ← parse_ipv6 (cut_zone text).0; with_zone n (cut_zone text).1)
      else none

-- the text before the last `/` and the characters after it
cut_slash : String → Option (String × List ℕ)
cut_slash String.[] = none
cut_slash (String.◌∷◌ c s) = elim (cut_slash s) [
  | some (before, after) ↦ some (String.◌∷◌ c before, after)
  | none ↦ if code c == b'/' then some ("", codes s) else none
]

-- decimal digits with no leading zero; `none` on any other character
bits_of : List ℕ → ℕ → Option ℕ
unfolding is_digit
bits_of [] n = some n
bits_of (c ∷ s) n = let rest = bits_of s (n * 10 + (c - 48)) in if is_digit c then rest else none

abbrev leading_zero : List ℕ → Bool
leading_zero (c ∷ d ∷ s) = c == 48
leading_zero _ = false

abbrev max_bits : Addr → ℕ
max_bits ip = if is4 ip then 32 else 128

-- An IPv6 address with a zone makes no prefix.
abbrev zone_of : Addr → String
zone_of (v6 n zone) = zone
zone_of _ = ""

unfoldable pub parse_prefix : String → Option Prefix
unfolding cut_slash bits_of parse_addr
parse_prefix text = do
  (before, after) ← cut_slash text
  ip ← parse_addr before
  when ((zone_of ip == "") && not (leading_zero after) && ltb 0 (length after)) (do
    bits ← bits_of after 0
    when (leb bits (max_bits ip)) (some (record { addr = ip; bits = bits })))

samples :
    (parse_addr "10.6.0.200" ≡ some (v4 (10 * 2 ^ 24 + 6 * 2 ^ 16 + 200)))
    × (parse_addr "2001:db8::5:0%eth0"
        ≡ some (v6 (0x2001 * 2 ^ 112 + 0xdb8 * 2 ^ 96 + 5 * 2 ^ 16) "eth0"))
    × (parse_addr "::ffff:1.2.3.4" ≡ some (v6 (0xffff * 2 ^ 32 + 0x01020304) ""))
    × (parse_addr "::" ≡ some (v6 0 ""))
    × (parse_addr "1:2:3:4:5:6:7::8" ≡ none)
    × (parse_addr "10.06.0.2" ≡ none)
    × (parse_addr "10.6.0" ≡ none)
    × (parse_addr "" ≡ none)
unfolding parse_addr
samples = (refl, refl, refl, refl, refl, refl, refl, refl)

prefix_samples :
    (parse_prefix "10.6.0.0/24" ≡ some (record { addr = v4 (10 * 2 ^ 24 + 6 * 2 ^ 16); bits = 24 }))
    × (parse_prefix "10.6.0.0/33" ≡ none)
    × (parse_prefix "10.6.0.0/024" ≡ none)
    × (parse_prefix "10.6.0.0/" ≡ none)
unfolding parse_prefix
prefix_samples = (refl, refl, refl, refl)

-- ===== src/Netip/Text.antt =====
-- `Addr.String` of net/netip.
use Prim.Native.String.{◌++◌}
use lightscale.Prelude.{
  ℕ, zero, suc, ◌+◌, ◌-◌, ◌/◌, ◌*◌, ◌^◌, ◌%◌, String, ◌&&◌, ltb, leb, ◌≡◌, refl, ◌==◌, nat_eq,
  string_eq, if◌then◌else◌,
}
use lightscale.Netip.{Addr, zero_addr, v4, v6, is_4_in_6}

digit_text : ℕ → String
digit_text d =
    if d == 0
    then "0"
    else if d == 1
    then "1"
    else if d == 2
    then "2"
    else if d == 3
    then "3"
    else if d == 4
    then "4"
    else if d == 5
    then "5"
    else if d == 6
    then "6"
    else if d == 7
    then "7"
    else if d == 8
    then "8"
    else if d == 9
    then "9"
    else if d == 10
    then "a"
    else if d == 11
    then "b"
    else if d == 12
    then "c"
    else if d == 13
    then "d"
    else if d == 14
    then "e"
    else "f"

-- the decimal digits of a number below 1000
pub octet_text : ℕ → String
unfolding digit_text
octet_text n =
    if ltb n 10
    then digit_text n
    else if ltb n 100
    then digit_text (n / 10) ++ digit_text (n % 10)
    else digit_text (n / 100) ++ digit_text ((n / 10) % 10) ++ digit_text (n % 10)

pub dotted : ℕ → String
unfolding octet_text
dotted n =
    octet_text (n / 2 ^ 24)
    ++ "."
    ++ octet_text ((n / 2 ^ 16) % 256)
    ++ "."
    ++ octet_text ((n / 2 ^ 8) % 256)
    ++ "."
    ++ octet_text (n % 256)

group_text : ℕ → String
unfolding digit_text
group_text g =
    (if ltb g (16 ^ 3) then "" else digit_text (g / 16 ^ 3))
    ++ (if ltb g (16 ^ 2) then "" else digit_text ((g / 16 ^ 2) % 16))
    ++ (if ltb g 16 then "" else digit_text ((g / 16) % 16))
    ++ digit_text (g % 16)

group_at : ℕ → ℕ → ℕ
group_at n i = (n / 2 ^ (112 - 16 * i)) % 2 ^ 16

-- how many groups from `i` on are zero
zeros_from : ℕ → ℕ → ℕ → ℕ
zeros_from n i zero = 0
zeros_from n i (suc left) =
    let more = zeros_from n (i + 1) left in if group_at n i == 0 then more + 1 else 0

-- the first longest run of at least two zero groups: its start and its length
longest_run : ℕ → ℕ → ℕ → ℕ × ℕ → ℕ × ℕ
longest_run n i zero best = best
longest_run n i (suc left) (start, run) =
    let l = zeros_from n i (suc left) in
    longest_run n (i + 1) left (if leb 2 l && ltb run l then (i, l) else (start, run))

-- the groups from `i` on, the run left out; `fuel` bounds the groups that are left
groups_text : ℕ → ℕ × ℕ → ℕ → ℕ → String
groups_text n run i zero = ""
groups_text n (start, len) i (suc fuel) =
    let skipped = groups_text n (start, len) (i + len) fuel in
    let after = groups_text n (start, len) (i + 1) fuel in
    if leb 8 i
    then ""
    else if ltb 0 len && (i == start)
    then "::" ++ skipped
    else (if (i == 0) then "" else if ltb 0 len && (i == start + len) then "" else ":")
      ++ group_text (group_at n i)
      ++ after

zone_text : String → String
zone_text zone = if zone == "" then "" else "%" ++ zone

unfoldable pub to_string : Addr → String
unfolding dotted group_text group_at zeros_from longest_run groups_text zone_text
to_string zero_addr = "invalid IP"
to_string (v4 n) = dotted n
to_string (v6 n zone) =
    if is_4_in_6 n
    then "::ffff:" ++ dotted (n % 2 ^ 32) ++ zone_text zone
    else groups_text n (longest_run n 0 8 (0, 0)) 0 9 ++ zone_text zone

samples :
    (to_string (v4 (10 * 2 ^ 24 + 6 * 2 ^ 16 + 200)) ≡ "10.6.0.200")
    × (to_string (v6 1 "") ≡ "::1")
    × (to_string (v6 (0x2001 * 2 ^ 112 + 0xdb8 * 2 ^ 96 + 5 * 2 ^ 16) "eth0")
        ≡ "2001:db8::5:0%eth0")
    × (to_string (v6 (0xffff * 2 ^ 32 + 258) "") ≡ "::ffff:0.0.1.2")
    × (to_string (v6 0 "") ≡ "::")
unfolding to_string
samples = (refl, refl, refl, refl, refl)

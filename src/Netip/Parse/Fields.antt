-- ===== src/Netip/Parse/Fields.antt =====
-- The numbers in the text of an address, as `parseIPv4Fields` and `parseIPv6` of net/netip read
-- them. The source keeps the fields in an array; here a number or a list grows by a field at a time.
use lightscale.Prelude.{
  ℕ, zero, suc, ◌+◌, ◌-◌, ◌/◌, ◌*◌, ◌^◌, ◌%◌, Bool, true, false, ◌&&◌, ◌||◌, not, Option, none,
  some, List, [], ◌∷◌, ◌++◌, ltb, leb, ◌==◌, nat_eq, string_eq, if◌then◌else◌, length,
}

-- `none` is a parse error.
infixl 5 ◌>>=◌
abbrev pub ◌>>=◌ : {A B : Type 0} → Option A → (A → Option B) → Option B
none >>= f = none
some a >>= f = f a

abbrev pub when : {A : Type 0} → Bool → Option A → Option A
when true o = o
when false o = none

unfoldable pub is_digit : ℕ → Bool
is_digit c = leb 48 c && leb c 57

-- The fields of an IPv4 address: `acc` holds those that are complete, `pos` of them; the current
-- one has `dig_len` digits and the value `val`. A dot or the end must follow a digit.
unfoldable pub ipv4_fields : List ℕ → ℕ → ℕ → ℕ → ℕ → Option ℕ
unfolding is_digit
ipv4_fields [] acc pos val dig_len =
    if (pos == 3) && ltb 0 dig_len then some (acc * 256 + val) else none
ipv4_fields (c ∷ s) acc pos val dig_len =
    let digit = ipv4_fields s acc pos (val * 10 + (c - 48)) (dig_len + 1) in
    let dot = ipv4_fields s (acc * 256 + val) (pos + 1) 0 0 in
    if is_digit c
    then (if (dig_len == 1) && (val == 0)
        then none
        else if ltb 255 (val * 10 + (c - 48))
        then none
        else digit)
    else if c == b'.'
    then (if (dig_len == 0) || (pos == 3) then none else dot)
    else none

unfoldable pub parse_ipv4 : List ℕ → Option ℕ
unfolding ipv4_fields
parse_ipv4 s = ipv4_fields s 0 0 0 0

hex_value : ℕ → Option ℕ
hex_value c =
    if leb 48 c && leb c 57
    then some (c - 48)
    else if leb 97 c && leb c 102
    then some (c - 87)
    else if leb 65 c && leb c 70
    then some (c - 55)
    else none

-- The digits of a group: how many, their value, and what follows; five are an error.
hex_group : ℕ → ℕ → List ℕ → Option (ℕ × ℕ × List ℕ)
unfolding hex_value
hex_group off acc [] = some (off, acc, [])
hex_group off acc (c ∷ s) = elim (hex_value c) [
  | none ↦ some (off, acc, c ∷ s)
  | some d ↦ if ltb 3 off then none else hex_group (off + 1) (acc * 16 + d) s
]

-- groups so far, where `::` stood, and what is left
abbrev pub Groups : Type 0
Groups = List ℕ × Option ℕ × List ℕ

abbrev starts_with : ℕ → List ℕ → Bool
starts_with c [] = false
starts_with c (d ∷ s) = c == d

-- What a round of the loop leads to: its end, or another round.
pub data Round : Type 0 where
  stop more : Groups → Round

colon : List ℕ → Option ℕ → List ℕ → Option Round
colon gs ellipsis [] = some (stop (gs, ellipsis, []))
colon gs ellipsis (c ∷ []) = none
colon gs ellipsis (c ∷ d ∷ s) =
    if not (c == b':')
    then none
    else if d == b':'
    then elim ellipsis [
      | some _ ↦ none
      | none ↦ elim s [
        | [] ↦ some (stop (gs, some (length gs), []))
        | x ∷ xs ↦ some (more (gs, some (length gs), x ∷ xs))
      ]
    ]
    else some (more (gs, ellipsis, d ∷ s))

-- a trailing IPv4 address, for the last two groups
embedded : List ℕ → Option ℕ → List ℕ → Option Round
embedded gs ellipsis s = do
  n ← parse_ipv4 s
  when (leb (length gs) 6 && (elim ellipsis [ none ↦ length gs == 6 | some _ ↦ true ]))
      (some (stop (gs ++ (n / 2 ^ 16) ∷ (n % 2 ^ 16) ∷ [], ellipsis, [])))

round : List ℕ → Option ℕ → List ℕ → Option Round
unfolding hex_group colon embedded
round gs ellipsis s = do
  (off, acc, rest) ← hex_group 0 0 s
  when (ltb 0 off) (
      if starts_with b'.' rest
      then embedded gs ellipsis s
      else colon (gs ++ acc ∷ []) ellipsis rest)

-- The loop `for i < 16`, two bytes a round.
ipv6_groups : ℕ → Groups → Option Groups
unfolding round
ipv6_groups zero g = some g
ipv6_groups (suc left) (gs, ellipsis, s) = elim (round gs ellipsis s) [
  | none ↦ none
  | some r ↦ elim r [ stop g ↦ some g | more g ↦ ipv6_groups left g ]
]

number_of : List ℕ → ℕ → ℕ
number_of [] n = n
number_of (g ∷ gs) n = number_of gs (n * 2 ^ 16 + g)

zeros : ℕ → List ℕ
zeros zero = []
zeros (suc n) = 0 ∷ zeros n

insert_zeros : ℕ → ℕ → List ℕ → List ℕ
unfolding zeros
insert_zeros n zero gs = zeros n ++ gs
insert_zeros n (suc k) [] = zeros n
insert_zeros n (suc k) (g ∷ gs) = g ∷ insert_zeros n k gs

finish : Groups → Option ℕ
unfolding number_of insert_zeros
finish (gs, ellipsis, c ∷ s) = none
finish (gs, none, []) = if length gs == 8 then some (number_of gs 0) else none
finish (gs, some e, []) =
    if ltb (length gs) 8 then some (number_of (insert_zeros (8 - length gs) e gs) 0) else none

-- without the zone
unfoldable pub parse_ipv6 : List ℕ → Option ℕ
unfolding ipv6_groups finish
parse_ipv6 (c ∷ d ∷ s) =
    if (c == b':') && (d == b':')
    then elim s [ [] ↦ some 0 | x ∷ xs ↦ ipv6_groups 8 ([], some 0, x ∷ xs) >>= finish ]
    else ipv6_groups 8 ([], none, c ∷ d ∷ s) >>= finish
parse_ipv6 s = ipv6_groups 8 ([], none, s) >>= finish

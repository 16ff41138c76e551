-- ===== src/Strconv.antt =====
-- What the program uses of Go's `strconv` and `fmt`: `ParseInt` and `Atoi` of a text in base 10, and
-- the verb `%d`. The callers refuse a number that is not positive as they refuse a text that is no
-- number, so a text with a minus sign is no number here.
pub mod Decimal
use Prim.Native.Char.{Char, code}
use lightscale.Prelude.{
  ℕ, zero, suc, ◌+◌, ◌-◌, ◌*◌, ◌/◌, ◌%◌, ◌^◌, String, Bool, ◌&&◌, Option, none, some, ltb, leb,
  ◌==◌, nat_eq, string_eq, if◌then◌else◌,
}

unfoldable pub is_digit : ℕ → Bool
is_digit c = leb 48 c && leb c 57

-- the loop over the digits; `n` is the number that was read so far
unfoldable pub digits : ℕ → String → Option ℕ
unfolding is_digit
digits n String.[] = some n
digits n (String.◌∷◌ c s) =
    let rest = digits (n * 10 + (code c - 48)) s in if is_digit (code c) then rest else none

without_plus : String → String
without_plus String.[] = ""
without_plus (String.◌∷◌ c s) = if code c == 43 then s else String.◌∷◌ c s

-- the range of `int64`
in_range : Option ℕ → Option ℕ
in_range none = none
in_range (some n) = if ltb n (2 ^ 63) then some n else none

unfoldable pub parse_int : String → Option ℕ
unfolding without_plus in_range digits
parse_int s = let body = without_plus s in if body == "" then none else in_range (digits 0 body)

unfoldable pub digit : ℕ → Char
digit zero = "0"
digit (suc zero) = "1"
digit (suc (suc zero)) = "2"
digit (suc (suc (suc zero))) = "3"
digit (suc (suc (suc (suc zero)))) = "4"
digit (suc (suc (suc (suc (suc zero))))) = "5"
digit (suc (suc (suc (suc (suc (suc zero)))))) = "6"
digit (suc (suc (suc (suc (suc (suc (suc zero))))))) = "7"
digit (suc (suc (suc (suc (suc (suc (suc (suc zero)))))))) = "8"
digit (suc (suc (suc (suc (suc (suc (suc (suc (suc _))))))))) = "9"

unfoldable pub text_before : ℕ → ℕ → String → String
unfolding digit
text_before zero n tail = tail
text_before (suc fuel) n tail =
    let more = text_before fuel (n / 10) (String.◌∷◌ (digit (n % 10)) tail) in
    if ltb n 10 then String.◌∷◌ (digit n) tail else more

unfoldable pub itoa : ℕ → String
unfolding text_before
itoa n = text_before (suc n) n ""

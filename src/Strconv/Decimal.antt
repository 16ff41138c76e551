-- ===== src/Strconv/Decimal.antt =====
-- The digits that `%d` writes are read back as the same number.
use Prim.Native.Char.{code}
use lightscale.Prelude.{
  ℕ, zero, suc, ◌+◌, ◌-◌, ◌*◌, ◌/◌, ◌%◌, ◌^◌, ◌<◌, ◌≡◌, refl, String, true, false, inl, inr, none,
  some, Bool, ltb, ◌==◌, nat_eq, string_eq, arith, Bool-cases, eq_of_==,
}
use lightscale.Strings.Parts.{Avoids}
use lightscale.Strconv.{
  is_digit, digits, without_plus, in_range, parse_int, digit, text_before, itoa,
}

code-digit : (d : ℕ) → d < 10 → code (digit d) ≡ 48 + d
unfolding digit
code-digit zero h = refl
code-digit (suc zero) h = refl
code-digit (suc (suc zero)) h = refl
code-digit (suc (suc (suc zero))) h = refl
code-digit (suc (suc (suc (suc zero)))) h = refl
code-digit (suc (suc (suc (suc (suc zero))))) h = refl
code-digit (suc (suc (suc (suc (suc (suc zero)))))) h = refl
code-digit (suc (suc (suc (suc (suc (suc (suc zero))))))) h = refl
code-digit (suc (suc (suc (suc (suc (suc (suc (suc zero)))))))) h = refl
code-digit (suc (suc (suc (suc (suc (suc (suc (suc (suc zero))))))))) h = refl
code-digit (suc (suc (suc (suc (suc (suc (suc (suc (suc (suc d)))))))))) h = absurd (omega arith)

is_digit-digit : (d : ℕ) → d < 10 → is_digit (code (digit d)) ≡ true
unfolding is_digit
is_digit-digit d h = ground (arith, code-digit d h)

digits-digit :
    (n d : ℕ) (s : String) → d < 10 → digits n (String.◌∷◌ (digit d) s) ≡ digits (n * 10 + d) s
unfolding digits
digits-digit n d s h =
    rw (is_digit-digit d h, code-digit d h) (let e : 48 + d - 48 ≡ d = omega arith in rw e refl)

-- reading on after the digits of `n`
digits-text_before :
    (fuel n : ℕ) (tail : String) → n < fuel → digits 0 (text_before fuel n tail) ≡ digits n tail
unfolding text_before
digits-text_before zero n tail h = absurd (omega arith)
digits-text_before (suc fuel) n tail h = elim (Bool-cases (ltb n 10)) [
  | inl small ↦
      let e : 0 * 10 + n ≡ n = omega arith in
      rw (small, digits-digit 0 n tail (ground arith), e) refl
  | inr large ↦
      let ih = digits-text_before fuel (n / 10) (String.◌∷◌ (digit (n % 10)) tail) (ground arith) in
      let e : n / 10 * 10 + n % 10 ≡ n = omega arith in
      let step = digits-digit (n / 10) (n % 10) tail (omega arith) in rw (large, ih, step, e) refl
]

-- The text starts with a digit.
pub text_before-starts :
    (fuel n : ℕ) (tail : String)
    → n < fuel
    → (d : ℕ) × (rest : String) × (d < 10) × (text_before fuel n tail ≡ String.◌∷◌ (digit d) rest)
unfolding text_before
text_before-starts zero n tail h = absurd (omega arith)
text_before-starts (suc fuel) n tail h = elim (Bool-cases (ltb n 10)) [
  | inl small ↦ (n, tail, ground arith, rw small refl)
  | inr large ↦ rw large (text_before-starts fuel (n / 10) _ (ground arith))
]

without_plus-digit :
    (d : ℕ) (s : String) → d < 10 → without_plus (String.◌∷◌ (digit d) s) ≡ String.◌∷◌ (digit d) s
unfolding without_plus
without_plus-digit d s h =
    let e : (48 + d == 43) ≡ false = ground arith in rw (code-digit d h, e) refl

-- A text is not empty when it has a first character.
cons-ne-empty : (d : ℕ) (s : String) → (String.◌∷◌ (digit d) s == "") ≡ false
cons-ne-empty d s = elim (Bool-cases (String.◌∷◌ (digit d) s == "")) [
  | inl e ↦ cc (eq_of_== (String.◌∷◌ (digit d) s) "" e)
  | inr e ↦ e
]

-- `%d` of a number below 2^63 is read back as that number.
pub parse_int-itoa : (n : ℕ) → n < 2 ^ 63 → parse_int (itoa n) ≡ some n
unfolding parse_int itoa in_range digits
parse_int-itoa n h =
    let (d, rest, small, e) = text_before-starts (suc n) n "" (omega arith) in
    let read = digits-text_before (suc n) n "" (omega arith) in
    let same : without_plus (text_before (suc n) n "") ≡ text_before (suc n) n "" =
      rw e (without_plus-digit d rest small) in
    let full : (text_before (suc n) n "" == "") ≡ false = rw e (cons-ne-empty d rest) in
    let below : ltb n (2 ^ 63) ≡ true = ground arith in rw (same, full, read, below) refl

-- A test that no digit passes is one that no character of the text passes.
pub Avoids-text_before :
    (p : ℕ → Bool) (fuel n : ℕ) (tail : String)
    → ((d : ℕ) → d < 10 → p (48 + d) ≡ false)
    → n < fuel
    → Avoids p tail
    → Avoids p (text_before fuel n tail)
unfolding text_before
Avoids-text_before p zero n tail none_pass h w = absurd (omega arith)
Avoids-text_before p (suc fuel) n tail none_pass h w = elim (Bool-cases (ltb n 10)) [
  | inl small ↦
      let e : p (code (digit n)) ≡ false =
        rw (code-digit n (ground arith)) (none_pass n (ground arith)) in
      rw small (e, w)
  | inr large ↦
      let r : n % 10 < 10 = omega arith in
      let e : p (code (digit (n % 10))) ≡ false =
        rw (code-digit (n % 10) r) (none_pass (n % 10) r) in
      rw large (
        Avoids-text_before p fuel (n / 10) (String.◌∷◌ (digit (n % 10)) tail) none_pass
          (ground arith) (e, w))
]

pub Avoids-itoa :
    (p : ℕ → Bool) (n : ℕ) → ((d : ℕ) → d < 10 → p (48 + d) ≡ false) → Avoids p (itoa n)
unfolding itoa
Avoids-itoa p n none_pass = Avoids-text_before p (suc n) n "" none_pass (omega arith) tt

samples :
    (itoa 0 ≡ "0")
    × (itoa 8096 ≡ "8096")
    × (parse_int "+17" ≡ some 17)
    × (parse_int "9223372036854775808" ≡ none)
unfolding itoa parse_int
samples = (refl, refl, refl, refl)

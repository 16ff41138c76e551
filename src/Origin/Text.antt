-- ===== src/Origin/Text.antt =====
-- `strings.TrimSpace` and `strings.ToLower` of Go's standard library.
use Prim.Native.Char.{Char, code}
use lightscale.Strings.Parts.{Avoids}
use lightscale.Prelude.{
  ℕ, String, Bool, true, ◌&&◌, ◌||◌, not, leb, ◌==◌, ◌≡◌, refl, arith, inl, inr, Bool-cases, nat_eq,
  string_eq, if◌then◌else◌,
}

-- `unicode.IsSpace`
unfoldable pub is_space : ℕ → Bool
is_space c =
    (leb 9 c && leb c 13)
    || (c == 32)
    || (c == 0x85)
    || (c == 0xa0)
    || (c == 0x1680)
    || (leb 0x2000 c && leb c 0x200a)
    || (c == 0x2028)
    || (c == 0x2029)
    || (c == 0x202f)
    || (c == 0x205f)
    || (c == 0x3000)

trim_left : String → String
unfolding is_space
trim_left String.[] = ""
trim_left (String.◌∷◌ c s) =
    let rest = trim_left s in if is_space (code c) then rest else String.◌∷◌ c s

trim_right : String → String
unfolding is_space
trim_right String.[] = ""
trim_right (String.◌∷◌ c s) =
    let rest = trim_right s in if (rest == "") && is_space (code c) then "" else String.◌∷◌ c rest

unfoldable pub trim_space : String → String
unfolding trim_left trim_right
trim_space s = trim_right (trim_left s)

-- `unicode.ToLower` on the letters of ASCII and on the two other characters that it takes to a letter
-- of ASCII, U+0130 and U+212A. It takes every other character to one outside ASCII, and those are
-- left as they are here: a text with one is no kind either way.
lower : Char → Char
lower c =
    if code c == 65
    then "a"
    else if code c == 66
    then "b"
    else if code c == 67
    then "c"
    else if code c == 68
    then "d"
    else if code c == 69
    then "e"
    else if code c == 70
    then "f"
    else if code c == 71
    then "g"
    else if code c == 72
    then "h"
    else if code c == 73
    then "i"
    else if code c == 74
    then "j"
    else if code c == 75
    then "k"
    else if code c == 76
    then "l"
    else if code c == 77
    then "m"
    else if code c == 78
    then "n"
    else if code c == 79
    then "o"
    else if code c == 80
    then "p"
    else if code c == 81
    then "q"
    else if code c == 82
    then "r"
    else if code c == 83
    then "s"
    else if code c == 84
    then "t"
    else if code c == 85
    then "u"
    else if code c == 86
    then "v"
    else if code c == 87
    then "w"
    else if code c == 88
    then "x"
    else if code c == 89
    then "y"
    else if code c == 90
    then "z"
    else if code c == 0x130
    then "i"
    else if code c == 0x212a
    then "k"
    else c

unfoldable pub to_lower : String → String
unfolding lower
to_lower String.[] = ""
to_lower (String.◌∷◌ c s) = String.◌∷◌ (lower c) (to_lower s)

samples : (trim_space " a b " ≡ "a b") × (to_lower "HostName" ≡ "hostname")
unfolding trim_space to_lower
samples = (refl, refl)

-- The text does not start with a space.
starts_solid : String → Bool
starts_solid String.[] = true
starts_solid (String.◌∷◌ c s) = not (is_space (code c))

starts_solid-trim_left : (s : String) → starts_solid (trim_left s) ≡ true
unfolding starts_solid trim_left
starts_solid-trim_left String.[] = refl
starts_solid-trim_left (String.◌∷◌ c s) = ground (arith, starts_solid-trim_left s)

trim_left_solid : (s : String) → starts_solid s ≡ true → trim_left s ≡ s
unfolding starts_solid trim_left
trim_left_solid String.[] h = refl
trim_left_solid (String.◌∷◌ c s) h = ground arith

starts_solid-trim_right : (s : String) → starts_solid s ≡ true → starts_solid (trim_right s) ≡ true
unfolding starts_solid trim_right
starts_solid-trim_right String.[] h = refl
starts_solid-trim_right (String.◌∷◌ c s) h = ground arith

trim_right_idem : (s : String) → trim_right (trim_right s) ≡ trim_right s
unfolding trim_right
trim_right_idem String.[] = refl
trim_right_idem (String.◌∷◌ c s) = elim (Bool-cases ((trim_right s == "") && is_space (code c))) [
  | inl e ↦ rw e
  | inr e ↦ rw (e, trim_right_idem s, e)
]

-- Trimming twice is trimming once.
pub trim_space_idem : (s : String) → trim_space (trim_space s) ≡ trim_space s
unfolding trim_space
trim_space_idem s =
    rw (trim_left_solid _ (starts_solid-trim_right _ (starts_solid-trim_left s)))
      (trim_right_idem (trim_left s))

-- Trimming leaves a text without spaces as it is.
trim_right_whole : (s : String) → Avoids is_space s → trim_right s ≡ s
unfolding trim_right
trim_right_whole String.[] h = refl
trim_right_whole (String.◌∷◌ c s) h = elim (Bool-cases (s == "")) [
  | inl e ↦ rw (trim_right_whole s h.1, e, h.0) refl
  | inr e ↦ rw (trim_right_whole s h.1, e) refl
]

pub trim_space_whole : (s : String) → Avoids is_space s → trim_space s ≡ s
unfolding trim_space starts_solid
trim_space_whole String.[] h = refl
trim_space_whole (String.◌∷◌ c s) h =
    rw (trim_left_solid (String.◌∷◌ c s) (rw h.0 refl)) (trim_right_whole (String.◌∷◌ c s) h)

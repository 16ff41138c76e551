-- ===== src/Strings.antt =====
-- What the program uses of Go's `strings` to take texts apart and to put them together: `Cut`,
-- `SplitSeq` and `SplitN` at one character, which is given by its code, and `Join`.
pub mod Parts
use Prim.Native.Char.{Char, code}
use Prim.Native.String.{◌++◌}
use lightscale.Prelude.{ℕ, String, Option, none, some, List, [], ◌∷◌, ◌==◌, nat_eq, if◌then◌else◌}

abbrev longer : Char → Option (String × String) → Option (String × String)
longer c none = none
longer c (some (before, after)) = some (String.◌∷◌ c before, after)

-- the text before the first separator and the text after it
unfoldable pub cut : ℕ → String → Option (String × String)
cut sep String.[] = none
cut sep (String.◌∷◌ c s) =
    let rest = longer c (cut sep s) in if code c == sep then some ("", s) else rest

abbrev on_first : Char → List String → List String
on_first c [] = []
on_first c (part ∷ parts) = String.◌∷◌ c part ∷ parts

unfoldable pub split : ℕ → String → List String
split sep String.[] = "" ∷ []
split sep (String.◌∷◌ c s) =
    let rest = split sep s in if code c == sep then "" ∷ rest else on_first c rest

unfoldable pub join : List String → String → String
join [] sep = ""
join (part ∷ []) sep = part
join (part ∷ next ∷ parts) sep = part ++ (sep ++ join (next ∷ parts) sep)

-- ===== src/Dns.antt =====
-- daemon/dns/zone.go: the zone of the services. `sort.Slice` by name, which may exchange records with
-- equal names, is a parameter. A time is the text that `Format` makes of it, `none` for the zero time.
pub mod Lines
use Prim.Native.Char.{Char, code}
use Prim.Native.String.{◌++◌}
use lightscale.Prelude.{
  ℕ, zero, suc, String, Bool, true, false, ◌||◌, Option, none, some, List, [], ◌∷◌, ◌==◌, string_eq,
  if◌then◌else◌,
}
use lightscale.Strings.{cut}

pub record Record : Type 0 where
  pub name : String
  pub ip : String

pub record Zone : Type 0 where
  pub domain : String
  pub serial : String
  pub records : List Record
  pub now : Option String

-- `TrimSuffix` of "."
unfoldable pub trim_dot : String → String
trim_dot String.[] = ""
trim_dot (String.◌∷◌ c s) =
    let rest = String.◌∷◌ c (trim_dot s) in if String.◌∷◌ c s == "." then "" else rest

-- `%-12s`
unfoldable pub padded : ℕ → String → String
padded zero s = s
padded (suc n) String.[] = String.◌∷◌ " " (padded n "")
padded (suc n) (String.◌∷◌ c s) = String.◌∷◌ c (padded n s)

unfoldable pub record_line : Record → String
unfolding padded
record_line r = padded 12 r.name ++ (" IN A     " ++ (r.ip ++ "\n"))

-- the loop over the records
unfoldable pub record_lines : List Record → List String
record_lines [] = []
record_lines (r ∷ records) =
    let rest = record_lines records in
    if (r.name == "") || (r.ip == "") then rest else record_line r ∷ rest

unfoldable pub concat : List String → String
concat [] = ""
concat (line ∷ lines) = line ++ concat lines

abbrev pub or_now : String → Option String → String
or_now current none = current
or_now current (some now) = now

abbrev pub serial_of : String → Zone → String
serial_of current z = if z.serial == "" then or_now current z.now else z.serial

abbrev pub soa : String → String → String
soa domain serial =
    "@           IN SOA   ns."
    ++ (domain ++ (". admin." ++ (domain ++ (". ( " ++ (serial ++ " 3600 600 86400 60 )\n")))))

module _ (sort : List Record → List Record) where
  -- the text of the zone, or `none` for an error; `current` is the time of the call
  unfoldable pub render : String → Zone → Option String
  unfolding trim_dot record_lines concat
  render current z =
      let domain = trim_dot z.domain in
      if z.domain == ""
      then none
      else some (
          concat (
            ("$ORIGIN " ++ (domain ++ ".\n"))
            ∷ "$TTL 300\n"
            ∷ soa domain (serial_of current z)
            ∷ record_lines (sort z.records)))

abbrev pub before_dot : String → Option (String × String) → String
before_dot fqdn none = fqdn
before_dot fqdn (some (before, _)) = before

unfoldable pub leaf_label : String → String
leaf_label fqdn = before_dot fqdn (cut 46 fqdn)

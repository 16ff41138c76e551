-- ===== src/Api/Ports/Bounds.antt =====
-- What `parsePorts` (daemon/api/services.go) lets through.
use lightscale.Prelude.{
  ℕ, ◌<◌, ◌≤◌, ◌≡◌, refl, inl, inr, String, ◌||◌, Option, none, some, List, [], ◌∷◌, All,
  All-append, ltb, ◌==◌, nat_eq, string_eq, arith, Bool-cases,
}
use lightscale.Prelude.Result.{Result, ok, err}
use lightscale.Origin.Text.{trim_space}
use lightscale.Strings.{cut, split}
use lightscale.Strconv.{parse_int}
use lightscale.Store.Ports.{PortInput}
use lightscale.Api.Ports.{
  PortError, Declared, ports_for, number_of, protocol_of, read_port, parse_port, append_all,
  parse_parts, parse_ports,
}

-- what holds of the ports, unless there was an error
abbrev Good : Result PortError (List PortInput) → Type 0
Good (ok ps) = All Declared ps
Good (err e) = Unit

ports_for-Good : (n : ℕ) (proto : String) → 0 < n → n ≤ 65535 → Good (ports_for n proto)
unfolding ports_for
ports_for-Good n proto low high = elim (Bool-cases (proto == "tcp")) [
  | inl e ↦ rw e ((low, high, inl refl), tt)
  | inr e ↦ elim (Bool-cases (proto == "udp")) [
    | inl f ↦ rw (e, f) ((low, high, inr refl), tt)
    | inr f ↦ elim (Bool-cases (proto == "")) [
      | inl g ↦ rw (e, f, g) ((low, high, inl refl), ((low, high, inr refl), tt))
      | inr g ↦ rw (e, f, g) tt
    ]
  ]
]

read_port-Good : (n : Option ℕ) (proto : String) → Good (read_port n proto)
read_port-Good none proto = tt
read_port-Good (some n) proto = elim (Bool-cases ((n == 0) || ltb 65535 n)) [
  | inl e ↦ rw e tt
  | inr e ↦ rw e (ports_for-Good n proto (ground arith) (ground arith))
]

append_all-Good :
    (r q : Result PortError (List PortInput)) → Good r → Good q → Good (append_all r q)
append_all-Good (err e) q h k = tt
append_all-Good (ok ps) (err e) h k = tt
append_all-Good (ok ps) (ok qs) h k = All-append Declared ps qs h k

parse_parts-Good : (parts : List String) → Good (parse_parts parts)
unfolding parse_parts parse_port
parse_parts-Good [] = tt
parse_parts-Good (part ∷ parts) = elim (Bool-cases (trim_space part == "")) [
  | inl e ↦ rw e (parse_parts-Good parts)
  | inr e ↦
      let raw = trim_space part in
      rw e (
        append_all-Good (parse_port raw) (parse_parts parts)
          (read_port-Good (parse_int (number_of raw (cut 47 raw))) (protocol_of (cut 47 raw)))
          (parse_parts-Good parts))
]

parse_ports-Good : (spec : String) → Good (parse_ports spec)
unfolding parse_ports
parse_ports-Good spec = elim (Bool-cases (trim_space spec == "")) [
  | inl e ↦ rw e tt
  | inr e ↦ rw e (parse_parts-Good (split 44 (trim_space spec)))
]

-- Every port that `parsePorts` returns is between 1 and 65535, with the protocol "tcp" or "udp".
pub parse_ports-Declared :
    (spec : String) (ps : List PortInput) → parse_ports spec ≡ ok ps → All Declared ps
parse_ports-Declared spec ps h = rw h at (parse_ports-Good spec)

-- ===== src/Api/Ports/RoundTrip.antt =====
-- `parsePorts` (daemon/api/services.go) reads what `formatPorts` (cli/cli/service.go) writes.
use Prim.Native.Char.{Char}
use Prim.Native.String.{◌++◌}
use text.Mathlib.TextLemmas.{cons-append}
use lightscale.Prelude.{
  ℕ, suc, ◌+◌, ◌<◌, ◌≡◌, refl, ◌⊎◌, inl, inr, String, Bool, false, ◌||◌, List, [], ◌∷◌, some, map,
  All, ltb, ◌==◌, nat_eq, string_eq, arith, Bool-cases, eq_of_==,
}
use lightscale.Prelude.Result.{ok}
use lightscale.Strings.{cut, join}
use lightscale.Strings.Parts.{Avoids, Without, Avoids-append, Avoids-join, cut-append, split-join}
use lightscale.Strconv.{itoa, digit}
use lightscale.Strconv.Decimal.{parse_int-itoa, Avoids-itoa, text_before-starts}
use lightscale.Origin.Text.{is_space, to_lower, trim_space_whole}
use lightscale.Store.Ports.{PortInput}
use lightscale.Cli.{format_port, format_ports}
use lightscale.Api.Ports.{parse_port, ports_for, parse_parts, parse_ports, port_on, Declared}

-- A test that passes no digit, no slash and no letter of a protocol passes none of the text.
module _ (test : ℕ → Bool) (digits_fail : (d : ℕ) → d < 10 → test (48 + d) ≡ false)
    (slash : test 47 ≡ false) (tcp : Avoids test "tcp") (udp : Avoids test "udp") where
  Avoids-format_port : (p : PortInput) → Declared p → Avoids test (format_port p)
  unfolding format_port
  Avoids-format_port p (low, high, inl e) =
      rw e (Avoids-append test (itoa p.port) _ (Avoids-itoa test p.port digits_fail) (slash, tcp))
  Avoids-format_port p (low, high, inr e) =
      rw e (Avoids-append test (itoa p.port) _ (Avoids-itoa test p.port digits_fail) (slash, udp))

no_space_digit : (d : ℕ) → d < 10 → is_space (48 + d) ≡ false
unfolding is_space
no_space_digit d h = ground arith

solid_format : (p : PortInput) → Declared p → Avoids is_space (format_port p)
unfolding is_space
solid_format p h =
    Avoids-format_port is_space no_space_digit refl (refl, (refl, (refl, tt)))
      (refl, (refl, (refl, tt))) p h

no_comma : (p : PortInput) → Declared p → Without 44 (format_port p)
no_comma p h =
    Avoids-format_port (λ c. c == 44) (λ d small. ground arith) refl (refl, (refl, (refl, tt)))
      (refl, (refl, (refl, tt))) p h

ports_for_known :
    (n : ℕ) (proto : String)
    → (proto ≡ "tcp") ⊎ (proto ≡ "udp")
    → ports_for n (to_lower proto) ≡ ok (port_on n proto ∷ [])
unfolding ports_for to_lower
ports_for_known n proto (inl e) = rw e refl
ports_for_known n proto (inr e) = rw e refl

parse_port-format_port : (p : PortInput) → Declared p → parse_port (format_port p) ≡ ok (p ∷ [])
unfolding parse_port format_port
parse_port-format_port p (low, high, proto) =
    let found : cut 47 (format_port p) ≡ some (itoa p.port, p.protocol) =
      cut-append 47 (itoa p.port) "/" p.protocol refl
        (Avoids-itoa (λ c. c == 47) p.port (λ d small. ground arith)) in
    let read = parse_int-itoa p.port (omega arith) in
    let good : ((p.port == 0) || ltb 65535 p.port) ≡ false = ground arith in
    rw (found, read, good) (ports_for_known p.port p.protocol proto)

not_empty : (c : Char) (s : String) → (String.◌∷◌ c s == "") ≡ false
not_empty c s = elim (Bool-cases (String.◌∷◌ c s == "")) [
  | inl e ↦ cc (eq_of_== (String.◌∷◌ c s) "" e)
  | inr e ↦ e
]

no_space_comma : is_space 44 ≡ false
unfolding is_space
no_space_comma = refl

solid_formats : (ps : List PortInput) → All Declared ps → All (Avoids is_space) (map format_port ps)
solid_formats [] h = tt
solid_formats (p ∷ ps) h = (solid_format p h.0, solid_formats ps h.1)

no_commas : (ps : List PortInput) → All Declared ps → All (Without 44) (map format_port ps)
no_commas [] h = tt
no_commas (p ∷ ps) h = (no_comma p h.0, no_commas ps h.1)

-- The text of a port starts with a character.
format_port-starts :
    (p : PortInput) → (c : Char) × (rest : String) × (format_port p ≡ String.◌∷◌ c rest)
unfolding format_port itoa
format_port-starts p =
    let (d, rest, small, e) = text_before-starts (suc p.port) p.port "" (omega arith) in
    (
      digit d,
      rest ++ (String.◌∷◌ "/" p.protocol),
      rw (e, cons-append (digit d) rest (String.◌∷◌ "/" p.protocol)) refl,
    )

join_filled :
    (p : PortInput) (ps : List PortInput) → (join (map format_port (p ∷ ps)) "," == "") ≡ false
unfolding join
join_filled p [] = let (c, rest, e) = format_port-starts p in rw e (not_empty c rest)
join_filled p (q ∷ qs) =
    let (c, rest, e) = format_port-starts p in rw (e, cons-append c rest) (not_empty c _)

-- The text of a port is not empty.
filled : (p : PortInput) → (format_port p == "") ≡ false
filled p = let (c, rest, e) = format_port-starts p in rw e (not_empty c rest)

parse_parts-formats :
    (ps : List PortInput) → All Declared ps → parse_parts (map format_port ps) ≡ ok ps
unfolding parse_parts
parse_parts-formats [] h = refl
parse_parts-formats (p ∷ ps) h =
    rw
      (
        trim_space_whole (format_port p) (solid_format p h.0),
        filled p,
        parse_port-format_port p h.0,
        parse_parts-formats ps h.1,
      )
      refl

-- Reading what the command line shows of some declared ports gives the same ports in the same order.
pub parse_ports-format_ports :
    (p : PortInput) (ps : List PortInput)
    → All Declared (p ∷ ps)
    → parse_ports (format_ports (p ∷ ps)) ≡ ok (p ∷ ps)
unfolding parse_ports format_ports
parse_ports-format_ports p ps h =
    let solid =
      Avoids-join is_space "," (format_port p) (map format_port ps) (no_space_comma, tt)
        (solid_format p h.0) (solid_formats ps h.1) in
    let parts =
      split-join 44 "," (format_port p) (map format_port ps) refl (no_comma p h.0)
        (no_commas ps h.1) in
    rw (trim_space_whole _ solid, join_filled p ps, parts) (parse_parts-formats (p ∷ ps) h)

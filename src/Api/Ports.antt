-- ===== src/Api/Ports.antt =====
-- `parsePorts` of daemon/api/services.go
pub mod RoundTrip
pub mod Bounds
use lightscale.Prelude.{
  ℕ, ◌<◌, ◌≤◌, ◌≡◌, ◌⊎◌, String, Bool, ◌||◌, Option, none, some, List, [], ◌∷◌, ◌++◌, ltb, ◌==◌,
  nat_eq, string_eq, if◌then◌else◌,
}
use lightscale.Prelude.Result.{Result, ok, err}
use lightscale.Origin.Text.{trim_space, to_lower}
use lightscale.Strconv.{parse_int}
use lightscale.Strings.{cut, split}
use lightscale.Store.Ports.{PortInput}

pub data PortError : Type 0 where
  bad_port bad_protocol : PortError

-- a port as the schema wants it
abbrev pub Declared : PortInput → Type 0
Declared p = (0 < p.port) × (p.port ≤ 65535) × ((p.protocol ≡ "tcp") ⊎ (p.protocol ≡ "udp"))

abbrev pub port_on : ℕ → String → PortInput
port_on port protocol = record { port = port; protocol = protocol }

-- the ports of one part of the text, by the protocol
unfoldable pub ports_for : ℕ → String → Result PortError (List PortInput)
ports_for port proto =
    if proto == "tcp"
    then ok (port_on port "tcp" ∷ [])
    else if proto == "udp"
    then ok (port_on port "udp" ∷ [])
    else if proto == ""
    then ok (port_on port "tcp" ∷ port_on port "udp" ∷ [])
    else err bad_protocol

-- the number and the protocol of a part, split at the first slash
abbrev pub number_of : String → Option (String × String) → String
number_of raw none = raw
number_of raw (some (before, after)) = before

abbrev pub protocol_of : Option (String × String) → String
protocol_of none = ""
protocol_of (some (before, after)) = to_lower after

abbrev pub read_port : Option ℕ → String → Result PortError (List PortInput)
read_port none proto = err bad_port
read_port (some port) proto =
    if (port == 0) || ltb 65535 port then err bad_port else ports_for port proto

unfoldable pub parse_port : String → Result PortError (List PortInput)
unfolding ports_for
parse_port raw =
    let parts = cut 47 raw in read_port (parse_int (number_of raw parts)) (protocol_of parts)

-- `append(out, …)` in front of what the rest of the loop gives
abbrev pub append_all :
    Result PortError (List PortInput)
    → Result PortError (List PortInput)
    → Result PortError (List PortInput)
append_all (err e) rest = err e
append_all (ok ps) (err e) = err e
append_all (ok ps) (ok qs) = ok (ps ++ qs)

-- the loop over the parts
unfoldable pub parse_parts : List String → Result PortError (List PortInput)
unfolding parse_port
parse_parts [] = ok []
parse_parts (part ∷ parts) =
    let raw = trim_space part in
    let rest = parse_parts parts in if raw == "" then rest else append_all (parse_port raw) rest

unfoldable pub parse_ports : String → Result PortError (List PortInput)
unfolding parse_parts
parse_ports spec =
    let text = trim_space spec in if text == "" then ok [] else parse_parts (split 44 text)

-- ===== src/Cli.antt =====
-- cli/cli/service.go: what the command line shows of the ports of a service.
use Prim.Native.String.{◌++◌}
use lightscale.Prelude.{String, List, [], ◌∷◌, map}
use lightscale.Strconv.{itoa}
use lightscale.Strings.{join}
use lightscale.Store.Ports.{PortInput}

unfoldable pub format_port : PortInput → String
format_port p = itoa p.port ++ String.◌∷◌ "/" p.protocol

unfoldable pub format_ports : List PortInput → String
unfolding format_port
format_ports [] = "all"
format_ports (p ∷ ps) = join (map format_port (p ∷ ps)) ","

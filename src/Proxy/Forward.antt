-- ===== src/Proxy/Forward.antt =====
-- daemon/proxy/tcp.go and udp.go: the connections and datagrams that the daemon forwards to the
-- backends of services. The dial of the backend is a parameter: the local address of the connection
-- and the number that its `Close` is known by, or an error. The bytes, the replies of udp.go and the
-- times at which its flows were last used are not modelled.
-- An address of a peer is its host, its port and its text.
pub mod Allowed
pub mod Always
pub mod Consistent
mod Tests
use lightscale.Prelude.{
  ℕ, ◌≡◌, String, Bool, true, false, ◌&&◌, Option, none, some, List, [], ◌∷◌, Map, get, put, delete,
  Eq, string_eq, nat_eq, ◌==◌, ◌↔◌, if◌then◌else◌,
}
use lightscale.Prelude.Result.{Result, ok, err}
use lightscale.Origin.{Spec}
use lightscale.Policy.{Index, UserSnapshot, ServiceSnapshot}
use lightscale.Policy.FlowTable.{Flow, FlowTable, add, remove}
use lightscale.Policy.Resolver.{Decision, allow, deny, ServiceVerdict, check_service}
use lightscale.Proxy.{World, Target, BackendResolver, ResolveError, resolve, invalidate}

pub record Peer : Type 0 where
  pub host : String
  pub port : ℕ
  pub text : String

-- The dial of a backend: `unresolved` where ResolveUDPAddr fails, `refused` where the dial itself does.
pub data Dialled : Type 0 where
  connected : String × ℕ → Dialled
  refused unresolved : Dialled

abbrev pub Dial : Type 0
Dial = String → ℕ → Dialled

-- `DialContext` of tcp.go resolves and connects in one step.
abbrev pub one_step : Dialled → Dialled
one_step (connected backend) = connected backend
one_step refused = refused
one_step unresolved = refused

abbrev pub accepted : ServiceVerdict → Option (UserSnapshot × ServiceSnapshot)
accepted (allow, some user, some svc) = some (user, svc)
accepted _ = none

abbrev pub flow_of : UserSnapshot → ServiceSnapshot → ℕ → String → String → String × ℕ → Flow
flow_of user svc port proto src (local_addr, conn) = record {
  src_user_id = user.id;
  object_type = "service";
  object_id = svc.id;
  port = port;
  protocol = proto;
  src_addr = src;
  backend_local_addr = local_addr;
  close = some conn;
}

-- what the handlers share
pub record State : Type 0 where
  pub flows : FlowTable
  pub resolver : BackendResolver

-- what follows the dial: the flow's id, or `none`, and the target is forgotten if it was refused
abbrev pub dialled :
    UserSnapshot → ServiceSnapshot → ℕ → String → String → Dialled → State → Option ℕ × State
dialled user svc port proto src unresolved s = (none, s)
dialled user svc port proto src refused s =
    (none, record s { resolver = invalidate s.resolver svc.origin })
dialled user svc port proto src (connected backend) s =
    let (flows, id) = add s.flows (flow_of user svc port proto src backend) in
    (some id, record s { flows = flows })

abbrev pub resolved :
    Dial
    → UserSnapshot
    → ServiceSnapshot
    → ℕ
    → String
    → String
    → State
    → Result ResolveError Target × BackendResolver
    → Option ℕ × State
resolved dial user svc port proto src s (err e, r) = (none, record s { resolver = r })
resolved dial user svc port proto src s (ok t, r) =
    dialled user svc port proto src (dial t.dial_host port) (record s { resolver = r })

-- from Resolve to Add, which both handlers do alike
unfoldable pub open_flow :
    World → Dial → UserSnapshot → ServiceSnapshot → ℕ → String → String → State → Option ℕ × State
open_flow w dial user svc port proto src s =
    resolved dial user svc port proto src s (resolve w svc.origin port proto s.resolver)

abbrev pub open_accepted :
    World
    → Dial
    → Option (UserSnapshot × ServiceSnapshot)
    → ℕ
    → String
    → String
    → State
    → Option ℕ × State
open_accepted w dial none port proto src s = (none, s)
open_accepted w dial (some (user, svc)) port proto src s =
    open_flow w dial user svc port proto src s

-- `Handle` of the TCPHandler up to `splice`: the id of the flow, `none` if the connection is closed
unfoldable pub handle_tcp : World → Dial → Index → Peer → String → ℕ → State → Option ℕ × State
unfolding open_flow
handle_tcp w dial idx peer dst_ip dst_port s =
    open_accepted w (λ host port. one_step (dial host port))
      (accepted (check_service idx peer.host dst_ip dst_port "tcp")) dst_port "tcp" peer.text s

-- the deferred Remove, after `splice`
unfoldable pub close_flow : ℕ → State → State
close_flow id s = record s { flows = remove s.flows id }

-- `udpKey`
pub record UdpKey : Type 0 where
  pub src_ip : String
  pub src_port : ℕ
  pub dst_vip : String
  pub dst_port : ℕ

unfoldable pub same_key : UdpKey → UdpKey → Bool
same_key a b =
    (a.src_ip == b.src_ip)
    && ((a.src_port == b.src_port) && ((a.dst_vip == b.dst_vip) && (a.dst_port == b.dst_port)))

-- the map of the UDPHandler: the ids of the flows
abbrev pub UdpFlows : Type 0
UdpFlows = List (UdpKey × ℕ)

unfoldable pub find_flow : UdpKey → UdpFlows → Option ℕ
find_flow key [] = none
find_flow key ((k, id) ∷ flows) =
    let rest = find_flow key flows in if same_key k key then some id else rest

unfoldable pub without : UdpKey → UdpFlows → UdpFlows
without key [] = []
without key ((k, id) ∷ flows) =
    let rest = without key flows in if same_key k key then rest else (k, id) ∷ rest

-- a flow that was opened is put into the map
abbrev pub kept_open : UdpKey → UdpFlows → Option ℕ × State → Option ℕ × UdpFlows × State
kept_open key udp (none, s) = (none, udp, s)
kept_open key udp (some id, s) = (some id, (key, id) ∷ without key udp, s)

abbrev pub use_flow :
    World
    → Dial
    → UdpKey
    → String
    → UserSnapshot
    → ServiceSnapshot
    → UdpFlows
    → State
    → Option ℕ
    → Option ℕ × UdpFlows × State
use_flow w dial key src user svc udp s (some id) = (some id, udp, s)
use_flow w dial key src user svc udp s none =
    kept_open key udp (open_flow w dial user svc key.dst_port "udp" src s)

abbrev pub use_accepted :
    World
    → Dial
    → UdpKey
    → String
    → Option (UserSnapshot × ServiceSnapshot)
    → UdpFlows
    → State
    → Option ℕ × UdpFlows × State
use_accepted w dial key src none udp s = (none, udp, s)
use_accepted w dial key src (some (user, svc)) udp s =
    use_flow w dial key src user svc udp s (find_flow key udp)

abbrev pub key_of : Peer → String → ℕ → UdpKey
key_of peer dst_vip dst_port = record {
  src_ip = peer.host;
  src_port = peer.port;
  dst_vip = dst_vip;
  dst_port = dst_port;
}

-- `HandlePacket`: the id of the flow that the datagram is sent on, `none` if it is dropped
unfoldable pub handle_packet :
    World → Dial → Index → Peer → String → ℕ → UdpFlows → State → Option ℕ × UdpFlows × State
unfolding open_flow find_flow without
handle_packet w dial idx peer dst_vip dst_port udp s =
    use_accepted w dial (key_of peer dst_vip dst_port) peer.text
      (accepted (check_service idx peer.host dst_vip dst_port "udp")) udp s

abbrev pub removed : Option ℕ → State → State
removed none s = s
removed (some id) s = close_flow id s

-- `removeFlow`
unfoldable pub remove_flow : UdpKey → UdpFlows → State → UdpFlows × State
unfolding close_flow find_flow without
remove_flow key udp s = (without key udp, removed (find_flow key udp) s)

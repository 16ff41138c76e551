-- ===== src/Proxy/Forward/Always.antt =====
-- The forwarders of daemon/proxy and the flow table while the store changes, as daemon/runtime wires
-- them: a change of the store is followed by Build, by the exchange of the index and by Reap.
use lightscale.Prelude.{ℕ, ◌≡◌, refl, Option, none, some, String, [], nat_eq, In, All_at}
use lightscale.Store.{Store}
use lightscale.Store.Invariants.Always.{IsValid}
use lightscale.Policy.{Index, UserSnapshot, ServiceSnapshot}
use lightscale.Policy.Build.{build}
use lightscale.Policy.Build.Reaped.{Backed, allowed-Backed}
use lightscale.Policy.FlowTable.{Flow, new_flow_table, reap}
use lightscale.Policy.Resolver.{check_service}
use lightscale.Proxy.{World, Docker, new_resolver}
use lightscale.Proxy.Forward.Consistent.{Consistent, Consistent-build}
use lightscale.Proxy.Forward.Allowed.{
  Sound, Sound-remove, Sound-reap, Sound-open_flow, flow_of-allowed,
}
use lightscale.Proxy.Forward.{
  one_step, Peer, Dial, State, UdpKey, UdpFlows, accepted, open_accepted, handle_tcp, close_flow,
  handle_packet, key_of, use_accepted, use_flow, kept_open, remove_flow, removed, find_flow,
}

module _ (idx : Index) where
  Sound-open_accepted :
      (w : World) (dial : Dial) (src dst : String) (port : ℕ) (proto text : String) (s : State)
      (o : Option (UserSnapshot × ServiceSnapshot))
      → Consistent idx
      → accepted (check_service idx src dst port proto) ≡ o
      → Sound idx s.flows.flows
      → Sound idx (open_accepted w dial o port proto text s).1.flows.flows
  Sound-open_accepted w dial src dst port proto text s none c e v = v
  Sound-open_accepted w dial src dst port proto text s (some (u, t)) c e v =
      Sound-open_flow idx u t port proto text
        (λ backend. flow_of-allowed idx src dst port proto text backend u t c e) w dial s v

  Sound-handle_tcp :
      (w : World) (dial : Dial) (peer : Peer) (dst : String) (port : ℕ) (s : State)
      → Consistent idx
      → Sound idx s.flows.flows
      → Sound idx (handle_tcp w dial idx peer dst port s).1.flows.flows
  unfolding handle_tcp
  Sound-handle_tcp w dial peer dst port s c v =
      Sound-open_accepted w (λ host port. one_step (dial host port)) peer.host dst port "tcp"
        peer.text s _ c refl v

  Sound-kept_open :
      (key : UdpKey) (udp : UdpFlows) (o : Option ℕ × State)
      → Sound idx o.1.flows.flows
      → Sound idx (kept_open key udp o).2.flows.flows
  Sound-kept_open key udp (none, s) v = v
  Sound-kept_open key udp (some id, s) v = v

  Sound-use_flow :
      (w : World) (dial : Dial) (src text : String) (key : UdpKey) (udp : UdpFlows) (s : State)
      (u : UserSnapshot) (t : ServiceSnapshot) (o : Option ℕ)
      → Consistent idx
      → accepted (check_service idx src key.dst_vip key.dst_port "udp") ≡ some (u, t)
      → Sound idx s.flows.flows
      → Sound idx (use_flow w dial key text u t udp s o).2.flows.flows
  Sound-use_flow w dial src text key udp s u t (some id) c e v = v
  Sound-use_flow w dial src text key udp s u t none c e v = Sound-kept_open key udp _ (
      Sound-open_flow idx u t key.dst_port "udp" text
        (λ backend. flow_of-allowed idx src key.dst_vip key.dst_port "udp" text backend u t c e) w
        dial s v)

  Sound-use_accepted :
      (w : World) (dial : Dial) (src text : String) (key : UdpKey) (udp : UdpFlows) (s : State)
      (o : Option (UserSnapshot × ServiceSnapshot))
      → Consistent idx
      → accepted (check_service idx src key.dst_vip key.dst_port "udp") ≡ o
      → Sound idx s.flows.flows
      → Sound idx (use_accepted w dial key text o udp s).2.flows.flows
  Sound-use_accepted w dial src text key udp s none c e v = v
  Sound-use_accepted w dial src text key udp s (some (u, t)) c e v =
      Sound-use_flow w dial src text key udp s u t (find_flow key udp) c e v

  Sound-handle_packet :
      (w : World) (dial : Dial) (peer : Peer) (dst : String) (port : ℕ) (udp : UdpFlows) (s : State)
      → Consistent idx
      → Sound idx s.flows.flows
      → Sound idx (handle_packet w dial idx peer dst port udp s).2.flows.flows
  unfolding handle_packet
  Sound-handle_packet w dial peer dst port udp s c v =
      Sound-use_accepted w dial peer.host peer.text (key_of peer dst port) udp s _ c refl v

  Sound-removed :
      (o : Option ℕ) (s : State) → Sound idx s.flows.flows → Sound idx (removed o s).flows.flows
  unfolding close_flow
  Sound-removed none s v = v
  Sound-removed (some id) s v = Sound-remove idx s.flows id v

  Sound-remove_flow :
      (key : UdpKey) (udp : UdpFlows) (s : State)
      → Sound idx s.flows.flows
      → Sound idx (remove_flow key udp s).1.flows.flows
  unfolding remove_flow
  Sound-remove_flow key udp s v = Sound-removed (find_flow key udp) s v

-- The store, the forwarders' state and the map of the UDPHandler after any connections, datagrams,
-- ends of connections and changes of the store, each handled as a whole before the next one.
pub data Reach : Store → State → UdpFlows → Type 0 where
  started :
      (st : Store) (d : Option Docker)
      → IsValid st.db
      → Reach st (record { flows = new_flow_table; resolver = new_resolver d }) []
  connected :
      {st : Store} {s : State} {udp : UdpFlows}
      → Reach st s udp
      → (w : World) (dial : Dial) (peer : Peer) (dst : String) (port : ℕ)
      → Reach st (handle_tcp w dial (build st) peer dst port s).1 udp
  received :
      {st : Store} {s : State} {udp : UdpFlows}
      → Reach st s udp
      → (w : World) (dial : Dial) (peer : Peer) (dst : String) (port : ℕ)
      → Reach st
          (handle_packet w dial (build st) peer dst port udp s).2
          (handle_packet w dial (build st) peer dst port udp s).1
  closed :
      {st : Store} {s : State} {udp : UdpFlows}
      → Reach st s udp
      → (id : ℕ) → Reach st (close_flow id s) udp
  ended :
      {st : Store} {s : State} {udp : UdpFlows}
      → Reach st s udp
      → (key : UdpKey) → Reach st (remove_flow key udp s).1 (remove_flow key udp s).0
  changed :
      {st : Store} {s : State} {udp : UdpFlows}
      → Reach st s udp
      → (new : Store) → IsValid new.db
      → Reach new (record s { flows = (reap s.flows (build new)).0 }) udp

Reach-Sound :
    (st : Store) (s : State) (udp : UdpFlows)
    → Reach st s udp
    → IsValid st.db × Sound (build st) s.flows.flows
unfolding new_flow_table close_flow
Reach-Sound st s udp (Reach.started t d v) = (v, (tt, tt))
Reach-Sound st s udp (Reach.connected {st = t} {s = p} {udp = q} h w dial peer dst port) =
    let (v, ok_) = Reach-Sound t p q h in
    (v, Sound-handle_tcp (build t) w dial peer dst port p (Consistent-build t v) ok_)
Reach-Sound st s udp (Reach.received {st = t} {s = p} {udp = q} h w dial peer dst port) =
    let (v, ok_) = Reach-Sound t p q h in
    (v, Sound-handle_packet (build t) w dial peer dst port q p (Consistent-build t v) ok_)
Reach-Sound st s udp (Reach.closed {st = t} {s = p} {udp = q} h id) =
    let (v, ok_) = Reach-Sound t p q h in (v, Sound-remove (build t) p.flows id ok_)
Reach-Sound st s udp (Reach.ended {st = t} {s = p} {udp = q} h key) =
    let (v, ok_) = Reach-Sound t p q h in (v, Sound-remove_flow (build t) key q p ok_)
Reach-Sound st s udp (Reach.changed {st = t} {s = p} {udp = q} h new v) =
    (v, Sound-reap (build new) p.flows (Reach-Sound t p q h).1.0)

-- Whatever connections and datagrams the forwarders handled, and whatever valid stores the daemon saw
-- in between: every open flow to a service is one of a user and to a service that are in the tables
-- now, and the tables give that user access to that service on the flow's port and protocol. Each
-- connection and datagram is handled, up to Add, without a change of the store in between.
pub Reach-Backed :
    (st : Store) (s : State) (udp : UdpFlows) (id : ℕ) (f : Flow)
    → Reach st s udp
    → In (id, f) s.flows.flows
    → f.object_type ≡ "service"
    → Backed st f
Reach-Backed st s udp id f h m kind =
    let (v, (distinct, all)) = Reach-Sound st s udp h in
    allowed-Backed st f v kind (All_at _ s.flows.flows all m)

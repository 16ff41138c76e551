-- ===== src/Wg/Relay/Relayed.antt =====
-- Which packets `Handle` of daemon/wg/relay.go relays, and which it keeps from the network stack.
use lightscale.Prelude.{
  String, ℕ, ◌≡◌, ◌≢◌, ◌≤◌, ◌↔◌, refl, ap, true, false, Option, none, some, List, [], ◌∷◌, ◌/◌,
  arith, length, Bool-cases, inl, inr, Distinct, eq_of_==, ==_of_eq, nat_eq, string_eq, get,
}
use lightscale.Netip.{Addr, zero_addr, v4, v6, contains}
use lightscale.Netip.Subnet.{InSubnet, contains-InSubnet, InSubnet-contains}
use lightscale.Netip.Text.{to_string}
use lightscale.Policy.{Index}
use lightscale.Policy.FlowTable.{is_allow}
use lightscale.Policy.Resolver.{check_peer, allow, deny, Decision}
use lightscale.Policy.Resolver.Peers.{PeerAccess, peer_access, check_peer-allow_iff}
use lightscale.Wg.Relay.Layout.{Layout, parse_ipv4-Layout, Layout-parse_ipv4}
use lightscale.Wg.Relay.{Relay, parse_ipv4, same_addr, version, is_known, handle_between, handle}

number : Addr → ℕ
number zero_addr = 0
number (v4 n) = n
number (v6 n z) = n

zone : Addr → String
zone (v6 n z) = z
zone _ = ""

same_addr_iff : (a b : Addr) → (same_addr a b ≡ true) ↔ (a ≡ b)
unfolding number zone
same_addr_iff zero_addr zero_addr = (λ h. refl, λ e. refl)
same_addr_iff zero_addr (v4 n) = (λ h. cc, λ e. cc)
same_addr_iff zero_addr (v6 n z) = (λ h. cc, λ e. cc)
same_addr_iff (v4 m) zero_addr = (λ h. cc, λ e. cc)
same_addr_iff (v4 m) (v4 n) = (λ h. ap v4 (eq_of_== m n h), λ e. ==_of_eq m n (ap number e))
same_addr_iff (v4 m) (v6 n z) = (λ h. cc, λ e. cc)
same_addr_iff (v6 m z) zero_addr = (λ h. cc, λ e. cc)
same_addr_iff (v6 m z) (v4 n) = (λ h. cc, λ e. cc)
same_addr_iff (v6 m z) (v6 n y) = (
  λ h.
      let p : m ≡ n = eq_of_== m n (ground arith) in
      let q : z ≡ y = eq_of_== z y (ground arith) in λ i. v6 (p i) (q i),
  λ e.
      let p = ==_of_eq m n (ap number e) in
      let q = ==_of_eq z y (ap zone e) in ground (arith, p, q),
)

-- An IPv4 packet, whose first byte starts with the version 4, with the addresses at their places, to
-- a client, which agrees with the client subnet in its network bits, that is not the daemon.
pub record ToClient (r : Relay) (packet : List ℕ) (src dst : Addr) : Type 0 where
  pub long : 20 ≤ length packet
  pub is_v4 : (first : ℕ) × (others : List ℕ) × (packet ≡ first ∷ others) × (first / 16 ≡ 4)
  pub layout : Layout packet src dst
  pub not_daemon : dst ≢ r.daemon_ip
  pub client : InSubnet r.client_cidr dst

-- A packet from one client to another, which the policy lets through.
pub record Relayable (r : Relay) (idx : Index) (packet : List ℕ) : Type 0 where
  pub src : Addr
  pub dst : Addr
  pub to_client : ToClient r packet src dst
  pub other : src ≢ dst
  pub access : PeerAccess idx (to_string src) (to_string dst)

differ : (a b : Addr) → same_addr a b ≡ false → a ≢ b
differ a b h e = cc ((same_addr_iff a b).1 e)

differ_of : (a b : Addr) → a ≢ b → same_addr a b ≡ false
differ_of a b n = elim (Bool-cases (same_addr a b)) [
  | inl h ↦ elim (n ((same_addr_iff a b).0 h)) [ ]
  | inr h ↦ h
]

is_allow-allow : (d : Decision) → is_allow d ≡ true → d ≡ allow
is_allow-allow deny h = cc
is_allow-allow allow h = refl

leading :
    (packet : List ℕ)
    → 20 ≤ length packet
    → version packet ≡ 4
    → (first : ℕ) × (others : List ℕ) × (packet ≡ first ∷ others) × (first / 16 ≡ 4)
leading [] l v = absurd (omega arith)
leading (b ∷ packet) l v = (b, packet, refl, v)

version_of :
    (packet : List ℕ)
    → ((first : ℕ) × (others : List ℕ) × (packet ≡ first ∷ others) × (first / 16 ≡ 4))
    → version packet ≡ 4
version_of packet (first, others, e, v) = rw e v

module _ (r : Relay) (idx : Index) (packet : List ℕ) where
  handle-long : (handle r idx packet).0 ≡ true → (20 ≤ length packet) × (version packet ≡ 4)
  unfolding handle
  handle-long h = (ground arith, eq_of_== (version packet) 4 (ground arith))

  handle_parsed :
      20 ≤ length packet
      → version packet ≡ 4
      → handle r idx packet ≡ handle_between r idx packet (parse_ipv4 packet)
  unfolding handle
  handle_parsed l v = ground (arith, ==_of_eq (version packet) 4 v)

  module _ (src dst : Addr) where
    kept_from_stack :
        (handle_between r idx packet (some (src, dst))).0 ≡ true
        → (dst ≢ r.daemon_ip) × (contains r.client_cidr dst ≡ true)
    unfolding handle_between
    kept_from_stack h = (differ dst r.daemon_ip (ground arith), ground arith)

    keeps_from_stack :
        dst ≢ r.daemon_ip
        → contains r.client_cidr dst ≡ true
        → (handle_between r idx packet (some (src, dst))).0 ≡ true
    unfolding handle_between
    keeps_from_stack n c = ground (arith, differ_of dst r.daemon_ip n)

    injected :
        (p : List ℕ)
        → (handle_between r idx packet (some (src, dst))).1 ≡ some p
        → (p ≡ packet) × (src ≢ dst) × ((check_peer idx (to_string src) (to_string dst)).0 ≡ allow)
    unfolding handle_between
    injected p h = (
      ground arith,
      differ src dst (ground arith),
      is_allow-allow (check_peer idx (to_string src) (to_string dst)).0 (ground arith),
    )

    kept_if_injected :
        (p : List ℕ)
        → (handle_between r idx packet (some (src, dst))).1 ≡ some p
        → (handle_between r idx packet (some (src, dst))).0 ≡ true
    unfolding handle_between
    kept_if_injected p h = ground arith

    injects :
        dst ≢ r.daemon_ip
        → contains r.client_cidr dst ≡ true
        → src ≢ dst
        → PeerAccess idx (to_string src) (to_string dst)
        → (check_peer idx (to_string src) (to_string dst)).0 ≡ allow
        → (handle_between r idx packet (some (src, dst))).1 ≡ some packet
    unfolding handle_between
    injects n c o a h =
        let known : is_known (get (to_string dst) idx.peer_by_ip) ≡ true = rw a.known_dst refl in
        rw (differ_of dst r.daemon_ip n, c, differ_of src dst o, known, h) refl

  to_client :
      (src dst : Addr)
      → parse_ipv4 packet ≡ some (src, dst)
      → 20 ≤ length packet
      → version packet ≡ 4
      → (handle_between r idx packet (some (src, dst))).0 ≡ true
      → ToClient r packet src dst
  to_client src dst e l v h =
      let (not_daemon, client) = kept_from_stack src dst h in
      let layout = parse_ipv4-Layout packet src dst l e in
      record {
        long = l;
        is_v4 = leading packet l v;
        layout = layout;
        not_daemon = not_daemon;
        client = contains-InSubnet r.client_cidr dst _ layout.destination client;
      }

  parsed-ToClient :
      (o : Option (Addr × Addr))
      → parse_ipv4 packet ≡ o
      → 20 ≤ length packet
      → version packet ≡ 4
      → (handle_between r idx packet o).0 ≡ true
      → (src : Addr) × (dst : Addr) × ToClient r packet src dst
  unfolding handle_between
  parsed-ToClient none e l v h = cc h
  parsed-ToClient (some (src, dst)) e l v h = (src, dst, to_client src dst e l v h)

  parsed-Relayable :
      (o : Option (Addr × Addr)) (p : List ℕ)
      → parse_ipv4 packet ≡ o
      → 20 ≤ length packet
      → version packet ≡ 4
      → (handle_between r idx packet o).1 ≡ some p
      → (p ≡ packet) × Relayable r idx packet
  unfolding handle_between
  parsed-Relayable none p e l v h = cc h
  parsed-Relayable (some (src, dst)) p e l v h =
      let (same, other, allowed) = injected src dst p h in
      (
        same,
        record {
          src = src;
          dst = dst;
          to_client = to_client src dst e l v (kept_if_injected src dst p h);
          other = other;
          access = peer_access idx (to_string src) (to_string dst) allowed;
        },
      )

  injected-long :
      (p : List ℕ) → (handle r idx packet).1 ≡ some p → (20 ≤ length packet) × (version packet ≡ 4)
  unfolding handle
  injected-long p h = (ground arith, eq_of_== (version packet) 4 (ground arith))

  -- Handle keeps a packet from the network stack exactly when it has at least 20 bytes, the first of
  -- them starts with the version 4, and the address in its bytes 16 to 19, which is where IPv4 has
  -- the destination, is one of the client subnet and not the daemon's.
  pub handle-kept_iff :
      ((handle r idx packet).0 ≡ true) ↔ ((src : Addr) × (dst : Addr) × ToClient r packet src dst)
  handle-kept_iff = (
    λ h.
        let (l, v) = handle-long h in
        parsed-ToClient (parse_ipv4 packet) refl l v (rw (handle_parsed l v) at h),
    λ (src, dst, c).
        rw
          (
            handle_parsed c.long (version_of packet c.is_v4),
            Layout-parse_ipv4 packet src dst c.long c.layout,
          )
          (keeps_from_stack src dst c.not_daemon (InSubnet-contains r.client_cidr dst c.client)),
  )

  -- With distinct rule ids, Handle sends a packet back into the device exactly when it is the one
  -- that it was given, it has at least 20 bytes, the first with the version 4, the address in its
  -- bytes 16 to 19 is one of the client subnet and neither the daemon's nor the source in its bytes
  -- 12 to 15, both addresses are users', and the policy lets the source reach the destination.
  pub handle-injected_iff :
      (p : List ℕ)
      → Distinct (λ r. r.id) idx.rules
      → ((handle r idx packet).1 ≡ some p) ↔ ((p ≡ packet) × Relayable r idx packet)
  handle-injected_iff p distinct = (
    λ h.
        let (l, v) = injected-long p h in
        parsed-Relayable (parse_ipv4 packet) p refl l v (rw (handle_parsed l v) at h),
    λ (same, a).
        let c = a.to_client in
        let allowed =
          (check_peer-allow_iff idx (to_string a.src) (to_string a.dst) distinct).1 a.access in
        rw
          (
            handle_parsed c.long (version_of packet c.is_v4),
            Layout-parse_ipv4 packet a.src a.dst c.long c.layout,
            same,
          )
          (injects a.src a.dst c.not_daemon (InSubnet-contains r.client_cidr a.dst c.client) a.other
            a.access allowed),
  )

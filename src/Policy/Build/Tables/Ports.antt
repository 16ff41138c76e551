-- ===== src/Policy/Build/Tables/Ports.antt =====
-- The ports of a service in an index that `Build` (daemon/policy/index.go) makes, in terms of the
-- table service_ports.
use lightscale.Prelude.{
  ℕ, ◌≡◌, ◌≢◌, refl, sym, ap, ◌∙◌, ◌↔◌, ◌⊎◌, inl, inr, String, List, [], ◌∷◌, map, keep,
  keep_passes, ◌==◌, nat_eq, In, here, there, In-cons, In-map, row_of_In-map, In_of_In-keep,
  In-keep_of, All_at, Bool-cases, eq_of_==, ==_of_eq,
}
use lightscale.Store.{ServicePort, ServiceRow, Db}
use lightscale.Store.Ports.{precedes, insert_port, order_ports, load_service_ports}
use lightscale.Store.Services.{with_ports}
use lightscale.Policy.{PortSpec}
use lightscale.Policy.Resolver.Access.{PortDeclared}
use lightscale.Policy.Build.{service_snapshot}

-- The service has no row in the table of ports, or one with the port and the protocol.
abbrev pub PortOpen : Db → ℕ → ℕ → String → Type 0
PortOpen db service_id port proto =
    ((p : ServicePort) → In p db.service_ports → p.service_id ≢ service_id)
    ⊎ ((p : ServicePort) × In p db.service_ports
        × (p.service_id ≡ service_id)
        × (p.port ≡ port)
        × (p.protocol ≡ proto))

In-insert_port :
    (p q : ServicePort) (ps : List ServicePort) → In q (insert_port p ps) → In q (p ∷ ps)
unfolding insert_port
In-insert_port p q [] m = m
In-insert_port p q (r ∷ ps) m = elim (Bool-cases (precedes p r)) [
  | inl e ↦ (rw e at m)
  | inr e ↦ elim (In-cons (rw e at m)) [
    | inl same ↦ there (here same)
    | inr n ↦ elim (In-cons (In-insert_port p q ps n)) [
      | inl same ↦ here same
      | inr k ↦ there (there k)
    ]
  ]
]

In-insert_port_of :
    (p q : ServicePort) (ps : List ServicePort) → In q (p ∷ ps) → In q (insert_port p ps)
unfolding insert_port
In-insert_port_of p q [] m = m
In-insert_port_of p q (r ∷ ps) m = elim (Bool-cases (precedes p r)) [
  | inl e ↦ rw e m
  | inr e ↦ elim (In-cons m) [
    | inl same ↦ rw e (there (In-insert_port_of p q ps (here same)))
    | inr n ↦ elim (In-cons n) [
      | inl same ↦ rw e (here same)
      | inr k ↦ rw e (there (In-insert_port_of p q ps (there k)))
    ]
  ]
]

In-order_ports : (q : ServicePort) (ps : List ServicePort) → In q (order_ports ps) → In q ps
unfolding order_ports
In-order_ports q [] m = m
In-order_ports q (p ∷ ps) m = elim (In-cons (In-insert_port p q (order_ports ps) m)) [
  | inl same ↦ here same
  | inr n ↦ there (In-order_ports q ps n)
]

In-order_ports_of : (q : ServicePort) (ps : List ServicePort) → In q ps → In q (order_ports ps)
unfolding order_ports
In-order_ports_of q [] m = m
In-order_ports_of q (p ∷ ps) m =
    In-insert_port_of p q (order_ports ps)
      (elim (In-cons m) [ inl same ↦ here same | inr n ↦ there (In-order_ports_of q ps n) ])

empty_map : {A B : Type 0} (f : A → B) (xs : List A) → ((x : A) → In x xs → ⊥) → map f xs ≡ []
empty_map f [] h = refl
empty_map f (x ∷ xs) h = elim (h x (here refl)) [ ]

abbrev port_spec : ServicePort → PortSpec
port_spec p = record { port = p.port; protocol = p.protocol }

module _ (db : Db) (t : ServiceRow) where
  loaded :
      (p : ServicePort)
      → In p (load_service_ports t.id db)
      → In p db.service_ports × (p.service_id ≡ t.id)
  unfolding load_service_ports
  loaded p m =
      let n = In-order_ports p (keep (λ p. p.service_id == t.id) db.service_ports) m in
      (
        In_of_In-keep _ db.service_ports n,
        eq_of_== p.service_id t.id (All_at _ _ (keep_passes _ db.service_ports) n),
      )

  loads :
      (p : ServicePort)
      → In p db.service_ports
      → p.service_id ≡ t.id
      → In p (load_service_ports t.id db)
  unfolding load_service_ports
  loads p m e =
      In-order_ports_of p _
        (In-keep_of (λ p. p.service_id == t.id) db.service_ports m (==_of_eq p.service_id t.id e))

  undeclared :
      ((p : ServicePort) → In p db.service_ports → p.service_id ≢ t.id)
      → (service_snapshot (with_ports db t)).ports ≡ []
  undeclared h =
      empty_map port_spec (load_service_ports t.id db) (λ p m. let (n, e) = loaded p m in h p n e)

  none_loaded :
      (service_snapshot (with_ports db t)).ports ≡ []
      → (p : ServicePort) → In p db.service_ports
      → p.service_id ≢ t.id
  none_loaded empty p m e =
      let n = In-map port_spec (load_service_ports t.id db) (loads p m e) in
      elim (rw empty at n) [ ]

  -- The ports of the service in the index say of a port and a protocol what the table does.
  pub declared_iff :
      (port : ℕ) (proto : String)
      → PortDeclared (service_snapshot (with_ports db t)).ports port proto
        ↔ PortOpen db t.id port proto
  declared_iff port proto = (to, of)
    where
      to :
          PortDeclared (service_snapshot (with_ports db t)).ports port proto
          → PortOpen db t.id port proto
      to (inl empty) = inl (none_loaded empty)
      to (inr (q, m, a, b)) =
          let (p, n, e) = row_of_In-map port_spec (load_service_ports t.id db) m in
          let (k, own) = loaded p n in
          inr (
            p,
            k,
            own,
            ap (λ (x : PortSpec). x.port) (sym e) ∙ a,
            ap (λ (x : PortSpec). x.protocol) (sym e) ∙ b,
          )

      of :
          PortOpen db t.id port proto
          → PortDeclared (service_snapshot (with_ports db t)).ports port proto
      of (inl h) = inl (undeclared h)
      of (inr (p, m, own, a, b)) =
          inr (port_spec p, In-map port_spec (load_service_ports t.id db) (loads p m own), a, b)

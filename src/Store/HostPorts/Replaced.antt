-- ===== src/Store/HostPorts/Replaced.antt =====
-- The ports of a service are replaced, in daemon/store/services.go: what is left of all ports.
use lightscale.Prelude.{
  ℕ, ◌+◌, ◌≡◌, refl, inl, inr, Bool, true, false, ◌&&◌, not, List, [], ◌∷◌, any, any-append, keep,
  ◌==◌, nat_eq, string_eq, arith, Bool-cases, ==_of_eq,
}
use lightscale.Prelude.Result.{Result, ok, err}
use lightscale.Store.{ServicePort, Db, Error}
use lightscale.Store.Ports.{
  PortInput, bad_protocol, bad_port, port_of, insert_service_port, insert_service_ports,
  replace_service_ports,
}
use lightscale.Store.Outcomes.{Post, Post-continue}
use lightscale.Store.HostPorts.{has_port}

-- From the ports of `db`: the other services have theirs still, and `id` has one if `some_port`. The
-- services are as they were.
abbrev pub Replaced : Db → ℕ → Bool → {A : Type 0} → A → Db → Type 0
Replaced db id some_port a db' =
    (db'.services ≡ db.services)
    × ((other : ℕ)
        → (other == id) ≡ false
        → has_port other db.service_ports ≡ true
        → has_port other db'.service_ports ≡ true)
    × (some_port ≡ true → has_port id db'.service_ports ≡ true)

abbrev pub filled : {A : Type 0} → List A → Bool
filled [] = false
filled (_ ∷ _) = true

-- The services are as they were, and no service lost its last port.
abbrev Grown : Db → Db → Type 0
Grown db db' =
    (db'.services ≡ db.services)
    × ((other : ℕ)
        → has_port other db.service_ports ≡ true
        → has_port other db'.service_ports ≡ true)

Grown-trans : (a b c : Db) → Grown a b → Grown b c → Grown a c
Grown-trans a b c (e, f) (g, h) = (rw g e, λ other k. h other (f other k))

-- deleting the ports of `id`
pub has_port-cleared :
    (other id : ℕ) (ps : List ServicePort)
    → (other == id) ≡ false
    → has_port other ps ≡ true
    → has_port other (keep (λ p. not (p.service_id == id)) ps) ≡ true
unfolding any keep
has_port-cleared other id [] h k = k
has_port-cleared other id (p ∷ ps) h k = ground (arith, has_port-cleared other id ps)

module _ (id : ℕ) where
  abbrev Inserted : Db → Bool → {A : Type 0} → A → Db → Type 0
  Inserted db some_port a db' =
      Grown db db' × (some_port ≡ true → has_port id db'.service_ports ≡ true)

  insert_service_port-Inserted :
      (p : PortInput) (db : Db) → Post (Inserted db true) (insert_service_port id p db)
  unfolding insert_service_port any
  insert_service_port-Inserted p db =
      let q = port_of id p (db.service_ports_seq + 1) in
      elim (Bool-cases (
        any (λ r. (r.service_id == id) && (r.port == p.port) && (r.protocol == p.protocol))
          db.service_ports)) [
            | inl e ↦ rw e tt
            | inr e ↦ rw e (
              (
                refl,
                λ other h.
                    ground
                      (arith, any-append (λ r. r.service_id == other) db.service_ports (q ∷ [])),
              ),
              λ _. ground (
                arith,
                any-append (λ r. r.service_id == id) db.service_ports (q ∷ []),
                ==_of_eq id id refl,
              ),
            )
          ]

  insert_service_ports-Inserted :
      (ps : List PortInput) (db : Db)
      → Post (Inserted db (filled ps)) (insert_service_ports id ps db)
  unfolding insert_service_ports
  insert_service_ports-Inserted [] db = ((refl, λ other h. h), λ h. cc h)
  insert_service_ports-Inserted (p ∷ ps) db = elim (Bool-cases (bad_protocol p)) [
    | inl e ↦ rw e tt
    | inr e ↦ elim (Bool-cases (bad_port p)) [
      | inl f ↦ rw (e, f) tt
      | inr f ↦
          rw (e, f)
            (Post-continue (Inserted db true) (Inserted db true) (insert_service_port id p db) _
              (insert_service_port-Inserted p db)
              (λ q db' first.
                Post-continue (Inserted db' (filled ps)) (Inserted db true)
                  (insert_service_ports id ps db') _ (insert_service_ports-Inserted ps db')
                  (λ qs db'' rest.
                    (Grown-trans db db' db'' first.0 rest.0, λ h. rest.0.1 id (first.1 h)))))
    ]
  ]

  -- After the ports are replaced, the other services have theirs, and `id` has the new ones.
  pub replace_service_ports-Replaced :
      (ps : List PortInput) (db : Db)
      → Post (Replaced db id (filled ps)) (replace_service_ports id ps db)
  unfolding replace_service_ports
  replace_service_ports-Replaced ps db =
      let cleared = record db {
        service_ports = keep (λ p. not (p.service_id == id)) db.service_ports;
      } in
      weaken (insert_service_ports id ps cleared) (insert_service_ports-Inserted ps cleared)
    where
      weaken :
          (x : Result Error (List ServicePort) × Db)
          → Post
              (Inserted
                (record db {
                  service_ports = keep (λ p. not (p.service_id == id)) db.service_ports;
                })
                (filled ps))
              x
          → Post (Replaced db id (filled ps)) x
      weaken (ok a, db') ((same, grown), some_port) = (
        same,
        λ other h k. grown other (has_port-cleared other id db.service_ports h k),
        some_port,
      )
      weaken (err e, db') h = tt

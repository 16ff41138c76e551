-- ===== src/Store/Steps/Ports.antt =====
-- The transactions on the ports of a service, in daemon/store/services.go.
use lightscale.Prelude.{
  ℕ, ◌≡◌, inl, inr, true, false, ◌&&◌, List, [], ◌∷◌, any, has, ◌==◌, nat_eq, string_eq, Bool-cases,
}
use lightscale.Store.{Db}
use lightscale.Store.Ports.{
  PortInput, bad_protocol, bad_port, insert_service_port, insert_service_ports,
  replace_service_ports,
}
use lightscale.Store.Outcomes.{Post, Post-continue}
use lightscale.Store.Steps.{Step, Steps, and_then}

-- Some changes from `base`, after which the service is there.
abbrev pub Ready : Db → ℕ → {A : Type 0} → A → Db → Type 0
Ready base id a db = Steps base db × (has (λ s. s.id) id db.services ≡ true)

module _ (base : Db) (id : ℕ) where
  insert_service_port-Ready :
      (p : PortInput) (db : Db)
      → Ready base id tt db
      → bad_protocol p ≡ false
      → bad_port p ≡ false
      → Post (Ready base id) (insert_service_port id p db)
  unfolding insert_service_port
  insert_service_port-Ready p db (steps, there_) good_protocol good_port =
      elim (Bool-cases (
        any (λ r. (r.service_id == id) && (r.port == p.port) && (r.protocol == p.protocol))
          db.service_ports)) [
            | inl e ↦ rw e tt
            | inr e ↦
                rw e
                  (and_then steps (Step.port_added id p there_ good_protocol good_port e), there_)
          ]

  insert_service_ports-Ready :
      (ps : List PortInput) (db : Db)
      → Ready base id tt db
      → Post (Ready base id) (insert_service_ports id ps db)
  unfolding insert_service_ports
  insert_service_ports-Ready [] db ready = ready
  insert_service_ports-Ready (p ∷ ps) db ready = elim (Bool-cases (bad_protocol p)) [
    | inl e ↦ rw e tt
    | inr e ↦ elim (Bool-cases (bad_port p)) [
      | inl f ↦ rw (e, f) tt
      | inr f ↦
          rw (e, f)
            (Post-continue (Ready base id) (Ready base id) (insert_service_port id p db) _
              (insert_service_port-Ready p db ready e f)
              (λ q db' ready'.
                Post-continue (Ready base id) (Ready base id) (insert_service_ports id ps db') _
                  (insert_service_ports-Ready ps db' ready') (λ _ _ ready''. ready'')))
    ]
  ]

  pub replace_service_ports-Ready :
      (ps : List PortInput) (db : Db)
      → Ready base id tt db
      → Post (Ready base id) (replace_service_ports id ps db)
  unfolding replace_service_ports
  replace_service_ports-Ready ps db (steps, there_) =
      insert_service_ports-Ready ps _ (and_then steps (Step.ports_cleared id), there_)

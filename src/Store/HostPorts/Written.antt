-- ===== src/Store/HostPorts/Written.antt =====
-- The writes of services in daemon/store/services.go, and when every service on the host still has
-- a port afterwards.
use lightscale.Prelude.{
  ℕ, ◌+◌, ◌≤◌, ◌≡◌, refl, ◌⊎◌, inl, inr, String, true, false, ◌&&◌, ◌||◌, not, Option, none, some,
  List, [], ◌∷◌, ◌++◌, All, All-append, All-both, any, keep, update, ◌==◌, nat_eq, string_eq, arith,
  Bool-cases, eq_of_==,
}
use lightscale.Prelude.Result.{Result, ok, err}
use lightscale.Origin.{Spec}
use lightscale.Store.{ServiceRow, ServicePort, Db, Error, changes, or_current}
use lightscale.Store.Checks.{
  object, Table, check_name_available, name_check, namespace_tables, check_ip_available, ip_check,
  check_hostname_available, hostname_check,
}
use lightscale.Store.Ports.{PortInput, replace_service_ports}
use lightscale.Store.Services.{
  Service, CreateServiceInput, UpdateServiceInput, service_by_id, insert_service, create_service_tx,
  service_changed, write_service, new_origin, new_ports, update_service_tx, delete_service_tx,
}
use lightscale.Store.Outcomes.{Post, Post-query, Post-when, Post-continue}
use lightscale.Store.HostPorts.{has_port, Guarded, HostPorts}
use lightscale.Store.HostPorts.Replaced.{
  Replaced, filled, has_port-cleared, replace_service_ports-Replaced,
}

-- A service on the host comes with ports.
abbrev pub Allowed : Spec → List PortInput → Type 0
Allowed spec ports = ((spec.kind == "host") ≡ false) ⊎ (filled ports ≡ true)

-- no row has an id above the last one that was given
abbrev pub Given : Db → Type 0
Given db = All (λ (r : ServiceRow). r.id ≤ db.services_seq) db.services

Guarded-Replaced :
    (ports ports' : List ServicePort) (id : ℕ) (row : ServiceRow)
    → ((other : ℕ)
        → (other == id) ≡ false
        → has_port other ports ≡ true
        → has_port other ports' ≡ true)
    → (row.id == id) ≡ false
    → Guarded ports row
    → Guarded ports' row
Guarded-Replaced ports ports' id row grown other (inl e) = inl e
Guarded-Replaced ports ports' id row grown other (inr h) = inr (grown row.id other h)

-- every transaction here
abbrev Guards : {A : Type 0} → A → Db → Type 0
Guards a db' = HostPorts db'

module _ (db : Db) (before : HostPorts db) where
  -- the row is in, and its ports are to be written
  abbrev Entered : CreateServiceInput → Spec → ServiceRow → Db → Type 0
  Entered input spec row db' =
      (row.id ≡ db.services_seq + 1)
      × (row.origin ≡ spec)
      × (db'.services ≡ db.services ++ row ∷ [])
      × (db'.service_ports ≡ db.service_ports)

  insert_service-Entered :
      (input : CreateServiceInput) (spec : Spec) (now : String)
      → Post (Entered input spec) (insert_service input spec now db)
  unfolding insert_service
  insert_service-Entered input spec now =
      elim (Bool-cases (
        any (λ t. t.name == input.name) db.services
        || any (λ t. t.hostname == input.hostname) db.services
        || any (λ t. t.ip_address == input.ip_address) db.services)) [
          | inl e ↦ rw e tt
          | inr e ↦ rw e (refl, refl, refl, refl)
        ]

  Entered-Guards :
      (input : CreateServiceInput) (spec : Spec) (row : ServiceRow) (db' db'' : Db)
      → Given db
      → Allowed spec input.ports
      → Entered input spec row db'
      → Replaced db' row.id (filled input.ports) tt db''
      → HostPorts db''
  Entered-Guards input spec row db' db'' given allowed (next, origin, rows, ports)
        (same, grown, some_port) =
      let old : All (Guarded db''.service_ports) db.services =
        All-both (λ (r : ServiceRow). r.id ≤ db.services_seq) (Guarded db.service_ports)
          (Guarded db''.service_ports) db.services
          (λ r low h.
            Guarded-Replaced db'.service_ports db''.service_ports row.id r grown
              (ground (arith, next)) (rw ports h))
          given before in
      let new : Guarded db''.service_ports row = elim allowed [
        | inl remote ↦ inl (rw origin remote)
        | inr filled_ ↦ inr (some_port filled_)
      ] in
      rw (same, rows) (All-append (Guarded db''.service_ports) db.services (row ∷ []) old (new, tt))

  pub create_service-HostPorts :
      (input : CreateServiceInput) (spec : Spec) (now : String)
      → Given db
      → Allowed spec input.ports
      → Post (Guards) (create_service_tx input spec now db)
  unfolding create_service_tx check_name_available check_ip_available check_hostname_available
  create_service-HostPorts input spec now given allowed =
      Post-query Guards db (name_check db (namespace_tables object) input.name none 0) _ (λ u e.
        Post-query Guards db
          (ip_check db (Table.users ∷ Table.services ∷ []) input.ip_address none 0) _
          (λ v f. Post-query Guards db (hostname_check db input.hostname 0) _ (λ w g.
            Post-continue (Entered input spec) Guards (insert_service input spec now db) _
              (insert_service-Entered input spec now)
              (λ row db' entered.
                Post-continue (Replaced db' row.id (filled input.ports)) Guards
                  (replace_service_ports row.id input.ports db') _
                  (replace_service_ports-Replaced row.id input.ports db')
                  (λ ps db'' replaced.
                    Entered-Guards input spec row db' db'' given allowed entered replaced)))))

  -- the ports that the service `id` will have, or has
  abbrev pub Provided : ℕ → Spec → Option (List PortInput) → Type 0
  Provided id spec (some ports) = Allowed spec ports
  Provided id spec none = ((spec.kind == "host") ≡ false) ⊎ (has_port id db.service_ports ≡ true)

  -- the row is changed, and its ports are to be written
  abbrev Changed : ℕ → ServiceRow → {A : Type 0} → A → Db → Type 0
  Changed id to u db' =
      (db'.services ≡ update (λ t. t.id == id) (service_changed to) db.services)
      × (db'.service_ports ≡ db.service_ports)

  write_service-Changed : (id : ℕ) (to : ServiceRow) → Post (Changed id to) (write_service id to db)
  unfolding write_service
  write_service-Changed id to =
      elim (Bool-cases (
        any (λ t. (t.name == to.name) && not (t.id == id)) db.services
        || any (λ t. (t.hostname == to.hostname) && not (t.id == id)) db.services
        || any (λ t. (t.ip_address == to.ip_address) && not (t.id == id)) db.services)) [
          | inl e ↦ rw e tt
          | inr e ↦ rw e (refl, refl)
        ]

-- the rows, once that of `id` has the new origin
All-changed :
    (ports ports' : List ServicePort) (id : ℕ) (to : ServiceRow) (rows : List ServiceRow)
    → ((other : ℕ)
        → (other == id) ≡ false
        → has_port other ports ≡ true
        → has_port other ports' ≡ true)
    → ((to.origin.kind == "host") ≡ false) ⊎ (has_port id ports' ≡ true)
    → All (Guarded ports) rows
    → All (Guarded ports') (update (λ t. t.id == id) (service_changed to) rows)
unfolding update
All-changed ports ports' id to [] grown provided h = tt
All-changed ports ports' id to (r ∷ rows) grown provided h =
    let rest = All-changed ports ports' id to rows grown provided h.1 in
    elim (Bool-cases (r.id == id)) [
      | inl e ↦ rw e (rw (eq_of_== r.id id e) provided, rest)
      | inr e ↦ rw e (Guarded-Replaced ports ports' id r grown e h.0, rest)
    ]

-- the row that `UpdateService` writes
abbrev updated : UpdateServiceInput → Spec → String → ServiceRow → ServiceRow
updated input spec now row = record row {
  name = or_current input.name row.name;
  hostname = or_current input.hostname row.hostname;
  origin = spec;
  ip_address = or_current input.ip_address row.ip_address;
  description = or_current input.description row.description;
  updated_at = now;
}

module _ (db : Db) (before : HostPorts db) where
  Changed-Guards :
      (id : ℕ) (to : ServiceRow) (ports : Option (List PortInput)) (db' : Db)
      → Provided db before id to.origin ports
      → Changed db before id to tt db'
      → Post Guards (new_ports ports id db')
  unfolding new_ports
  Changed-Guards id to none db' provided (rows, ports) =
      rw (rows, ports)
        (All-changed db.service_ports db.service_ports id to db.services (λ other h k. k) provided
          before)
  Changed-Guards id to (some ports) db' provided (rows, same_ports) =
      weaken (replace_service_ports id ports db') (replace_service_ports-Replaced id ports db')
    where
      weaken :
          (x : Result Error (List ServicePort) × Db)
          → Post (Replaced db' id (filled ports)) x
          → Post Guards x
      weaken (ok a, db'') (same, grown, some_port) =
          rw (same, rows)
            (All-changed db.service_ports db''.service_ports id to db.services
              (λ other h k. grown other h (rw same_ports k))
              (elim provided [ inl remote ↦ inl remote | inr f ↦ inr (some_port f) ]) before)
      weaken (err e, db'') h = tt

  pub update_service-HostPorts :
      (id : ℕ) (input : UpdateServiceInput) (now : String)
      → ((cur : Service) (spec : Spec)
          → service_by_id id db ≡ ok cur
          → new_origin input.origin cur.row.origin ≡ ok spec
          → Provided db before id spec input.ports)
      → Post Guards (update_service_tx id input now db)
  unfolding update_service_tx check_name_available check_ip_available check_hostname_available
  update_service-HostPorts id input now provided =
      Post-query Guards db (service_by_id id db) _ (λ cur found.
        Post-when Guards db (changes input.name cur.row.name)
          (λ d.
            name_check d (namespace_tables object) (or_current input.name "") (some Table.services)
              id)
          _
          (λ _.
            Post-when Guards db (changes input.hostname cur.row.hostname)
              (λ d. hostname_check d (or_current input.hostname "") id) _
              (λ _. Post-query Guards db (new_origin input.origin cur.row.origin) _ (λ spec valid.
                Post-when Guards db (changes input.ip_address cur.row.ip_address)
                  (λ d.
                    ip_check d (Table.users ∷ Table.services ∷ []) (or_current input.ip_address "")
                      (some Table.services) id)
                  _
                  (λ _.
                    Post-continue (Changed db before id (updated input spec now cur.row)) Guards
                      (write_service id (updated input spec now cur.row) db) _
                      (write_service-Changed db before id (updated input spec now cur.row))
                      (λ u db' changed.
                        Post-continue Guards Guards (new_ports input.ports id db') _
                          (Changed-Guards id (updated input spec now cur.row) input.ports db'
                            (provided cur spec found valid) changed)
                          (λ ps db'' h. h)))))))

-- the rows that are left keep their ports
All-removed :
    (ports : List ServicePort) (id : ℕ) (rows : List ServiceRow)
    → All (Guarded ports) rows
    → All (Guarded (keep (λ p. not (p.service_id == id)) ports)) (keep (λ r. not (r.id == id)) rows)
unfolding keep
All-removed ports id [] h = tt
All-removed ports id (r ∷ rows) h = elim (Bool-cases (r.id == id)) [
  | inl e ↦ rw e (All-removed ports id rows h.1)
  | inr e ↦ rw e (
    Guarded-Replaced ports (keep (λ p. not (p.service_id == id)) ports) id r
        (λ other far k. has_port-cleared other id ports far k) e h.0,
    All-removed ports id rows h.1,
  )
]

pub delete_service-HostPorts :
    (db : Db) (id : ℕ) → HostPorts db → Post Guards (delete_service_tx id db)
unfolding delete_service_tx
delete_service-HostPorts db id h =
    Post-query Guards db (service_by_id id db) _
      (λ s found. All-removed db.service_ports id db.services h)

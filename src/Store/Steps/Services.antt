-- ===== src/Store/Steps/Services.antt =====
-- The transactions of daemon/store/services.go make the changes that Store.Steps lists.
use lightscale.Prelude.{
  ℕ, ◌+◌, ◌≡◌, ◌⊎◌, refl, ap, inl, inr, String, true, false, ◌&&◌, ◌||◌, not, Option, none, some,
  List, [], ◌∷◌, any, has, ◌==◌, nat_eq, string_eq, find_first, arith, Bool-cases, Option-cases,
  find_first_passes, In, In_of_find_first, any-keep-not, eq_of_==, has_of_In, has_key_of,
  has-append, has-update_same,
}
use lightscale.Prelude.Result.{Result, ok, err}
use lightscale.Origin.{Spec}
use lightscale.Store.{ServiceRow, ServicePort, Db, Error, or_current, changes}
use lightscale.Store.Checks.{
  object, Table, check_name_available, name_check, namespace_tables, check_ip_available, ip_check,
  check_hostname_available, hostname_check,
}
use lightscale.Store.Checks.Free.{object_free, ip_free}
use lightscale.Store.ServiceGroups.{is_object}
use lightscale.Store.Services.{
  Service, CreateServiceInput, UpdateServiceInput, service_by_id, with_ports, service_of,
  insert_service, create_service_tx, service_changed, write_service, new_origin, new_ports,
  update_service_tx, delete_service_tx,
}
use lightscale.Store.Ports.{PortInput, replace_service_ports}
use lightscale.Store.Outcomes.{Post, Post-continue, Post-query, Post-when}
use lightscale.Store.Steps.{Step, done, and_then, Reached, Held, held}
use lightscale.Store.Steps.Ports.{Ready, replace_service_ports-Ready}

module _ (db : Db) where
  pub service_row :
      (id : ℕ) (s : Service) → service_by_id id db ≡ ok s → In s.row db.services × (s.row.id ≡ id)
  unfolding service_by_id
  service_row id s found = elim (Option-cases (find_first (λ t. t.id == id) db.services)) [
    | inl e ↦ cc (found, e)
    | inr (t, e) ↦
        let p : s ≡ with_ports db t = ground arith in
        let q : s.row ≡ t = ap (λ (x : Service). x.row) p in
        rw q
          (In_of_find_first _ db.services e, eq_of_== t.id id (find_first_passes _ db.services e))
  ]

  insert_service-Ready :
      (input : CreateServiceInput) (spec : Spec) (now : String)
      → has (λ g. g.name) input.name db.service_groups ≡ false
      → has (λ u. u.ip_address) input.ip_address db.users ≡ false
      → Post (λ row db'. Ready db row.id row db') (insert_service input spec now db)
  unfolding insert_service has
  insert_service-Ready input spec now name_free ip_free' =
      elim (Bool-cases (
        any (λ t. t.name == input.name) db.services
        || any (λ t. t.hostname == input.hostname) db.services
        || any (λ t. t.ip_address == input.ip_address) db.services)) [
          | inl e ↦ rw e tt
          | inr e ↦
              let row = service_of input spec now (db.services_seq + 1) in
              rw e (
                and_then done (
                    Step.service_added row refl (ground arith) name_free (ground arith)
                      (ground arith) ip_free'),
                ground (arith, has-append (λ s. s.id) row.id db.services (row ∷ [])),
              )
        ]

  pub create_service-Steps :
      (input : CreateServiceInput) (spec : Spec) (now : String)
      → Post (Reached db) (create_service_tx input spec now db)
  unfolding create_service_tx check_name_available check_ip_available check_hostname_available
  create_service-Steps input spec now = Post-query (Reached db) db _ _ (λ u e.
      Post-query (Reached db) db _ _ (λ v f.
        Post-query (Reached db) db (hostname_check db input.hostname 0) _ (λ w g.
          Post-continue _ (Reached db) (insert_service input spec now db) _
            (insert_service-Ready input spec now ((object_free db input.name none 0 u e).1 refl)
              ((ip_free db input.ip_address none 0 v f).0 refl))
            (λ row db' ready.
              Post-continue _ (Reached db) (replace_service_ports row.id input.ports db') _
                (replace_service_ports-Ready db row.id input.ports db' ready)
                (λ _ _ ready'. ready'.0)))))

  write_service-Ready :
      (id : ℕ) (to : ServiceRow)
      → has (λ s. s.id) id db.services ≡ true
      → Held (λ t. t.name) (λ g. g.name) to.name db.services db.service_groups
      → Held (λ t. t.ip_address) (λ u. u.ip_address) to.ip_address db.services db.users
      → Post (Ready db id) (write_service id to db)
  unfolding write_service
  write_service-Ready id to there_ own_name own_ip =
      elim (Bool-cases (
        any (λ t. (t.name == to.name) && not (t.id == id)) db.services
        || any (λ t. (t.hostname == to.hostname) && not (t.id == id)) db.services
        || any (λ t. (t.ip_address == to.ip_address) && not (t.id == id)) db.services)) [
          | inl e ↦ rw e tt
          | inr e ↦ rw e (
            and_then done (
                Step.service_updated id to (ground arith) (ground arith) (ground arith) own_name
                  own_ip),
            rw
                (has-update_same (λ s. s.id) (service_changed to) (λ t. t.id == id) id db.services
                  (λ x. refl))
                there_,
          )
        ]

  new_ports-Reached :
      (ports : Option (List PortInput)) (id : ℕ) (db' : Db)
      → Ready db id tt db'
      → Post (Reached db) (new_ports ports id db')
  unfolding new_ports
  new_ports-Reached none id db' ready = ready.0
  new_ports-Reached (some ports) id db' ready =
      forget (replace_service_ports id ports db')
        (replace_service_ports-Ready db id ports db' ready)
    where
      forget :
          (x : Result Error (List ServicePort) × Db) → Post (Ready db id) x → Post (Reached db) x
      forget (ok a, db'') (steps, _) = steps
      forget (err e, db'') h = tt

  own_name :
      (id : ℕ) (s : Service) (name : Option String)
      → service_by_id id db ≡ ok s
      → (changes name s.row.name ≡ false)
        ⊎ (name_check db (namespace_tables object) (or_current name "") (some Table.services) id
            ≡ ok tt)
      → Held (λ t. t.name) (λ g. g.name) (or_current name s.row.name) db.services db.service_groups
  own_name id s name found checked =
      held (λ t. t.name) (λ g. g.name) db.services db.service_groups name s.row.name
        (has_of_In (λ t. t.name) db.services (service_row id s found).0)
        (elim checked [
          | inl e ↦ inl e
          | inr e ↦ inr ((object_free db _ (some Table.services) id tt e).1 refl)
        ])

  own_ip :
      (id : ℕ) (s : Service) (ip : Option String)
      → service_by_id id db ≡ ok s
      → (changes ip s.row.ip_address ≡ false)
        ⊎ (ip_check db
              (Table.users ∷ Table.services ∷ [])
              (or_current ip "")
              (some Table.services)
              id
            ≡ ok tt)
      → Held
          (λ t. t.ip_address)
          (λ u. u.ip_address)
          (or_current ip s.row.ip_address)
          db.services
          db.users
  own_ip id s ip found checked =
      held (λ t. t.ip_address) (λ u. u.ip_address) db.services db.users ip s.row.ip_address
        (has_of_In (λ t. t.ip_address) db.services (service_row id s found).0)
        (elim checked [
          | inl e ↦ inl e
          | inr e ↦ inr ((ip_free db _ (some Table.services) id tt e).0 refl)
        ])

  pub update_service-Steps :
      (id : ℕ) (input : UpdateServiceInput) (now : String)
      → Post (Reached db) (update_service_tx id input now db)
  unfolding update_service_tx check_name_available check_ip_available check_hostname_available
  update_service-Steps id input now = Post-query (Reached db) db (service_by_id id db) _ (λ s found.
      Post-when (Reached db) db (changes input.name s.row.name) _ _ (λ checked_name.
        Post-when (Reached db) db (changes input.hostname s.row.hostname)
          (λ d. hostname_check d (or_current input.hostname "") id) _
          (λ _. Post-query (Reached db) db (new_origin input.origin s.row.origin) _ (λ spec _.
            Post-when (Reached db) db (changes input.ip_address s.row.ip_address) _ _ (λ checked_ip.
              Post-continue (Ready db id) (Reached db) (write_service id _ db) _
                (write_service-Ready id _
                  (has_key_of (λ t. t.id) id db.services (service_row id s found))
                  (own_name id s input.name found checked_name)
                  (own_ip id s input.ip_address found checked_ip))
                (λ u db' ready.
                  Post-continue (Reached db) (Reached db) (new_ports input.ports id db') _
                    (new_ports-Reached input.ports id db' ready) (λ _ _ steps. steps)))))))

  pub delete_service-Steps : (id : ℕ) → Post (Reached db) (delete_service_tx id db)
  unfolding delete_service_tx
  delete_service-Steps id = Post-query (Reached db) db (service_by_id id db) _ (λ s found.
      and_then (and_then done (Step.rules_dropped (is_object "service" id)))
        (Step.service_removed id (any-keep-not (is_object "service" id) db.policy_rules)))

-- ===== src/Api/Routes/Hosts.antt =====
-- A service on the daemon's own host keeps its ports under daemon/api: `createService` and
-- `updateService` check them before they call the store.
use lightscale.Prelude.{
  ℕ, ◌≡◌, refl, ap, ◌∙◌, ◌⊎◌, inl, inr, String, Bool, true, false, ◌||◌, Option, none, some, List,
  [], ◌∷◌, All_at, All-any, keep_none_pass, ◌==◌, nat_eq, string_eq, if◌then◌else◌, arith,
  Bool-cases, Option-cases, find_first, find_first_passes, eq_of_==,
}
use lightscale.Prelude.Result.{Result, ok, err, ◌>>=◌}
use lightscale.Origin.{Spec, validate}
use lightscale.Origin.Validation.{validate_idem}
use lightscale.Store.{ServicePort, Db, Store, Error}
use lightscale.Store.Ports.{PortInput, insert_port, order_ports, load_service_ports}
use lightscale.Store.Services
use lightscale.Store.Services.{
  Service, CreateServiceInput, UpdateServiceInput, service_by_id, with_ports, new_origin,
  create_service_tx, update_service_tx, delete_service_tx, taken_service_ips,
}
use lightscale.Store.Steps.Services.{service_row}
use lightscale.Store.HostPorts.{has_port, Guarded, HostPorts}
use lightscale.Store.HostPorts.Replaced.{filled}
use lightscale.Store.HostPorts.Written.{Allowed, Provided}
use lightscale.Api.{Config, Response, refusal}
use lightscale.Api.Wire.{CreateServiceReq, UpdateServiceReq}
use lightscale.Api.Ports.{parse_ports}
use lightscale.Api.Users.{new_address}
use lightscale.Api.Services.{
  checked, guard_ports, prepare_service, given, request_ports, merged, origin_changed,
  request_origin, effective_origin, guard_effective, stored, update_of, prepare_update,
}

-- what holds of the input, unless the handler refused
abbrev pub Ensures : {A : Type 0} → (A → Type 0) → Result Response A → Type 0
Ensures P (ok a) = P a
Ensures P (err r) = Unit

module _ {B : Type 0} (P : B → Type 0) where
  pub Ensures-bind :
      {A : Type 0} (m : Result Response A) (f : A → Result Response B)
      → ((a : A) → m ≡ ok a → Ensures P (f a))
      → Ensures P (m >>= f)
  Ensures-bind (ok a) f h = h a refl
  Ensures-bind (err e) f h = tt

  pub Ensures-if :
      (c : Bool) (r q : Result Response B)
      → (c ≡ true → Ensures P r)
      → (c ≡ false → Ensures P q)
      → Ensures P (if c then r else q)
  Ensures-if true r q h k = h refl
  Ensures-if false r q h k = k refl

  pub Ensures-guard_ports :
      {Q : Type 0} (spec : Spec) (ports : List Q) (b : B)
      → (((spec.kind == "host") ≡ false) ⊎ (filled ports ≡ true) → P b)
      → Ensures P (guard_ports spec ports b)
  Ensures-guard_ports spec [] b h =
      Ensures-if (spec.kind == "host") (err (refusal 400)) (ok b) (λ e. tt) (λ e. h (inl e))
  Ensures-guard_ports spec (p ∷ ps) b h = h (inr refl)

pub checked_ok : {E A : Type 0} (r : Result E A) (a : A) → checked r ≡ ok a → r ≡ ok a
checked_ok (ok a') a h = cc h
checked_ok (err e) a h = absurd (cc h)

-- the origin is one that `Validate` returns, and a service on the host has ports
abbrev pub Sound : CreateServiceInput → Type 0
Sound input = (validate input.origin ≡ ok input.origin) × Allowed input.origin input.ports

-- the input that `createService` hands to the store
pub prepare_service-Sound :
    (cfg : Config) (s : Store) (req : CreateServiceReq) → Ensures Sound (prepare_service cfg s req)
unfolding prepare_service
prepare_service-Sound cfg s req =
    Ensures-if Sound (req.name == "") _ _ (λ e. tt)
      (λ e. Ensures-bind Sound (checked (validate _)) _ (λ spec valid.
        Ensures-bind Sound (new_address cfg.service_subnet req.ip (taken_service_ips s) []) _
          (λ ip _. Ensures-bind Sound (checked (parse_ports req.ports)) _ (λ ports _.
            Ensures-guard_ports Sound spec ports _
              (λ allowed. (validate_idem _ spec (checked_ok (validate _) spec valid), allowed))))))

filled-insert_port : (p : ServicePort) (ps : List ServicePort) → filled (insert_port p ps) ≡ true
unfolding insert_port
filled-insert_port p [] = refl
filled-insert_port p (q ∷ qs) = ground arith

-- A service with ports to load has a port in the table.
has_port_of_loaded :
    (db : Db) (id : ℕ)
    → filled (load_service_ports id db) ≡ true
    → has_port id db.service_ports ≡ true
unfolding load_service_ports order_ports
has_port_of_loaded db id h = elim (Bool-cases (has_port id db.service_ports)) [
  | inl e ↦ e
  | inr e ↦
      let none_left = keep_none_pass (λ p. p.service_id == id) db.service_ports (All-any _ _ e) in
      absurd (cc (rw none_left at h))
]

module _ (s : Store) (before : HostPorts s.db) (id : ℕ) where
  -- what the store needs of the input, to leave the service with ports
  abbrev pub Complete : UpdateServiceInput → Type 0
  Complete input =
      (cur : Service) (spec : Spec)
      → service_by_id id s.db ≡ ok cur
      → new_origin input.origin cur.row.origin ≡ ok spec
      → Provided s.db before id spec input.ports

  -- a service whose origin and ports are not changed
  untouched : (req : UpdateServiceReq) → Complete (update_of req none none)
  unfolding new_origin
  untouched req cur spec found valid =
      let (row, at) = service_row s.db id cur found in
      let guarded = All_at (Guarded s.db.service_ports) s.db.services before row in
      let same : cur.row.origin ≡ spec = cc valid in rw (← same) (rw at at guarded)

pub ensured :
    {A : Type 0} (P : A → Type 0) (r : Result Response A) (a : A) → Ensures P r → r ≡ ok a → P a
ensured P r a h e = rw e at h

-- the origin that the store will write is the one that the handler looked at
abbrev Foreseen : Spec → Option Spec → Type 0
Foreseen current o =
    (spec : Spec) → new_origin o current ≡ ok spec → spec ≡ effective_origin o current

request_origin-Foreseen :
    (req : UpdateServiceReq) (current : Spec)
    → Ensures (Foreseen current) (request_origin req current)
unfolding new_origin
request_origin-Foreseen req current =
    Ensures-if (Foreseen current) (origin_changed req) _ (ok none)
      (λ e.
        Ensures-bind (Foreseen current) (checked (validate (merged req current))) _
          (λ spec valid spec' q.
            let idem =
              validate_idem _ spec (checked_ok (validate (merged req current)) spec valid) in
            cc (rw (idem, new_origin) at q)))
      (λ e spec q. cc q)

stored_ok : {A : Type 0} (r : Result Error A) (a : A) → stored r ≡ ok a → r ≡ ok a
stored_ok (ok a') a h = cc h
stored_ok (err e) a h = absurd (cc h)

-- the ports of a service that was found
loaded :
    (db : Db) (id : ℕ) (cur : Service)
    → service_by_id id db ≡ ok cur
    → cur.ports ≡ load_service_ports id db
unfolding service_by_id
loaded db id cur found = elim (Option-cases (find_first (λ t. t.id == id) db.services)) [
  | inl e ↦ absurd (cc (found, e))
  | inr (t, e) ↦
      let p : cur ≡ with_ports db t = ground arith in
      let at : t.id ≡ id = eq_of_== t.id id (find_first_passes _ db.services e) in
      ap (λ (x : Service). x.ports) p ∙ ap (λ (i : ℕ). load_service_ports i db) at
]

no_ports :
    (text : Option String) (ports : Option (List PortInput))
    → given text ≡ false
    → request_ports text ≡ ok ports
    → ports ≡ none
no_ports none ports h e = cc e
no_ports (some text) ports h e = absurd (cc h)

module _ (s : Store) (before : HostPorts s.db) (id : ℕ) where
  -- the handler found `cur`, and checked the origin and the ports that it will have
  guard_effective-Complete :
      (req : UpdateServiceReq) (o : Option Spec) (ports : Option (List PortInput)) (cur : Service)
      → service_by_id id s.db ≡ ok cur
      → Foreseen cur.row.origin o
      → Ensures (Complete s before id) (guard_effective o ports cur (update_of req o ports))
  guard_effective-Complete req o none cur found foreseen =
      Ensures-guard_ports (Complete s before id) (effective_origin o cur.row.origin) cur.ports _
        (λ allowed cur' spec found' valid.
          let same : cur ≡ cur' = cc (found, found') in
          let origin : spec ≡ effective_origin o cur.row.origin = foreseen spec (rw same valid) in
          elim allowed [
            | inl remote ↦ inl (rw origin remote)
            | inr some_port ↦
                inr (has_port_of_loaded s.db id (rw (loaded s.db id cur found) at some_port))
          ])
  guard_effective-Complete req o (some ports) cur found foreseen =
      Ensures-guard_ports (Complete s before id) (effective_origin o cur.row.origin) ports _
        (λ allowed cur' spec found' valid.
          let same : cur ≡ cur' = cc (found, found') in
          let origin : spec ≡ effective_origin o cur.row.origin = foreseen spec (rw same valid) in
          rw origin allowed)

  pub prepare_update-Complete :
      (req : UpdateServiceReq) → Ensures (Complete s before id) (prepare_update s id req)
  unfolding prepare_update Services.get_service
  prepare_update-Complete req =
      Ensures-bind (Complete s before id) (request_ports req.ports) _ (λ ports asked.
        Ensures-if (Complete s before id) (origin_changed req || given req.ports) _ _
          (λ e. Ensures-bind (Complete s before id) (stored (service_by_id id s.db)) _ (λ cur found.
            Ensures-bind (Complete s before id) (request_origin req cur.row.origin) _ (λ o chosen.
              guard_effective-Complete req o ports cur (stored_ok (service_by_id id s.db) cur found)
                (ensured (Foreseen cur.row.origin) (request_origin req cur.row.origin) o
                  (request_origin-Foreseen req cur.row.origin) chosen))))
          (λ e. rw (no_ports req.ports ports (ground arith) asked) (untouched s before id req)))

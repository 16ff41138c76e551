-- ===== src/Api/Routes/Inputs/Updated.antt =====
-- updateService (daemon/api/services.go) hands to the store what the request asks for.
use lightscale.Prelude.{
  ℕ, ◌≡◌, ◌≢◌, refl, ap, ◌⊎◌, inl, inr, String, false, ◌||◌, Option, none, some, In, List,
  In_of_find_first, find_first, find_first_passes, ◌==◌, nat_eq, string_eq, arith, Bool-cases,
  Option-cases, eq_of_==,
}
use lightscale.Prelude.Result.{Result, ok, err}
use lightscale.Origin.{Spec, validate}
use lightscale.Store.{Db, Store, Error, not_found}
use lightscale.Store.Ports.{PortInput}
use lightscale.Store.Services.{Service, UpdateServiceInput, service_by_id, with_ports, get_service}
use lightscale.Api.Wire.{UpdateServiceReq}
use lightscale.Api.Ports.{parse_ports}
use lightscale.Api.Services.{
  checked, given, request_ports, with_kind, or_current, merged, origin_changed, request_origin,
  effective_origin, guard_effective, stored, update_of, prepare_update,
}
use lightscale.Api.Routes.Hosts.{Ensures, Ensures-bind, Ensures-if, Ensures-guard_ports, checked_ok}
use lightscale.Api.Routes.Inputs.{OrElse, Merged, OriginOf, PortsOf, UpdateAsked}
use lightscale.Api.Routes.Inputs.Created.{differ, of_Ensures}

OrElse-or_current :
    (o : Option String) (other current : String)
    → current ≡ other
    → OrElse o other (or_current o current)
OrElse-or_current none other current e = inr (refl, e)
OrElse-or_current (some new) other current e = inl refl

-- what a kind in the request makes of the current origin
with_kind-cases :
    (kind : Option String) (current : Spec)
    → OrElse kind current.kind (with_kind kind current).kind
      × ((((with_kind kind current).kind ≡ current.kind) × (with_kind kind current ≡ current))
          ⊎ (((with_kind kind current).kind ≢ current.kind)
              × ((with_kind kind current).value ≡ "")
              × ((with_kind kind current).network ≡ "")))
with_kind-cases none current = (inr (refl, refl), inl (refl, refl))
with_kind-cases (some kind) current = elim (Bool-cases (kind == current.kind)) [
  | inl e ↦ rw e (inl (ap some (eq_of_== kind current.kind e)), inl (refl, refl))
  | inr e ↦ rw e (inl refl, inr (differ kind current.kind e, refl, refl))
]

merged-Merged : (req : UpdateServiceReq) (current : Spec) → Merged req current (merged req current)
merged-Merged req current =
    let (kind, others) = with_kind-cases req.origin_kind current in
    record {
      kind = kind;
      others = elim others [
        | inl (same, whole) ↦ inl (
          same,
          OrElse-or_current req.origin_value _ _ (ap (λ (x : Spec). x.value) whole),
          OrElse-or_current req.origin_network _ _ (ap (λ (x : Spec). x.network) whole),
        )
        | inr (other, value, network) ↦ inr (
          other,
          OrElse-or_current req.origin_value _ _ value,
          OrElse-or_current req.origin_network _ _ network,
        )
      ];
    }

not_given : (o : Option String) → given o ≡ false → o ≡ none
not_given none h = refl
not_given (some a) h = absurd (cc h)

stored-ok : {A : Type 0} (r : Result Error A) (a : A) → stored r ≡ ok a → r ≡ ok a
stored-ok (ok b) a h = cc h
stored-ok (err e) a h = absurd (cc h)

service_there :
    (id : ℕ) (db : Db) (cur : Service)
    → service_by_id id db ≡ ok cur
    → In cur.row db.services × (cur.row.id ≡ id)
unfolding service_by_id
service_there id db cur h = elim (Option-cases (find_first (λ s. s.id == id) db.services)) [
  | inl e ↦
      let gone : service_by_id id db ≡ err not_found = rw (e, service_by_id) refl in
      absurd (cc (gone, h))
  | inr (row, e) ↦
      let got : service_by_id id db ≡ ok (with_ports db row) = rw (e, service_by_id) refl in
      let whole : with_ports db row ≡ cur = cc (got, h) in
      let same : row ≡ cur.row = ap (λ (x : Service). x.row) whole in
      rw (← same) (
        In_of_find_first (λ s. s.id == id) db.services e,
        eq_of_== row.id id (find_first_passes (λ s. s.id == id) db.services e),
      )
]

Ensures-guard_effective :
    (P : UpdateServiceInput → Type 0) (spec : Option Spec) (ports : Option (List PortInput))
    (cur : Service) (input : UpdateServiceInput)
    → P input
    → Ensures P (guard_effective spec ports cur input)
Ensures-guard_effective P spec none cur input h =
    Ensures-guard_ports P (effective_origin spec cur.row.origin) cur.ports input (λ _. h)
Ensures-guard_effective P spec (some ports) cur input h =
    Ensures-guard_ports P (effective_origin spec cur.row.origin) ports input (λ _. h)

module _ (s : Store) (id : ℕ) (req : UpdateServiceReq) where
  unchanged-OriginOf : origin_changed req ≡ false → OriginOf s id req none
  unchanged-OriginOf h = inl (
    not_given req.origin_kind (ground arith),
    not_given req.origin_value (ground arith),
    not_given req.origin_network (ground arith),
    refl,
  )

  Ensures-request_origin :
      (cur : Service)
      → stored (get_service s id) ≡ ok cur
      → Ensures (OriginOf s id req) (request_origin req cur.row.origin)
  unfolding get_service
  Ensures-request_origin cur at =
      let (there_, same) = service_there id s.db cur (stored-ok _ cur at) in
      Ensures-if (OriginOf s id req) (origin_changed req) _ _
        (λ e.
          Ensures-bind (OriginOf s id req) (checked (validate (merged req cur.row.origin))) _
            (λ spec valid. inr (
              cur.row,
              merged req cur.row.origin,
              spec,
              there_,
              same,
              merged-Merged req cur.row.origin,
              checked_ok (validate (merged req cur.row.origin)) spec valid,
              refl,
            )))
        unchanged-OriginOf

  Ensures-request_ports : (given : Option String) → Ensures (PortsOf given) (request_ports given)
  Ensures-request_ports none = inl (refl, refl)
  Ensures-request_ports (some text) =
      Ensures-bind (PortsOf (some text)) (checked (parse_ports text)) _
        (λ ps parsed. inr (text, ps, refl, checked_ok (parse_ports text) ps parsed, refl))

  asked :
      (origin : Option Spec) (ports : Option (List PortInput))
      → OriginOf s id req origin
      → PortsOf req.ports ports
      → UpdateAsked s id req (update_of req origin ports)
  asked origin ports h k = record {
    name = refl;
    hostname = refl;
    address = refl;
    description = refl;
    ports = k;
    origin = h;
  }

  pub prepare_update-UpdateAsked :
      (input : UpdateServiceInput) → prepare_update s id req ≡ ok input → UpdateAsked s id req input
  unfolding prepare_update
  prepare_update-UpdateAsked input =
      let P = UpdateAsked s id req in
      of_Ensures P (prepare_update s id req) input (
        Ensures-bind P (request_ports req.ports) _ (λ ports parsed.
          let k = of_Ensures (PortsOf req.ports) _ ports (Ensures-request_ports req.ports) parsed in
          Ensures-if P (origin_changed req || given req.ports) _ _
            (λ e. Ensures-bind P (stored (get_service s id)) _ (λ cur at.
              Ensures-bind P (request_origin req cur.row.origin) _ (λ spec valid.
                Ensures-guard_effective P spec ports cur _ (
                  asked spec ports
                    (of_Ensures (OriginOf s id req) _ spec (Ensures-request_origin cur at) valid)
                    k))))
            (λ e. asked none ports (unchanged-OriginOf (ground arith)) k)))

-- ===== src/Api/Routes/Always.antt =====
-- What holds of the store after any requests to daemon/api, handled one after the other.
use lightscale.Prelude.{
  ◌≡◌, refl, inl, inr, String, true, ◌||◌, Option, List, [], ◌∷◌, ◌==◌, string_eq, nat_eq,
  Bool-cases,
}
use lightscale.Prelude.Result.{Result, ok, err}
use lightscale.Store.{Db, Store, Error, ChangeKind}
use lightscale.Store.Services
use lightscale.Store.Services.{
  CreateServiceInput, UpdateServiceInput, create_service_tx, update_service_tx, delete_service_tx,
}
use lightscale.Store.Commands.{Command, outcome, apply}
use lightscale.Store.Invariants.Always.{IsValid, apply-IsValid}
use lightscale.Store.HostPorts.{HostPorts, HostPorts-Same, with_tx-keeps}
use lightscale.Store.HostPorts.Quiet.{quiet, apply-Same}
use lightscale.Store.HostPorts.Written.{
  create_service-HostPorts, update_service-HostPorts, delete_service-HostPorts,
}
use lightscale.Api.{Config, Env}
use lightscale.Api.Services.{OriginChecker, prepare_service, prepare_update}
use lightscale.Api.Routes.{Request, serve, writes}
use lightscale.Api.Routes.Asked.{Checked, Checked-of_Asks}
use lightscale.Api.Routes.Effects.{serve-Served}
use lightscale.Api.Routes.Reads.{serve_reads}
use lightscale.Api.Routes.Hosts.{
  Sound, Complete, ensured, prepare_service-Sound, prepare_update-Complete,
}

outcome_keeps :
    {A : Type 0} (Q : Db → Type 0) (x : Result Error A × Store) → Q x.1.db → Q (outcome x).1.db
outcome_keeps Q (ok a, s) h = h
outcome_keeps Q (err e, s) h = h

module _ (now : String) (s : Store) (v : IsValid s.db) (before : HostPorts s.db) where
  create_service-keeps :
      (input : CreateServiceInput)
      → Sound input
      → HostPorts (Services.create_service input now s).1.db
  unfolding Services.create_service
  create_service-keeps input (valid, allowed) =
      elim (Bool-cases ((input.name == "") || (input.hostname == "") || (input.ip_address == ""))) [
        | inl e ↦ rw e before
        | inr e ↦
            rw (e, valid)
              (with_tx-keeps HostPorts ChangeKind.services
                (create_service_tx input input.origin now) s before
                (create_service-HostPorts s.db before input input.origin now v.ids.2.1 allowed))
      ]

  quiet_keeps : (c : Command) → quiet c ≡ true → HostPorts (apply c now s).1.db
  quiet_keeps c q = HostPorts-Same s.db (apply c now s).1.db (apply-Same c now s q) before

  -- a write that passed the checks of its handler
  apply-HostPorts :
      (cfg : Config) (env : Env) (c : Command)
      → Checked cfg env s c
      → HostPorts (apply c now s).1.db
  unfolding apply Services.update_service Services.delete_service quiet
  apply-HostPorts cfg env (Command.create_service input) (req, e) = outcome_keeps HostPorts _ (
      create_service-keeps input
        (ensured Sound (prepare_service cfg s req) input (prepare_service-Sound cfg s req) e))
  apply-HostPorts cfg env (Command.update_service id input) (req, e) = outcome_keeps HostPorts _ (
      with_tx-keeps HostPorts ChangeKind.services (update_service_tx id input now) s before (
        update_service-HostPorts s.db before id input now (
          ensured (Complete s before id) (prepare_update s id req) input
            (prepare_update-Complete s before id req) e)))
  apply-HostPorts cfg env (Command.delete_service id) h = outcome_keeps HostPorts _ (
      with_tx-keeps HostPorts ChangeKind.services (delete_service_tx id) s before
        (delete_service-HostPorts s.db id before))
  apply-HostPorts cfg env c h = quiet_keeps c refl

-- One request keeps the store valid, and every service on the host with a port.
serve_keeps :
    (cfg : Config) (env : Env) (checker : Option OriginChecker) (req : Request) (s : Store)
    → IsValid s.db × HostPorts s.db
    → IsValid (serve cfg env checker req s).1.db × HostPorts (serve cfg env checker req s).1.db
serve_keeps cfg env checker req s (v, h) = elim (Bool-cases (writes req)) [
  | inl w ↦ elim (serve-Served cfg env checker req s w) [
    | inl (same, _) ↦ rw same (v, h)
    | inr (c, asked, done, _) ↦
        let valid = apply-IsValid c env.now s v in
        let hosts =
          apply-HostPorts env.now s v h cfg env c (Checked-of_Asks cfg env s req c asked) in
        (rw done at valid, rw done at hosts)
  ]
  | inr r ↦ rw (serve_reads cfg env checker req s r) (v, h)
]

-- requests handled one after the other, each as a whole, with the time stamp and keys that it gets
unfoldable pub serve_all : Config → Option OriginChecker → List (Env × Request) → Store → Store
serve_all cfg checker [] s = s
serve_all cfg checker ((env, req) ∷ reqs) s =
    serve_all cfg checker reqs (serve cfg env checker req s).1

-- From a valid store in which every service on the host has a port, such as the new store, any
-- requests that are handled one after the other, each as a whole, lead to such a store: none gets a
-- service on the host without declared ports.
pub serve_all-HostPorts :
    (cfg : Config) (checker : Option OriginChecker) (reqs : List (Env × Request)) (s : Store)
    → IsValid s.db
    → HostPorts s.db
    → IsValid (serve_all cfg checker reqs s).db × HostPorts (serve_all cfg checker reqs s).db
unfolding serve_all
serve_all-HostPorts cfg checker [] s v h = (v, h)
serve_all-HostPorts cfg checker ((env, req) ∷ reqs) s v h =
    let (v', h') = serve_keeps cfg env checker req s (v, h) in
    serve_all-HostPorts cfg checker reqs (serve cfg env checker req s).1 v' h'

-- ===== src/Api/Routes/Inputs/Created.antt =====
-- createUser and createService (daemon/api) hand to the store what the request asks for.
use Prim.Native.String.{◌++◌}
use mathlib.Core.Path.{subst}
use lightscale.Prelude.{
  ◌≡◌, ◌≢◌, refl, ◌⊎◌, inl, inr, String, Bool, true, false, Option, none, some, List, [], ◌∷◌, ◌==◌,
  nat_eq, string_eq, if◌then◌else◌, Bool-cases, eq_of_==, ==_of_eq,
}
use lightscale.Prelude.Result.{Result, ok, err}
use lightscale.Origin.{Spec, validate}
use lightscale.IpAlloc.{AllocError, allocate, is_in_prefix}
use lightscale.IpAlloc.Inside.{is_in_prefix-Inside}
use lightscale.Store.{Store}
use lightscale.Store.Users.{CreateUserInput, taken_user_ips}
use lightscale.Store.Services.{CreateServiceInput, taken_service_ips}
use lightscale.Store.HostPorts.Replaced.{filled}
use lightscale.Api.{Config, Env, Response}
use lightscale.Api.Wire.{CreateUserReq, CreateServiceReq}
use lightscale.Api.Ports.{parse_ports}
use lightscale.Api.Users.{new_address, generated, allocated, kept_if, prepare_user}
use lightscale.Api.Services.{checked, prepare_service}
use lightscale.Api.Routes.Hosts.{Ensures, Ensures-bind, Ensures-if, Ensures-guard_ports, checked_ok}
use lightscale.Api.Routes.Inputs.{AddressOf, UserAsked, HostnameOf, ServiceAsked}

pub differ : (s t : String) → (s == t) ≡ false → s ≢ t
differ s t f e = absurd (cc (f, ==_of_eq s t e))

pub of_Ensures :
    {A : Type 0} (P : A → Type 0) (r : Result Response A) (a : A) → Ensures P r → r ≡ ok a → P a
of_Ensures P (ok b) a h e = subst P (cc e) h
of_Ensures P (err r) a h e = absurd (cc e)

allocated-ok : (r : Result AllocError String) (ip : String) → allocated r ≡ ok ip → r ≡ ok ip
allocated-ok (ok a) ip h = cc h
allocated-ok (err e) ip h = absurd (cc h)

kept_if-ok :
    (r : Result AllocError Bool) (given ip : String)
    → kept_if r given ≡ ok ip
    → (ip ≡ given) × (r ≡ ok true)
kept_if-ok (ok true) given ip h = (cc h, refl)
kept_if-ok (ok false) given ip h = absurd (cc h)
kept_if-ok (err e) given ip h = absurd (cc h)

new_address-AddressOf :
    (subnet given ip : String) (taken reserved : List String)
    → new_address subnet given taken reserved ≡ ok ip
    → AddressOf subnet given taken reserved ip
unfolding new_address
new_address-AddressOf subnet given ip taken reserved h = elim (Bool-cases (given == "")) [
  | inl e ↦ inl (eq_of_== given "" e, allocated-ok (allocate subnet taken reserved) ip (rw e at h))
  | inr e ↦
      let (same, inside) = kept_if-ok (is_in_prefix subnet given) given ip (rw e at h) in
      inr (differ given "" e, same, is_in_prefix-Inside subnet given inside)
]

generated-ok : {A : Type 0} (o : Option A) (a : A) → generated o ≡ ok a → o ≡ some a
generated-ok none a h = absurd (cc h)
generated-ok (some b) a h = cc h

pub prepare_user-UserAsked :
    (cfg : Config) (env : Env) (s : Store) (req : CreateUserReq) (input : CreateUserInput)
    → prepare_user cfg env s req ≡ ok input
    → UserAsked cfg env s req input
unfolding prepare_user taken_user_ips
prepare_user-UserAsked cfg env s req input =
    let P = UserAsked cfg env s req in
    of_Ensures P (prepare_user cfg env s req) input (
      Ensures-if P (req.name == "") _ _ (λ e. tt)
        (λ e.
          Ensures-bind P
            (new_address cfg.client_subnet req.ip (taken_user_ips s) (cfg.server_ip ∷ [])) _
            (λ ip a. Ensures-bind P (generated env.keypair) _ (λ kp b.
              Ensures-bind P (generated env.preshared_key) _ (λ psk c. record {
                keypair = kp;
                generated = generated-ok env.keypair kp b;
                has_name = differ req.name "" e;
                name = refl;
                email = refl;
                endpoint = refl;
                public_key = refl;
                private_key = refl;
                preshared_key = generated-ok env.preshared_key psk c;
                address = new_address-AddressOf cfg.client_subnet req.ip ip _ _ a;
              })))))

HostnameOf-default :
    (cfg : Config) (req : CreateServiceReq)
    → HostnameOf cfg req
        (if req.hostname == "" then req.name ++ "." ++ cfg.domain else req.hostname)
HostnameOf-default cfg req = elim (Bool-cases (req.hostname == "")) [
  | inl e ↦ rw e (inr (eq_of_== req.hostname "" e, refl))
  | inr e ↦ rw e (inl (differ req.hostname "" e, refl))
]

-- a service on the host has ports
guarded :
    {P : Type 0} (spec : Spec) (ports : List P)
    → ((spec.kind == "host") ≡ false) ⊎ (filled ports ≡ true)
    → spec.kind ≡ "host"
    → ports ≢ []
guarded spec ports (inl f) k e = absurd (cc (f, ==_of_eq spec.kind "host" k))
guarded spec ports (inr f) k e = absurd (cc (rw e at f))

pub prepare_service-ServiceAsked :
    (cfg : Config) (s : Store) (req : CreateServiceReq) (input : CreateServiceInput)
    → prepare_service cfg s req ≡ ok input
    → ServiceAsked cfg s req input
unfolding prepare_service taken_service_ips
prepare_service-ServiceAsked cfg s req input =
    let P = ServiceAsked cfg s req in
    of_Ensures P (prepare_service cfg s req) input (
      Ensures-if P (req.name == "") _ _ (λ e. tt)
        (λ e. Ensures-bind P (checked (validate _)) _ (λ spec valid.
          Ensures-bind P (new_address cfg.service_subnet req.ip (taken_service_ips s) []) _ (λ ip a.
            Ensures-bind P (checked (parse_ports req.ports)) _ (λ ports parsed.
              Ensures-guard_ports P spec ports _ (λ allowed. record {
                has_name = differ req.name "" e;
                name = refl;
                hostname = HostnameOf-default cfg req;
                origin = checked_ok (validate _) spec valid;
                address = new_address-AddressOf cfg.service_subnet req.ip ip _ _ a;
                description = refl;
                ports = checked_ok (parse_ports req.ports) ports parsed;
                host_ports = guarded spec ports allowed;
              }))))))

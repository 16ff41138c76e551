-- ===== src/Proxy/Containers.antt =====
-- daemon/proxy/resolver.go with the client of daemon/docker/client.go: the addresses of containers.
use mathlib.Core.Path.{subst}
use Prim.Native.Char.{Char, code}
use lightscale.Prelude.{
  ℕ, ◌≡◌, ◌≢◌, refl, sym, ◌∙◌, String, Bool, true, Option, none, some, List, [], ◌∷◌, inl, inr, ◌⊎◌,
  Bool-cases, ◌==◌, eq_of_==, nat_eq, string_eq, In_of_any, In_of_find_first, In, here,
  In_of_In-keep, All_at, arith,
}
use lightscale.Prelude.Result.{Result, ok, err}
use lightscale.Origin.{Spec}
use lightscale.Docker.{
  Endpoint, Networks, Container, DockerError, matches_name, trim_slash, container_endpoints,
}
use lightscale.Docker.Listed.{Listed, container_endpoints-Listed}
use lightscale.Proxy.Select.{Safe, Safe-select_endpoint, or_pick, safe_of, select_endpoint_lem}
use lightscale.Proxy.{World, Target, Docker, safe, probes, select_endpoint, inspected, by_docker}

-- a client of the runtime, which has the containers, as the resolver sees it
abbrev pub answered : Result DockerError (List Endpoint) → Option (List Endpoint)
answered (ok eps) = some eps
answered (err e) = none

abbrev pub client_of : List Container → List String → Docker
client_of containers self name network =
    answered (container_endpoints (some (some containers)) self name network)

-- the target is one of the endpoints
abbrev pub Among : List Endpoint → Target → Type 0
Among eps t = (ep : Endpoint) × In ep eps × (t.dial_host ≡ ep.ip) × (t.network ≡ ep.network)

Among-or_pick :
    (probed : Bool) (eps : List Endpoint) (answer : Option Endpoint) (t : Target)
    → ((ep : Endpoint) → answer ≡ some ep → In ep eps)
    → or_pick probed none eps answer ≡ ok t
    → Among eps t
Among-or_pick probed eps (some ep) t f h = (ep, f ep refl, ground arith, ground arith)
Among-or_pick probed [] none t f h = cc h
Among-or_pick probed (ep ∷ eps) none t f h = (ep, here refl, ground arith, ground arith)

Among-select_endpoint :
    (probe : String → ℕ → Bool) (eps : List Endpoint) (port : ℕ) (proto : String) (t : Target)
    → select_endpoint probe eps port proto ≡ ok t
    → Among eps t
Among-select_endpoint probe eps port proto t h =
    let (ep, m, a, b) =
      Among-or_pick (probes proto port) (safe_of eps) _ t
        (λ ep e. In_of_find_first _ (safe_of eps) e)
        (sym (select_endpoint_lem probe eps port proto) ∙ h) in
    (ep, In_of_In-keep _ eps m, a, b)

-- The text is the name with a slash (of code 47) before it, or the name itself, which then does not
-- start with a slash.
abbrev pub Bare : String → String → Type 0
Bare s name =
    ((c : Char) × (code c ≡ 47) × (s ≡ String.◌∷◌ c name))
    ⊎ ((s ≡ name) × ((c : Char) (t : String) → s ≡ String.◌∷◌ c t → code c ≢ 47))

trim_slash-Bare : (s : String) → Bare s (trim_slash s)
trim_slash-Bare String.[] = inr (refl, λ c t e. absurd (cc e))
trim_slash-Bare (String.◌∷◌ c s) = elim (Bool-cases (code c == 47)) [
  | inl e ↦ rw e (inl (c, eq_of_== (code c) 47 e, refl))
  | inr e ↦ rw e (inr (refl, λ d t same of. absurd (cc (e, of, same))))
]

-- One of the names is, up to a slash before it, the one that is asked for.
abbrev pub Named : List String → String → Type 0
Named names asked = (n : String) × (bare : String) × In n names × Bare n bare × Bare asked bare

matches_name-Named :
    (names : List String) (asked : String)
    → matches_name names (trim_slash asked) ≡ true
    → Named names asked
unfolding matches_name
matches_name-Named names asked h =
    let (n, m, t) = In_of_any (λ n. trim_slash n == trim_slash asked) names h in
    let e : trim_slash n ≡ trim_slash asked = eq_of_== (trim_slash n) (trim_slash asked) t in
    (n, trim_slash asked, m, rw e at (trim_slash-Bare n), trim_slash-Bare asked)

-- The target is an address, in one of its networks, of a container one of whose names is, up to
-- a slash before it, that of the spec, in the network of the spec if it has one, and SafeBackendIP lets it pass.
pub record Reached (spec : Spec) (containers : List Container) (t : Target) : Type 0 where
  pub container : Container
  pub networks : Networks
  pub listed : In container containers
  pub named : Named container.names spec.value
  pub settings : container.network_settings ≡ some networks
  pub attached : In (t.network, some t.dial_host) networks
  pub asked : spec.network ≢ "" → t.network ≡ spec.network
  pub is_safe : safe t.dial_host ≡ true

reached :
    (w : World) (spec : Spec) (port : ℕ) (proto : String) (containers : List Container) (t : Target)
    (eps : List Endpoint)
    → Listed spec.value spec.network containers eps
    → select_endpoint w.probe eps port proto ≡ ok t
    → Reached spec containers t
reached w spec port proto containers t eps l h =
    let (ep, m, host, network) = Among-select_endpoint w.probe eps port proto t h in
    let all : Safe (select_endpoint w.probe eps port proto) =
      Safe-select_endpoint w.probe eps port proto in
    let there : In (ep.network, some ep.ip) l.networks = (All_at _ eps l.attached_to m).0 in
    record {
      container = l.container;
      networks = l.networks;
      listed = l.listed;
      named = matches_name-Named l.container.names spec.value l.named;
      settings = l.settings;
      attached =
          subst (λ (x : String × Option String). In x l.networks)
            (λ i. (sym network i, some (sym host i))) there;
      asked = λ n. network ∙ All_at _ eps (l.asked n) m;
      is_safe = rw h at all;
    }

module _ (w : World) (spec : Spec) (port : ℕ) (proto : String) (containers : List Container)
    (self : List String) (t : Target) where
  inspected-Reached :
      (o : Result DockerError (List Endpoint))
      → container_endpoints (some (some containers)) self spec.value spec.network ≡ o
      → inspected w port proto (answered o) ≡ ok t
      → Reached spec containers t
  inspected-Reached (err e) q h = cc h
  inspected-Reached (ok eps) q h =
      reached w spec port proto containers t eps
        (container_endpoints-Listed containers self spec.value spec.network eps q) h

  -- A target that resolveContainer has from the runtime is an address, in one of its networks, of a
  -- container one of whose names is, up to a slash before it, that of the spec, in the network of the
  -- spec if it has one, and SafeBackendIP lets it pass.
  pub by_docker-Reached :
      by_docker w spec port proto (some (client_of containers self)) ≡ ok t
      → Reached spec containers t
  by_docker-Reached h = inspected-Reached _ refl h

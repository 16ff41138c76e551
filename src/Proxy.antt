-- ===== src/Proxy.antt =====
-- daemon/proxy/resolver.go: from the origin of a service to the address that its traffic is sent to.
-- The name server, the probe by a TCP connection and the container runtime are parameters, as is the
-- time: `started` when a call reads the cache, `finished` when it writes it, in seconds. Each method
-- holds the mutex only while it reads or writes the state; the model runs one call at a time.
pub mod CacheKeys
pub mod Select
pub mod Sources
pub mod History
pub mod Containers
pub mod Forward
mod Tests
pub mod Forgotten
use Prim.Native.String.{◌++◌}
use lightscale.Prelude.{
  ℕ, ◌+◌, String, Bool, true, false, ◌&&◌, ◌||◌, not, Option, none, some, List, [], ◌∷◌, ltb, ◌==◌,
  nat_eq, string_eq, if◌then◌else◌, Map, get, put, delete,
}
use lightscale.Prelude.Result.{Result, ok, err}
use lightscale.Docker.{Endpoint}
use lightscale.Origin.{Spec, OriginError, validate, safe_backend_ip}

pub record Target : Type 0 where
  pub dial_host : String
  pub network : String
  pub detail : String

-- ErrOriginUnreachable, or the error of SafeBackendIP as it is
pub data ResolveError : Type 0 where
  unreachable : ResolveError
  refused : OriginError → ResolveError

pub record CacheEntry : Type 0 where
  pub target : Target
  pub expires : ℕ

-- `ContainerEndpoints` of a client of the container runtime; `none` for an error
abbrev pub Docker : Type 0
Docker = String → String → Option (List Endpoint)

pub record BackendResolver : Type 0 where
  pub docker : Option Docker
  pub cache : Map String CacheEntry

-- what is outside during one call
pub record World : Type 0 where
  pub started : ℕ
  pub finished : ℕ
  pub lookup_host : String → Option (List String)
  pub probe : String → ℕ → Bool

abbrev pub name_ttl : ℕ
name_ttl = 30

abbrev pub addr_ttl : ℕ
addr_ttl = 10

abbrev pub hostname_ttl : ℕ
hostname_ttl = 60

unfoldable pub new_resolver : Option Docker → BackendResolver
new_resolver docker = record { docker = docker; cache = [] }

-- `CacheKey` of shared/origin/origin.go
unfoldable pub cache_key : Spec → String
cache_key s = s.kind ++ String.◌∷◌ "\0" (s.value ++ String.◌∷◌ "\0" s.network)

abbrev pub unexpired : ℕ → Option CacheEntry → Option Target
unexpired now none = none
unexpired now (some entry) = if ltb now entry.expires then some entry.target else none

unfoldable pub cached : BackendResolver → Spec → ℕ → Option Target
cached r spec now = unexpired now (get (cache_key spec) r.cache)

unfoldable pub store : BackendResolver → Spec → Target → ℕ → BackendResolver
store r spec t expires = record r {
  cache = put (cache_key spec) (record { target = t; expires = expires }) r.cache;
}

unfoldable pub invalidate : BackendResolver → Spec → BackendResolver
invalidate r spec = record r { cache = delete (cache_key spec) r.cache }

unfoldable pub set_docker : BackendResolver → Option Docker → BackendResolver
set_docker r d = record r { docker = d; cache = [] }

abbrev pub is_ok : Result OriginError (Unit {0}) → Bool
is_ok (ok _) = true
is_ok (err _) = false

abbrev pub safe : String → Bool
safe ip = is_ok (safe_backend_ip ip)

-- the target of an endpoint
abbrev pub target_of : Endpoint → String → Target
target_of ep detail = record { dial_host = ep.ip; network = ep.network; detail = detail }

abbrev pub or_first : Option Endpoint → Endpoint → Option Endpoint
or_first none ep = some ep
or_first (some first) ep = some first

-- the end of `selectEndpoint`
abbrev pub pick_first : Bool → Option Endpoint → Result ResolveError Target
pick_first probed none = err unreachable
pick_first probed (some ep) = ok (
    target_of ep (
      if probed
      then "runtime socket, no candidate answered probe"
      else "runtime socket, deterministic pick"))

-- Is a connection tried, for the protocol and port?
abbrev pub probes : String → ℕ → Bool
probes proto port = (proto == "tcp") && not (port == 0)

-- the loop of `selectEndpoint`, with the first safe endpoint so far
unfoldable pub select_from :
    (String → ℕ → Bool) → ℕ → String → Option Endpoint → List Endpoint → Result ResolveError Target
select_from probe port proto first_safe [] = pick_first (probes proto port) first_safe
select_from probe port proto first_safe (ep ∷ eps) =
    let skipped = select_from probe port proto first_safe eps in
    let rest = select_from probe port proto (or_first first_safe ep) eps in
    if not (safe ep.ip)
    then skipped
    else if probes proto port && probe ep.ip port
    then ok (target_of ep "runtime socket, probe confirmed")
    else rest

unfoldable pub select_endpoint :
    (String → ℕ → Bool) → List Endpoint → ℕ → String → Result ResolveError Target
unfolding select_from
select_endpoint probe endpoints port proto = select_from probe port proto none endpoints

-- the cached target, or the rest of the call
abbrev pub or_cached :
    Option Target
    → BackendResolver
    → Result ResolveError Target × BackendResolver
    → Result ResolveError Target × BackendResolver
or_cached (some t) r rest = (ok t, r)
or_cached none r rest = rest

-- a target to be remembered, or an error
abbrev pub remembered :
    BackendResolver
    → Spec
    → ℕ
    → Result ResolveError Target
    → Result ResolveError Target × BackendResolver
remembered r spec expires (ok t) = (ok t, store r spec t expires)
remembered r spec expires (err e) = (err e, r)

-- the first error of SafeBackendIP on the addresses, or the target
unfoldable pub checked_addrs : List String → Target → Result ResolveError Target
checked_addrs [] t = ok t
checked_addrs (a ∷ addrs) t =
    let rest = checked_addrs addrs t in
    elim (safe_backend_ip a) [ ok _ ↦ rest | err e ↦ err (refused e) ]

abbrev pub named : String → String → Target
named host detail = record { dial_host = host; network = ""; detail = detail }

-- the answer of the name server to `resolveHostname`
abbrev pub looked_up : String → Option (List String) → Result ResolveError Target
looked_up host none = err unreachable
looked_up host (some []) = err unreachable
looked_up host (some (a ∷ addrs)) = checked_addrs (a ∷ addrs) (named host "dns name")

unfoldable pub resolve_hostname :
    World → Spec → BackendResolver → Result ResolveError Target × BackendResolver
unfolding checked_addrs
resolve_hostname w spec r = or_cached (cached r spec w.started) r (
    remembered r spec (w.finished + hostname_ttl) (looked_up spec.value (w.lookup_host spec.value)))

-- does the name server know the name
abbrev pub resolves : Option (List String) → Bool
resolves (some (_ ∷ _)) = true
resolves _ = false

abbrev pub inspected : World → ℕ → String → Option (List Endpoint) → Result ResolveError Target
inspected w port proto none = err unreachable
inspected w port proto (some endpoints) = select_endpoint w.probe endpoints port proto

abbrev pub by_docker : World → Spec → ℕ → String → Option Docker → Result ResolveError Target
by_docker w spec port proto none = err unreachable
by_docker w spec port proto (some client) = inspected w port proto (client spec.value spec.network)

unfoldable pub resolve_container :
    World → Spec → ℕ → String → BackendResolver → Result ResolveError Target × BackendResolver
unfolding select_endpoint
resolve_container w spec port proto r = or_cached (cached r spec w.started) r (
    if (spec.network == "") && resolves (w.lookup_host spec.value)
    then remembered r spec (w.finished + name_ttl)
        (ok (named spec.value "runtime dns (shared network)"))
    else remembered r spec (w.finished + addr_ttl) (by_docker w spec port proto r.docker))

-- a literal address, which is checked again
abbrev pub literal : String → Result OriginError (Unit {0}) → Result ResolveError Target
literal value (ok _) = ok (named value "literal address")
literal value (err e) = err (refused e)

-- the switch on the kind of a spec that is valid
unfoldable pub resolve_kind :
    World → Spec → ℕ → String → BackendResolver → Result ResolveError Target × BackendResolver
resolve_kind w spec port proto r =
    if spec.kind == "host"
    then (ok (named "127.0.0.1" "gateway loopback"), r)
    else if spec.kind == "ip"
    then (literal spec.value (safe_backend_ip spec.value), r)
    else if spec.kind == "hostname"
    then resolve_hostname w spec r
    else if spec.kind == "container"
    then resolve_container w spec port proto r
    else (err unreachable, r)

-- the switch on a spec, if `Validate` lets it pass
abbrev pub resolve_valid :
    World
    → Result OriginError Spec
    → ℕ
    → String
    → BackendResolver
    → Result ResolveError Target × BackendResolver
resolve_valid w (err e) port proto r = (err unreachable, r)
resolve_valid w (ok spec) port proto r = resolve_kind w spec port proto r

unfoldable pub resolve :
    World → Spec → ℕ → String → BackendResolver → Result ResolveError Target × BackendResolver
resolve w spec port proto r = resolve_valid w (validate spec) port proto r

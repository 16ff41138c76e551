-- ===== src/Proxy/Select.antt =====
-- What `selectEndpoint` of daemon/proxy/resolver.go picks.
use lightscale.Prelude.{
  ℕ, ◌≡◌, refl, String, Bool, true, ◌&&◌, Option, none, some, List, [], ◌∷◌, keep, find_first,
  In_of_find_first, All_at, ◌∙◌, Bool-cases, inl, inr, All, keep_passes,
}
use lightscale.Prelude.Result.{Result, ok, err}
use lightscale.Docker.{Endpoint}
use lightscale.Proxy.{
  Target, ResolveError, safe, or_first, pick_first, probes, target_of, select_from, select_endpoint,
}

abbrev pub first_of : Option Endpoint → List Endpoint → Option Endpoint
first_of (some ep) eps = some ep
first_of none [] = none
first_of none (ep ∷ eps) = some ep

-- the endpoint that answered, or else the first candidate
abbrev pub or_pick :
    Bool → Option Endpoint → List Endpoint → Option Endpoint → Result ResolveError Target
or_pick probed first eps (some ep) = ok (target_of ep "runtime socket, probe confirmed")
or_pick probed first eps none = pick_first probed (first_of first eps)

-- The choice in two passes: the safe endpoints, then the first of them that answers the probe if
-- connections are tried, else the first of them.
abbrev pub chosen :
    (String → ℕ → Bool) → ℕ → String → Option Endpoint → List Endpoint → Result ResolveError Target
chosen probe port proto first candidates =
    or_pick (probes proto port) first candidates
      (find_first (λ ep. probes proto port && probe ep.ip port) candidates)

abbrev pub safe_of : List Endpoint → List Endpoint
safe_of eps = keep (λ ep. safe ep.ip) eps

shift :
    (probed : Bool) (first : Option Endpoint) (ep : Endpoint) (eps : List Endpoint)
    (answer : Option Endpoint)
    → or_pick probed (or_first first ep) eps answer ≡ or_pick probed first (ep ∷ eps) answer
shift probed first ep eps (some a) = refl
shift probed (some f) ep eps none = refl
shift probed none ep eps none = refl

select_from_lem :
    (probe : String → ℕ → Bool) (port : ℕ) (proto : String) (first : Option Endpoint)
    (eps : List Endpoint)
    → select_from probe port proto first eps ≡ chosen probe port proto first (safe_of eps)
unfolding select_from keep find_first
select_from_lem probe port proto none [] = refl
select_from_lem probe port proto (some f) [] = refl
select_from_lem probe port proto first (ep ∷ eps) = elim (Bool-cases (safe ep.ip)) [
  | inl s ↦ elim (Bool-cases (probes proto port && probe ep.ip port)) [
    | inl p ↦ rw (s, p) refl
    | inr p ↦
        rw (s, p)
          (select_from_lem probe port proto (or_first first ep) eps
            ∙ shift (probes proto port) first ep (safe_of eps) _)
  ]
  | inr s ↦ rw s (select_from_lem probe port proto first eps)
]

-- selectEndpoint picks, of the endpoints that SafeBackendIP lets pass, the first that answers the
-- probe, if the protocol is "tcp" and the port is not 0; else, or if none answers, the first of them.
-- It errs if there is none.
pub select_endpoint_lem :
    (probe : String → ℕ → Bool) (eps : List Endpoint) (port : ℕ) (proto : String)
    → select_endpoint probe eps port proto ≡ chosen probe port proto none (safe_of eps)
unfolding select_endpoint select_from
select_endpoint_lem probe eps port proto = select_from_lem probe port proto none eps

abbrev pub Safe : Result ResolveError Target → Type 0
Safe (ok t) = safe t.dial_host ≡ true
Safe (err _) = Unit

Safe-or_pick :
    (probed : Bool) (eps : List Endpoint) (answer : Option Endpoint)
    → All (λ ep. safe ep.ip ≡ true) eps
    → ((ep : Endpoint) → answer ≡ some ep → safe ep.ip ≡ true)
    → Safe (or_pick probed none eps answer)
Safe-or_pick probed eps (some ep) h k = k ep refl
Safe-or_pick probed [] none h k = tt
Safe-or_pick probed (ep ∷ eps) none h k = h.0

-- selectEndpoint returns no address that SafeBackendIP refuses.
pub Safe-select_endpoint :
    (probe : String → ℕ → Bool) (eps : List Endpoint) (port : ℕ) (proto : String)
    → Safe (select_endpoint probe eps port proto)
Safe-select_endpoint probe eps port proto =
    let all : All (λ ep. safe ep.ip ≡ true) (safe_of eps) = keep_passes (λ ep. safe ep.ip) eps in
    rw (select_endpoint_lem probe eps port proto) (
      Safe-or_pick (probes proto port) (safe_of eps) _ all
        (λ ep e. All_at _ (safe_of eps) all (In_of_find_first _ (safe_of eps) e)))

-- ===== src/Proxy/History.antt =====
-- daemon/proxy/resolver.go over any calls: what `Resolve` answers after them.
use mathlib.Core.Path.{subst}
use lightscale.Prelude.{
  ℕ, ◌≡◌, ◌<◌, ◌+◌, refl, sym, ap, String, true, Option, none, some, List, [], ◌∷◌, here, All,
  Bool-cases, Option-cases, inl, inr, arith, ◌==◌, ◌&&◌, string_eq, eq_of_==,
}
use lightscale.Prelude.Result.{Result, ok, err, Result-cases}
use lightscale.Origin.{Spec, OriginError, validate, safe_backend_ip}
use lightscale.Origin.Validation.{WellFormed, normal, validate_iff}
use lightscale.Proxy.Select.{Safe, Safe-select_endpoint}
use lightscale.Proxy.Sources.{
  Source, Clean, Sourced, moved, latest, Sourced-new_resolver, Sourced-later, Sourced-invalidate,
  Sourced-set_docker, Sourced-store, cached-Source,
}
use lightscale.Docker.{Endpoint}
use lightscale.Proxy.{
  World, Target, Docker, BackendResolver, ResolveError, new_resolver, cached, invalidate,
  set_docker, safe, resolves, or_cached, remembered, name_ttl, hostname_ttl, resolve, resolve_kind,
  literal, is_ok, resolve_hostname, resolve_container, looked_up, checked_addrs, named, by_docker,
  inspected, select_endpoint,
}

-- What a call may answer for a spec after the other calls: the gateway's own address, the literal
-- address, a target that this call found, or one that an earlier call found and that still holds.
pub data Obtained (ws : List World) (w : World) (spec : Spec) (t : Target) : Type 0 where
  loopback : spec.kind ≡ "host" → t.dial_host ≡ "127.0.0.1" → Obtained ws w spec t
  address :
      spec.kind ≡ "ip" → t.dial_host ≡ spec.value → safe spec.value ≡ true → Obtained ws w spec t
  found : {n : ℕ} → Source (w ∷ []) spec t n → Obtained ws w spec t
  kept : {n : ℕ} → Source ws spec t n → w.started < n → Obtained ws w spec t

-- The result of a call is as above, and so is the cache after it.
record Sound (ws : List World) (w : World) (spec : Spec)
    (out : Result ResolveError Target × BackendResolver) : Type 0 where
  answer : (t : Target) → out.0 ≡ ok t → Obtained ws w spec t
  cache : Sourced (w ∷ ws) out.1

module _ (ws : List World) (w : World) (spec : Spec) (r : BackendResolver) where
  Sound-remembered :
      (n : ℕ) (o : Result ResolveError Target)
      → Sourced ws r
      → Clean spec
      → ((t : Target) → o ≡ ok t → Source (w ∷ []) spec t n)
      → Sound ws w spec (remembered r spec n o)
  Sound-remembered n (ok t) s c f = record {
    answer = λ u e. Obtained.found (f u e);
    cache =
        Sourced-store (w ∷ ws) r spec t n (Sourced-later ws w r s) c (moved (latest w) (f t refl));
  }
  Sound-remembered n (err e) s c f = record { answer = λ t h. cc; cache = Sourced-later ws w r s }

  Sound-or_cached :
      (rest : Result ResolveError Target × BackendResolver)
      → Sourced ws r
      → Clean spec
      → Sound ws w spec rest
      → Sound ws w spec (or_cached (cached r spec w.started) r rest)
  Sound-or_cached rest s c h = elim (Option-cases (cached r spec w.started)) [
    | inl e ↦ rw e h
    | inr (t, e) ↦
        let (n, source, fresh) = cached-Source ws r spec t w.started s c e in
        rw e (record {
          answer = λ u q. subst (Obtained ws w spec) (ground arith) (Obtained.kept source fresh);
          cache = Sourced-later ws w r s;
        })
  ]

checked_addrs-All :
    (addrs : List String) (t u : Target)
    → checked_addrs addrs t ≡ ok u
    → (t ≡ u) × All (λ a. safe a ≡ true) addrs
unfolding checked_addrs
checked_addrs-All [] t u h = (ground arith, tt)
checked_addrs-All (a ∷ addrs) t u h = elim (Result-cases (safe_backend_ip a)) [
  | inl (x, good) ↦
      let (same, all) = checked_addrs-All addrs t u (rw (checked_addrs, good) at h) in
      (same, (rw good refl, all))
  | inr (e, bad) ↦ ground arith
]

hostname-Source :
    (w : World) (spec : Spec) (t : Target) (o : Option (List String))
    → spec.kind ≡ "hostname"
    → w.lookup_host spec.value ≡ o
    → looked_up spec.value o ≡ ok t
    → Source (w ∷ []) spec t (w.finished + hostname_ttl)
hostname-Source w spec t none k l h = cc
hostname-Source w spec t (some []) k l h = cc
hostname-Source w spec t (some (a ∷ addrs)) k l h =
    let (same, all) = checked_addrs-All (a ∷ addrs) (named spec.value "dns name") t h in
    Source.hostname (here refl) k (ap (λ (t : Target). t.dial_host) (sym same)) l (λ e. cc) all

inspected-safe :
    (w : World) (t : Target) (port : ℕ) (proto : String) (o : Option (List Endpoint))
    → inspected w port proto o ≡ ok t
    → safe t.dial_host ≡ true
inspected-safe w t port proto none h = cc
inspected-safe w t port proto (some eps) h =
    let all : Safe (select_endpoint w.probe eps port proto) =
      Safe-select_endpoint w.probe eps port proto in
    rw h at all

by_docker-safe :
    (w : World) (spec : Spec) (t : Target) (port : ℕ) (proto : String) (d : Option Docker)
    → by_docker w spec port proto d ≡ ok t
    → safe t.dial_host ≡ true
by_docker-safe w spec t port proto none h = cc
by_docker-safe w spec t port proto (some client) h =
    inspected-safe w t port proto (client spec.value spec.network) h

module _ (ws : List World) (w : World) (spec : Spec) (r : BackendResolver) (s : Sourced ws r)
    (c : Clean spec) where
  Sound-resolve_hostname : spec.kind ≡ "hostname" → Sound ws w spec (resolve_hostname w spec r)
  unfolding resolve_hostname
  Sound-resolve_hostname k = Sound-or_cached ws w spec r _ s c (
      Sound-remembered ws w spec r _ _ s c
        (λ t e. hostname-Source w spec t (w.lookup_host spec.value) k refl e))

  Sound-resolve_container :
      (port : ℕ) (proto : String)
      → spec.kind ≡ "container"
      → Sound ws w spec (resolve_container w spec port proto r)
  unfolding resolve_container
  Sound-resolve_container port proto k =
      Sound-or_cached ws w spec r _ s c
        (elim (Bool-cases ((spec.network == "") && resolves (w.lookup_host spec.value))) [
          | inl named_too ↦ rw named_too (
              Sound-remembered ws w spec r (w.finished + name_ttl)
                (ok (named spec.value "runtime dns (shared network)")) s c
                (λ t e.
                  let network : spec.network ≡ "" = eq_of_== spec.network "" (ground arith) in
                  let known : resolves (w.lookup_host spec.value) ≡ true = ground arith in
                  let host : t.dial_host ≡ spec.value = ground arith in
                  Source.container_name (here refl) k network host known))
          | inr other ↦ rw other (
              Sound-remembered ws w spec r _ _ s c (λ t e.
                Source.container_address (here refl) k
                  (by_docker-safe w spec t port proto r.docker e)))
        ])

literal-Safe :
    (value : String) (o : Result OriginError (Unit {0})) (t : Target)
    → literal value o ≡ ok t
    → (t.dial_host ≡ value) × (is_ok o ≡ true)
literal-Safe value (ok x) t h = (ground arith, refl)
literal-Safe value (err e) t h = cc

module _ (ws : List World) (w : World) (spec : Spec) (port : ℕ) (proto : String)
    (r : BackendResolver) where
  to_host :
      spec.kind ≡ "host"
      → resolve_kind w spec port proto r ≡ (ok (named "127.0.0.1" "gateway loopback"), r)
  unfolding resolve_kind
  to_host k = rw k refl

  to_ip :
      spec.kind ≡ "ip"
      → resolve_kind w spec port proto r ≡ (literal spec.value (safe_backend_ip spec.value), r)
  unfolding resolve_kind
  to_ip k = rw k refl

  to_hostname :
      spec.kind ≡ "hostname" → resolve_kind w spec port proto r ≡ resolve_hostname w spec r
  unfolding resolve_kind
  to_hostname k = rw k refl

  to_container :
      spec.kind ≡ "container"
      → resolve_kind w spec port proto r ≡ resolve_container w spec port proto r
  unfolding resolve_kind
  to_container k = rw k refl

  Sound-resolve_kind :
      Sourced ws r
      → Clean spec
      → WellFormed spec
      → Sound ws w spec (resolve_kind w spec port proto r)
  Sound-resolve_kind s c (WellFormed.host k v n) =
      subst (Sound ws w spec) (sym (to_host k)) (record {
        answer = λ t e. Obtained.loopback k (ground arith);
        cache = Sourced-later ws w r s;
      })
  Sound-resolve_kind s c (WellFormed.container k v) =
      subst (Sound ws w spec) (sym (to_container k))
        (Sound-resolve_container ws w spec r s c port proto k)
  Sound-resolve_kind s c (WellFormed.ip addr k n v p good) =
      subst (Sound ws w spec) (sym (to_ip k)) (record {
        answer = λ t e.
            let (host, fine) = literal-Safe spec.value (safe_backend_ip spec.value) t e in
            Obtained.address k host fine;
        cache = Sourced-later ws w r s;
      })
  Sound-resolve_kind s c (WellFormed.hostname k v n) =
      subst (Sound ws w spec) (sym (to_hostname k)) (Sound-resolve_hostname ws w spec r s c k)

Sound-resolve :
    (ws : List World) (w : World) (spec : Spec) (port : ℕ) (proto : String) (r : BackendResolver)
    → Sourced ws r
    → Clean (normal spec)
    → Sound ws w (normal spec) (resolve w spec port proto r)
unfolding resolve
Sound-resolve ws w spec port proto r s c = elim (Result-cases (validate spec)) [
  | inl (t, e) ↦
      let (same, well) = (validate_iff spec t).0 e in
      rw (e, same) (Sound-resolve_kind ws w (normal spec) port proto r s c well)
  | inr (e, bad) ↦ rw bad (record { answer = λ t h. cc; cache = Sourced-later ws w r s })
]

-- Any calls of the resolver, from its creation on, with what was outside during each Resolve.
pub data Reach : List World → BackendResolver → Type 0 where
  created : (d : Option Docker) → Reach [] (new_resolver d)
  resolved :
      {ws : List World} {r : BackendResolver}
      → Reach ws r
      → (w : World) (spec : Spec) (port : ℕ) (proto : String) → Clean (normal spec)
      → Reach (w ∷ ws) (resolve w spec port proto r).1
  invalidated :
      {ws : List World} {r : BackendResolver}
      → Reach ws r
      → (spec : Spec) → Reach ws (invalidate r spec)
  docker_set :
      {ws : List World} {r : BackendResolver}
      → Reach ws r
      → (d : Option Docker) → Reach ws (set_docker r d)

Reach-Sourced : (ws : List World) (r : BackendResolver) → Reach ws r → Sourced ws r
Reach-Sourced ws r (Reach.created d) = Sourced-new_resolver d
Reach-Sourced ws r (Reach.resolved {ws = vs} {r = q} h w spec port proto c) =
    (Sound-resolve vs w spec port proto q (Reach-Sourced vs q h) c).cache
Reach-Sourced ws r (Reach.invalidated {r = q} h spec) =
    Sourced-invalidate ws q spec (Reach-Sourced ws q h)
Reach-Sourced ws r (Reach.docker_set {r = q} h d) = Sourced-set_docker ws q d

-- Whatever calls came before: if Resolve answers a target, then it is the loopback address for kind
-- host; for kind ip the literal address, which is safe; for a hostname its name, which resolved to
-- addresses that are all safe; for a container its name, which resolved, or a safe address. The name or
-- address was found in this call, or in an earlier one for the same spec at most 60 seconds (hostname),
-- 30 (container name) or 10 (container address) before, counted from the end of that call to the start
-- of this one. The kinds and values of the specs have no NUL character.
pub resolve-Obtained :
    (ws : List World) (r : BackendResolver) (w : World) (spec : Spec) (port : ℕ) (proto : String)
    (t : Target)
    → Reach ws r
    → Clean (normal spec)
    → (resolve w spec port proto r).0 ≡ ok t
    → Obtained ws w (normal spec) t
resolve-Obtained ws r w spec port proto t h c e =
    (Sound-resolve ws w spec port proto r (Reach-Sourced ws r h) c).answer t e

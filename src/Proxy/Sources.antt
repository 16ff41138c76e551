-- ===== src/Proxy/Sources.antt =====
-- daemon/proxy/resolver.go over time: where the targets of the cache come from.
use mathlib.Core.Path.{subst}
use lightscale.Prelude.{
  ℕ, ◌≡◌, ◌≢◌, ◌<◌, ◌+◌, sym, String, true, Option, some, List, [], ◌∷◌, In, here, there, All, get,
  get-put, get-delete, Bool-cases, Option-cases, inl, inr, arith, ◌==◌, string_eq, ltb→lt, eq_of_==,
}
use lightscale.Strings.Parts.{Without}
use lightscale.Origin.{Spec}
use lightscale.Proxy.CacheKeys.{cache_key-injective}
use lightscale.Proxy.{
  World, Target, Docker, CacheEntry, BackendResolver, new_resolver, cache_key, cached, store,
  invalidate, set_docker, safe, resolves, name_ttl, addr_ttl, hostname_ttl,
}

-- How a target for a spec was found in one of the calls, and until when it may be used: the name
-- resolved to addresses that are all safe; the container's name resolved; or the address is safe.
pub data Source (ws : List World) (spec : Spec) (t : Target) : ℕ → Type 0 where
  hostname :
      {w : World} {addrs : List String}
      → In w ws
      → spec.kind ≡ "hostname"
      → t.dial_host ≡ spec.value
      → w.lookup_host spec.value ≡ some addrs
      → addrs ≢ []
      → All (λ a. safe a ≡ true) addrs
      → Source ws spec t (w.finished + hostname_ttl)
  container_name :
      {w : World}
      → In w ws
      → spec.kind ≡ "container"
      → spec.network ≡ ""
      → t.dial_host ≡ spec.value
      → resolves (w.lookup_host spec.value) ≡ true
      → Source ws spec t (w.finished + name_ttl)
  container_address :
      {w : World}
      → In w ws
      → spec.kind ≡ "container"
      → safe t.dial_host ≡ true
      → Source ws spec t (w.finished + addr_ttl)

-- no NUL character, which separates the parts of a cache key
abbrev pub Clean : Spec → Type 0
Clean spec = Without 0 spec.kind × Without 0 spec.value

-- Every target of the cache was found in one of the calls, for a spec with that key.
abbrev pub Sourced : List World → BackendResolver → Type 0
Sourced ws r =
    (k : String) (e : CacheEntry)
    → get k r.cache ≡ some e
    → (spec : Spec) × (k ≡ cache_key spec) × Clean spec × Source ws spec e.target e.expires

pub moved :
    {ws vs : List World} {spec : Spec} {t : Target} {n : ℕ}
    → ((w : World) → In w ws → In w vs)
    → Source ws spec t n
    → Source vs spec t n
moved f (Source.hostname m k d l ne all) = Source.hostname (f _ m) k d l ne all
moved f (Source.container_name m k n d r) = Source.container_name (f _ m) k n d r
moved f (Source.container_address m k s) = Source.container_address (f _ m) k s

pub latest : {ws : List World} (w v : World) → In v (w ∷ []) → In v (w ∷ ws)
latest w v (here e) = here e
latest w v (there m) = elim m [ ]

pub Sourced-new_resolver : (d : Option Docker) → Sourced [] (new_resolver d)
unfolding new_resolver get
Sourced-new_resolver d k e h = cc

pub Sourced-later :
    (ws : List World) (w : World) (r : BackendResolver) → Sourced ws r → Sourced (w ∷ ws) r
Sourced-later ws w r s k e h =
    let (spec, same, clean, source) = s k e h in (spec, same, clean, moved (λ v m. there m) source)

pub Sourced-invalidate :
    (ws : List World) (r : BackendResolver) (spec : Spec)
    → Sourced ws r
    → Sourced ws (invalidate r spec)
unfolding invalidate
Sourced-invalidate ws r spec s k e h = s k e (ground (arith, get-delete (cache_key spec) k r.cache))

pub Sourced-set_docker :
    (ws : List World) (r : BackendResolver) (d : Option Docker) → Sourced ws (set_docker r d)
unfolding set_docker get
Sourced-set_docker ws r d k e h = cc

pub Sourced-store :
    (ws : List World) (r : BackendResolver) (spec : Spec) (t : Target) (n : ℕ)
    → Sourced ws r
    → Clean spec
    → Source ws spec t n
    → Sourced ws (store r spec t n)
unfolding store
Sourced-store ws r spec t n s c source k e h = elim (Bool-cases (cache_key spec == k)) [
  | inl same ↦
      let hit : record { target = t; expires = n } ≡ e =
        ground (arith, get-put (cache_key spec) k (record { target = t; expires = n }) r.cache) in
      (spec, sym (eq_of_== _ k same), c, subst (λ e. Source ws spec e.target e.expires) hit source)
  | inr other ↦
      s k e
        (ground (arith, get-put (cache_key spec) k (record { target = t; expires = n }) r.cache))
]

pub cached-Source :
    (ws : List World) (r : BackendResolver) (spec : Spec) (t : Target) (now : ℕ)
    → Sourced ws r
    → Clean spec
    → cached r spec now ≡ some t
    → (n : ℕ) × Source ws spec t n × (now < n)
unfolding cached
cached-Source ws r spec t now s c h = elim (Option-cases (get (cache_key spec) r.cache)) [
  | inl gone ↦ ground arith
  | inr (e, hit) ↦
      let (other, same, clean, source) = s (cache_key spec) e hit in
      let is : other ≡ spec = cache_key-injective other spec clean.0 c.0 clean.1 c.1 (sym same) in
      let fresh : now < e.expires = ltb→lt now e.expires (ground arith) in
      let target : e.target ≡ t = ground arith in
      (
        e.expires,
        subst (λ o. Source ws o t e.expires) is
            (subst (λ t. Source ws other t e.expires) target source),
        fresh,
      )
]

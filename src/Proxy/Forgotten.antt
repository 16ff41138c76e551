-- ===== src/Proxy/Forgotten.antt =====
-- daemon/proxy/resolver.go: what Invalidate and SetDocker forget.
use lightscale.Prelude.{
  ℕ, ◌≡◌, refl, ◌+◌, sym, ap, ◌∙◌, String, Option, none, some, get, get-delete, Bool-cases, inl,
  inr, arith, ◌==◌, ◌&&◌, string_eq, ==_of_eq,
}
use lightscale.Prelude.Result.{Result, ok, err, Result-cases}
use lightscale.Origin.{Spec, validate}
use lightscale.Origin.Validation.{normal, validate_iff}
use lightscale.Proxy.{
  World, Target, Docker, BackendResolver, ResolveError, new_resolver, cached, cache_key, invalidate,
  or_cached, remembered, addr_ttl, name_ttl, named, by_docker, resolves, resolve, resolve_kind,
  resolve_hostname, resolve_container,
}

same_answer :
    (o : Option Target) (r q : BackendResolver) (spec : Spec) (n : ℕ)
    (f : Result ResolveError Target)
    → (or_cached o r (remembered r spec n f)).0 ≡ (or_cached o q (remembered q spec n f)).0
same_answer (some t) r q spec n f = refl
same_answer none r q spec n (ok t) = refl
same_answer none r q spec n (err e) = refl

module _ (w : World) (spec : Spec) (port : ℕ) (proto : String) (r q : BackendResolver)
    (c : cached r spec w.started ≡ cached q spec w.started) (d : r.docker ≡ q.docker) where
  same_hostname : (resolve_hostname w spec r).0 ≡ (resolve_hostname w spec q).0
  unfolding resolve_hostname
  same_hostname = rw c (same_answer (cached q spec w.started) r q spec _ _)

  same_container :
      (resolve_container w spec port proto r).0 ≡ (resolve_container w spec port proto q).0
  unfolding resolve_container
  same_container = elim (Bool-cases ((spec.network == "") && resolves (w.lookup_host spec.value))) [
    | inl e ↦
        rw (e, c)
          (same_answer (cached q spec w.started) r q spec (w.finished + name_ttl)
            (ok (named spec.value "runtime dns (shared network)")))
    | inr e ↦
        let asked : Option Docker → Result ResolveError Target = by_docker w spec port proto in
        rw (e, c)
          (ap
              (λ d.
                (or_cached (cached q spec w.started) r
                  (remembered r spec (w.finished + addr_ttl) (asked d))).0)
              d
            ∙ same_answer (cached q spec w.started) r q spec _ (asked q.docker))
  ]

  same_kind : (resolve_kind w spec port proto r).0 ≡ (resolve_kind w spec port proto q).0
  unfolding resolve_kind
  same_kind = ground (arith, same_hostname, same_container)

cached-invalidate :
    (r : BackendResolver) (spec : Spec) (now : ℕ) → cached (invalidate r spec) spec now ≡ none
unfolding cached invalidate
cached-invalidate r spec now =
    rw
      (
        get-delete (cache_key spec) (cache_key spec) r.cache,
        ==_of_eq (cache_key spec) (cache_key spec) refl,
      )
      refl

cached-new_resolver :
    (d : Option Docker) (spec : Spec) (now : ℕ) → cached (new_resolver d) spec now ≡ none
unfolding cached new_resolver get
cached-new_resolver d spec now = refl

docker-invalidate :
    (r : BackendResolver) (spec : Spec)
    → (invalidate r spec).docker ≡ (new_resolver r.docker).docker
unfolding invalidate new_resolver
docker-invalidate r spec = refl

-- After Invalidate of a spec in the form that Validate returns, Resolve of the spec answers what a new
-- resolver with the same client would: nothing that was found before is used.
pub resolve-invalidate :
    (w : World) (spec : Spec) (port : ℕ) (proto : String) (r : BackendResolver)
    → (resolve w spec port proto (invalidate r (normal spec))).0
      ≡ (resolve w spec port proto (new_resolver r.docker)).0
unfolding resolve
resolve-invalidate w spec port proto r = elim (Result-cases (validate spec)) [
  | inl (t, e) ↦
      let (same, well) = (validate_iff spec t).0 e in
      let forgotten =
        cached-invalidate r (normal spec) w.started
        ∙ sym (cached-new_resolver r.docker (normal spec) w.started) in
      rw (e, same)
        (same_kind w (normal spec) port proto (invalidate r (normal spec)) (new_resolver r.docker)
          forgotten (docker-invalidate r (normal spec)))
  | inr (e, bad) ↦ rw bad refl
]

-- ===== src/Proxy/CacheKeys.antt =====
-- `CacheKey` (shared/origin/origin.go) tells specs apart.
use Prim.Native.String.{◌++◌}
use lightscale.Prelude.{◌≡◌, refl, sym, ap, ◌∙◌, String, some, nat_eq}
use lightscale.Strings.{cut}
use lightscale.Strings.Parts.{Without, cut-append}
use lightscale.Origin.{Spec}
use lightscale.Proxy.{cache_key}

cut-cache_key :
    (s : Spec)
    → Without 0 s.kind
    → cut 0 (cache_key s) ≡ some (s.kind, s.value ++ String.◌∷◌ "\0" s.network)
unfolding cache_key
cut-cache_key s h = cut-append 0 s.kind "\0" _ refl h

-- Two specs with the same cache key are the same, if no kind and no value has a NUL character.
pub cache_key-injective :
    (s t : Spec)
    → Without 0 s.kind
    → Without 0 t.kind
    → Without 0 s.value
    → Without 0 t.value
    → cache_key s ≡ cache_key t
    → s ≡ t
cache_key-injective s t sk tk sv tv e =
    let heads : some (s.kind, s.value ++ String.◌∷◌ "\0" s.network)
        ≡ some (t.kind, t.value ++ String.◌∷◌ "\0" t.network) =
      sym (cut-cache_key s sk) ∙ ap (cut 0) e ∙ cut-cache_key t tk in
    let kinds : s.kind ≡ t.kind = cc heads in
    let rests : s.value ++ String.◌∷◌ "\0" s.network ≡ t.value ++ String.◌∷◌ "\0" t.network =
      cc heads in
    let tails : some (s.value, s.network) ≡ some (t.value, t.network) =
      sym (cut-append 0 s.value "\0" s.network refl sv)
      ∙ ap (cut 0) rests
      ∙ cut-append 0 t.value "\0" t.network refl tv in
    let values : s.value ≡ t.value = cc tails in
    let networks : s.network ≡ t.network = cc tails in
    λ i. record { kind = kinds i; value = values i; network = networks i }

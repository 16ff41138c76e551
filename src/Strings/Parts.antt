-- ===== src/Strings/Parts.antt =====
-- Texts that are put together and taken apart again.
use Prim.Native.Char.{Char, code}
use Prim.Native.String.{◌++◌}
use text.Mathlib.TextLemmas.{nil-append, cons-append}
use lightscale.Prelude.{
  ℕ, String, Bool, true, false, some, List, [], ◌∷◌, ◌≡◌, refl, ap, ◌==◌, nat_eq, All,
}
use lightscale.Strings.{cut, split, join}

-- No character of the text passes the test.
abbrev pub Avoids : (ℕ → Bool) → String → Type 0
Avoids p String.[] = Unit {0}
Avoids p (String.◌∷◌ c s) = (p (code c) ≡ false) × Avoids p s

-- The separator is not in the text.
abbrev pub Without : ℕ → String → Type 0
Without sep s = Avoids (λ c. c == sep) s

pub Avoids-append : (p : ℕ → Bool) (s t : String) → Avoids p s → Avoids p t → Avoids p (s ++ t)
Avoids-append p String.[] t v w = rw (nil-append t) w
Avoids-append p (String.◌∷◌ c s) t v w = rw (cons-append c s t) (v.0, Avoids-append p s t v.1 w)

pub Avoids-join :
    (p : ℕ → Bool) (sep part : String) (parts : List String)
    → Avoids p sep
    → Avoids p part
    → All (Avoids p) parts
    → Avoids p (join (part ∷ parts) sep)
unfolding join
Avoids-join p sep part [] h w ws = w
Avoids-join p sep part (next ∷ parts) h w ws =
    Avoids-append p part _ w (Avoids-append p sep _ h (Avoids-join p sep next parts h ws.0 ws.1))

pub cut-append :
    (sep : ℕ) (s : String) (c : Char) (t : String)
    → (code c == sep) ≡ true
    → Without sep s
    → cut sep (s ++ String.◌∷◌ c t) ≡ some (s, t)
unfolding cut
cut-append sep String.[] c t h w = rw (nil-append (String.◌∷◌ c t), h) refl
cut-append sep (String.◌∷◌ d s) c t h w =
    rw (cons-append d s (String.◌∷◌ c t), w.0, cut-append sep s c t h w.1) refl

pub split-append :
    (sep : ℕ) (s : String) (c : Char) (t : String)
    → (code c == sep) ≡ true
    → Without sep s
    → split sep (s ++ String.◌∷◌ c t) ≡ s ∷ split sep t
unfolding split
split-append sep String.[] c t h w = rw (nil-append (String.◌∷◌ c t), h) refl
split-append sep (String.◌∷◌ d s) c t h w =
    rw (cons-append d s (String.◌∷◌ c t), w.0, split-append sep s c t h w.1) refl

pub split_whole : (sep : ℕ) (s : String) → Without sep s → split sep s ≡ s ∷ []
unfolding split
split_whole sep String.[] w = refl
split_whole sep (String.◌∷◌ c s) w = rw (w.0, split_whole sep s w.1) refl

-- Parts without the separator, joined by it, are what the split of the text gives.
pub split-join :
    (sep : ℕ) (c : Char) (part : String) (parts : List String)
    → (code c == sep) ≡ true
    → Without sep part
    → All (Without sep) parts
    → split sep (join (part ∷ parts) (String.◌∷◌ c "")) ≡ part ∷ parts
unfolding join
split-join sep c part [] h w ws = split_whole sep part w
split-join sep c part (next ∷ parts) h w ws =
    let tail = join (next ∷ parts) (String.◌∷◌ c "") in
    rw (cons-append c "" tail, nil-append tail, split-append sep part c tail h w)
      (ap (λ more. part ∷ more) (split-join sep c next parts h ws.0 ws.1))

-- ===== src/Prelude/Numbering.antt =====
-- Rows numbered by AUTOINCREMENT: distinct ids, none above the last one given.
use Prim.Native.Nat.{ℕ, ◌≤◌, ◌<◌, ◌+◌}
use mathlib.Core.Path.{◌≡◌, refl}
use mathlib.Core.Logic.{inl, inr}
use mathlib.Core.Bool.{Bool, false}
use mathlib.Core.List.{List, [], ◌∷◌, ◌++◌}
use native.Mathlib.Omega.{arith}
use lightscale.Prelude.Tests.{Bool-cases, nat_eq}
use lightscale.Prelude.Rows.{any, keep, update, All, All-keep, All-append, All-weaken}
use lightscale.Prelude.Keys.{has, Distinct, Distinct-append_one, Distinct-keep}
use lightscale.Prelude.Updates.{Distinct-update_same}

module _ {ℓ} {A : Type ℓ} where
  pub All-update {κ} :
      (P : A → Type κ) (p : A → Bool) (f : A → A) (xs : List A)
      → ((x : A) → P x → P (f x))
      → All P xs
      → All P (update p f xs)
  unfolding update
  All-update P p f [] step h = tt
  All-update P p f (x ∷ xs) step h = elim (Bool-cases (p x)) [
    | inl e ↦ rw e (step x h.0, All-update P p f xs step h.1)
    | inr e ↦ rw e (h.0, All-update P p f xs step h.1)
  ]

  pub All-any : (p : A → Bool) (xs : List A) → any p xs ≡ false → All (λ x. p x ≡ false) xs
  unfolding any
  All-any p [] h = tt
  All-any p (x ∷ xs) h = (ground arith, All-any p xs (ground arith))

  pub All-both {κ μ ν} :
      (P : A → Type κ) (Q : A → Type μ) (R : A → Type ν) (xs : List A)
      → ((x : A) → P x → Q x → R x)
      → All P xs
      → All Q xs
      → All R xs
  All-both P Q R [] f h k = tt
  All-both P Q R (x ∷ xs) f h k = (f x h.0 k.0, All-both P Q R xs f h.1 k.1)

  pub has_above :
      (id : A → ℕ) (n k : ℕ) (xs : List A) → All (λ x. id x ≤ n) xs → n < k → has id k xs ≡ false
  unfolding has any
  has_above id n k [] h lt = refl
  has_above id n k (x ∷ xs) h lt = ground (arith, has_above id n k xs h.1)

  abbrev pub Numbered : (A → ℕ) → List A → ℕ → Type 0
  Numbered id xs seq = Distinct id xs × All (λ x. id x ≤ seq) xs

  pub Numbered-append :
      (id : A → ℕ) (xs : List A) (seq : ℕ) (x : A)
      → id x ≡ seq + 1
      → Numbered id xs seq
      → Numbered id (xs ++ x ∷ []) (id x)
  Numbered-append id xs seq x next (d, bound) = (
    Distinct-append_one id xs x d (has_above id seq (id x) xs bound (omega arith)),
    All-append _ xs (x ∷ []) (All-weaken _ _ xs (λ y h. omega arith) bound) (omega arith, tt),
  )

  pub Numbered-keep :
      (id : A → ℕ) (p : A → Bool) (xs : List A) (seq : ℕ)
      → Numbered id xs seq
      → Numbered id (keep p xs) seq
  Numbered-keep id p xs seq (d, bound) = (Distinct-keep id p xs d, All-keep _ p xs bound)

  pub Numbered-update :
      (id : A → ℕ) (p : A → Bool) (f : A → A) (xs : List A) (seq : ℕ)
      → ((x : A) → id (f x) ≡ id x)
      → Numbered id xs seq
      → Numbered id (update p f xs) seq
  Numbered-update id p f xs seq same (d, bound) =
      (Distinct-update_same id f p xs same d, All-update _ p f xs (λ x h. rw (same x) h) bound)

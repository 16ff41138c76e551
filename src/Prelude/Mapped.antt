-- ===== src/Prelude/Mapped.antt =====
-- Rows seen through a function.
use mathlib.Core.Path.{◌≡◌, refl, ap}
use mathlib.Core.Logic.{inl, inr}
use mathlib.Core.Bool.{Bool}
use mathlib.Core.List.{List, [], ◌∷◌, map}
use lightscale.Prelude.Tests.{Eq, ◌==◌}
use lightscale.Prelude.Rows.{any, All, In, here, there, In-cons}
use lightscale.Prelude.Keys.{has, Distinct}

module _ {ℓ κ} {A : Type ℓ} {B : Type κ} (f : A → B) where
  pub In-map : {x : A} (xs : List A) → In x xs → In (f x) (map f xs)
  In-map [] m = elim m [ ]
  In-map (y ∷ ys) (here p) = here (ap f p)
  In-map (y ∷ ys) (there m) = there (In-map ys m)

  pub row_of_In-map : {y : B} (xs : List A) → In y (map f xs) → (x : A) × In x xs × (y ≡ f x)
  row_of_In-map [] m = elim m [ ]
  row_of_In-map (x ∷ xs) m = elim (In-cons m) [
    | inl p ↦ (x, here refl, p)
    | inr n ↦ let (z, k, q) = row_of_In-map xs n in (z, there k, q)
  ]

  pub any-map : (p : B → Bool) (xs : List A) → any p (map f xs) ≡ any (λ x. p (f x)) xs
  unfolding any
  any-map p [] = refl
  any-map p (x ∷ xs) = rw (any-map p xs) refl

  pub All-map {μ} : (P : B → Type μ) (xs : List A) → All (λ x. P (f x)) xs → All P (map f xs)
  All-map P [] h = tt
  All-map P (x ∷ xs) h = (h.0, All-map P xs h.1)

  pub All-map_back {μ} : (P : B → Type μ) (xs : List A) → All P (map f xs) → All (λ x. P (f x)) xs
  All-map_back P [] h = tt
  All-map_back P (x ∷ xs) h = (h.0, All-map_back P xs h.1)

module _ {ℓ κ μ} {A : Type ℓ} {B : Type κ} {K : Type μ} ⦃e : Eq K⦄ (f : A → B) (key : B → K) where
  pub Distinct-map : (xs : List A) → Distinct (λ x. key (f x)) xs → Distinct key (map f xs)
  unfolding has
  Distinct-map [] d = tt
  Distinct-map (x ∷ xs) d = (rw (any-map f (λ y. key y == key (f x)) xs) d.0, Distinct-map xs d.1)

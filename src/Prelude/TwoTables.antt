-- ===== src/Prelude/TwoTables.antt =====
-- A key that is unique across two tables.
use Prim.Native.Nat.{ℕ}
use mathlib.Core.Path.{◌≡◌, sym, ◌∙◌}
use mathlib.Core.Logic.{◌⊎◌, inl, inr}
use mathlib.Core.Bool.{Bool, true, false}
use mathlib.Core.List.{List, [], ◌∷◌, ◌++◌}
use native.Mathlib.Omega.{arith}
use lightscale.Prelude.Tests.{Bool-cases, Eq, ◌==◌, nat_eq}
use lightscale.Prelude.Rows.{any, keep, update}
use lightscale.Prelude.Keys.{
  has, Distinct, has-append, has-keep, Distinct-append_one, Distinct-keep,
}
use lightscale.Prelude.Updates.{
  has-update_same, Distinct-update_same, has-update, Distinct-update, Unclaimed,
}

abbrev pub Apart {ℓ κ μ} :
    {A : Type ℓ} {B : Type κ} {K : Type μ}
    → ⦃e : Eq K⦄ → (A → K)
    → (B → K)
    → List A
    → List B
    → Type μ
Apart {K} ka kb xs ys = (k : K) → has ka k xs ≡ true → has kb k ys ≡ false

abbrev pub Exclusive {ℓ κ μ} :
    {A : Type ℓ} {B : Type κ} {K : Type μ}
    → ⦃e : Eq K⦄ → (A → K)
    → (B → K)
    → List A
    → List B
    → Type μ
Exclusive ka kb xs ys = Distinct ka xs × Distinct kb ys × Apart ka kb xs ys

module _ {ℓ κ μ} {A : Type ℓ} {B : Type κ} {K : Type μ} ⦃e : Eq K⦄ (ka : A → K) (kb : B → K) where
  pub Exclusive-swap : (xs : List A) (ys : List B) → Exclusive ka kb xs ys → Exclusive kb ka ys xs
  Exclusive-swap xs ys (da, db, apart) =
      (db, da, λ k m. elim (Bool-cases (has ka k xs)) [ inl h ↦ cc (apart k h) | inr h ↦ h ])

  pub Exclusive-insert :
      (xs : List A) (ys : List B) (x : A)
      → has ka (ka x) xs ≡ false
      → has kb (ka x) ys ≡ false
      → Exclusive ka kb xs ys
      → Exclusive ka kb (xs ++ x ∷ []) ys
  Exclusive-insert xs ys x free free' (da, db, apart) = (
    Distinct-append_one ka xs x da free,
    db,
    λ k m. elim (Bool-cases (has ka k xs)) [
      | inl old ↦ apart k old
      | inr new ↦
          let p : ka x ≡ k =
            (unfold has any in ground (arith, has-append ka k xs (x ∷ []), e.beq_iff (ka x) k)) in
          rw (sym p) free'
    ],
  )

  pub Exclusive-keep :
      (p : A → Bool) (xs : List A) (ys : List B)
      → Exclusive ka kb xs ys
      → Exclusive ka kb (keep p xs) ys
  Exclusive-keep p xs ys (da, db, apart) =
      (Distinct-keep ka p xs da, db, λ k m. apart k (has-keep ka k p xs m))

  pub Exclusive-update_same :
      (f : A → A) (p : A → Bool) (xs : List A) (ys : List B)
      → ((x : A) → ka (f x) ≡ ka x)
      → Exclusive ka kb xs ys
      → Exclusive ka kb (update p f xs) ys
  Exclusive-update_same f p xs ys same (da, db, apart) = (
    Distinct-update_same ka f p xs same da,
    db,
    λ k m. apart k (sym (has-update_same ka f p k xs same) ∙ m),
  )

  -- The new key is an old one of the same table, or new in the other.
  pub Exclusive-update :
      (id : A → ℕ) (f : A → A) (i : ℕ) (k : K) (sets : (x : A) → ka (f x) ≡ k) (xs : List A)
      (ys : List B)
      → Distinct id xs
      → Unclaimed id ka f i k sets xs
      → (has ka k xs ≡ true) ⊎ (has kb k ys ≡ false)
      → Exclusive ka kb xs ys
      → Exclusive ka kb (update (λ x. id x == i) f xs) ys
  Exclusive-update id f i k sets xs ys ids unclaimed held (da, db, apart) = (
    Distinct-update id ka f i k sets xs ids da unclaimed,
    db,
    λ j m. elim (has-update id ka f i k sets j xs m) [
      | inl old ↦ apart j old
      | inr new ↦ elim held [ inl h ↦ apart j (rw (sym new) h) | inr h ↦ rw (sym new) h ]
    ],
  )

-- ===== src/Prelude/Keys.antt =====
-- Rows with a key: whether a key is there, and that no two rows share one (SQL's UNIQUE).
use Prim.Native.Nat.{ℕ}
use mathlib.Core.Path.{◌≡◌, refl, sym, ◌∙◌, ap}
use mathlib.Core.Logic.{inl, inr}
use mathlib.Core.Bool.{Bool, true, false, ◌||◌, not}
use mathlib.Core.List.{List, [], ◌∷◌, ◌++◌}
use native.Mathlib.Omega.{arith}
use lightscale.Prelude.Tests.{Bool-cases, Eq, ◌==◌, nat_eq}
use lightscale.Prelude.Rows.{any, keep, In, here, there, any-append, any-keep}

module _ {ℓ κ} {A : Type ℓ} {K : Type κ} ⦃e : Eq K⦄ where
  -- does some row have the key
  unfoldable pub has : (A → K) → K → List A → Bool
  unfolding any
  has key k xs = any (λ x. key x == k) xs

  abbrev pub Distinct : (A → K) → List A → Type 0
  Distinct key [] = Unit
  Distinct key (x ∷ xs) = (has key (key x) xs ≡ false) × Distinct key xs

  pub has-append :
      (key : A → K) (k : K) (xs ys : List A) → has key k (xs ++ ys) ≡ (has key k xs || has key k ys)
  unfolding has
  has-append key k xs ys = any-append (λ x. key x == k) xs ys

  pub has-keep :
      (key : A → K) (k : K) (p : A → Bool) (xs : List A)
      → has key k (keep p xs) ≡ true
      → has key k xs ≡ true
  unfolding has
  has-keep key k p xs h = any-keep (λ x. key x == k) p xs h

  pub has_of_In : (key : A → K) {x : A} (xs : List A) → In x xs → has key (key x) xs ≡ true
  unfolding has
  has_of_In key [] m = elim m [ ]
  has_of_In key {x} (y ∷ ys) (here p) = ground (arith, e.beq_iff (key y) (key x), ap key p)
  has_of_In key {x} (y ∷ ys) (there m) = ground (arith, has_of_In key {x = x} ys m)

  pub has_key_of :
      (key : A → K) (k : K) {x : A} (xs : List A) → In x xs × (key x ≡ k) → has key k xs ≡ true
  has_key_of key k xs (m, p) = rw (sym p) (has_of_In key xs m)

  -- Of rows with distinct keys, one key determines the row.
  pub In-unique :
      (key : A → K) {x y : A} (xs : List A)
      → Distinct key xs
      → In x xs
      → In y xs
      → key x ≡ key y
      → x ≡ y
  In-unique key [] d m n p = elim m [ ]
  In-unique key (z ∷ zs) d (here a) (here b) p = a ∙ sym b
  In-unique key {x} {y} (z ∷ zs) d (here a) (there n) p = cc (has_of_In key zs n, ap key a, p, d.0)
  In-unique key {x} {y} (z ∷ zs) d (there m) (here b) p = cc (has_of_In key zs m, ap key b, p, d.0)
  In-unique key (z ∷ zs) d (there m) (there n) p = In-unique key zs d.1 m n p

  -- a row with a new key
  pub Distinct-append_one :
      (key : A → K) (xs : List A) (x : A)
      → Distinct key xs
      → has key (key x) xs ≡ false
      → Distinct key (xs ++ x ∷ [])
  unfolding has any
  Distinct-append_one key [] x d h = (refl, tt)
  Distinct-append_one key (y ∷ ys) x d h = (
    ground (
      arith,
      any-append (λ z. key z == key y) ys (x ∷ []),
      e.beq_iff (key x) (key y),
      e.beq_iff (key y) (key x),
    ),
    Distinct-append_one key ys x d.1 (ground arith),
  )

  pub has-keep-false :
      (key : A → K) (k : K) (p : A → Bool) (xs : List A)
      → has key k xs ≡ false
      → has key k (keep p xs) ≡ false
  has-keep-false key k p xs h = elim (Bool-cases (has key k (keep p xs))) [
    | inl found ↦ cc (has-keep key k p xs found)
    | inr gone ↦ gone
  ]

  pub Distinct-keep :
      (key : A → K) (p : A → Bool) (xs : List A) → Distinct key xs → Distinct key (keep p xs)
  unfolding keep
  Distinct-keep key p [] d = d
  Distinct-keep key p (x ∷ xs) d = elim (Bool-cases (p x)) [
    | inl kept ↦ rw kept (has-keep-false key (key x) p xs d.0, Distinct-keep key p xs d.1)
    | inr dropped ↦ rw dropped (Distinct-keep key p xs d.1)
  ]

module _ {ℓ} {A : Type ℓ} (id : A → ℕ) (i : ℕ) where
  -- DELETE of the rows with one id leaves those with another.
  pub has-keep_other :
      (xs : List A) (j : ℕ)
      → (j == i) ≡ false
      → has id j xs ≡ true
      → has id j (keep (λ x. not (id x == i)) xs) ≡ true
  unfolding has any keep
  has-keep_other [] j other h = h
  has-keep_other (x ∷ xs) j other h = ground (
    arith,
    has-keep_other xs j other,
    nat_eq.beq_iff (id x) j,
    nat_eq.beq_iff (id x) i,
    nat_eq.beq_iff j i,
  )

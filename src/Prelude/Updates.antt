-- ===== src/Prelude/Updates.antt =====
-- UPDATE of the rows with one id: which keys there are afterwards, and that they stay distinct.
use Prim.Native.Nat.{ℕ}
use mathlib.Core.Path.{◌≡◌, refl, sym}
use mathlib.Core.Logic.{◌⊎◌, inl, inr}
use mathlib.Core.Bool.{Bool, true, false, ◌&&◌, not}
use mathlib.Core.List.{List, [], ◌∷◌}
use native.Mathlib.Omega.{arith}
use lightscale.Prelude.Tests.{Bool-cases, Eq, ◌==◌, nat_eq}
use lightscale.Prelude.Rows.{any, update}
use lightscale.Prelude.Keys.{has, Distinct}

module _ {ℓ κ} {A : Type ℓ} {K : Type κ} ⦃e : Eq K⦄ (key : A → K) (f : A → A) where
  -- an UPDATE that leaves the key alone
  pub has-update_same :
      (p : A → Bool) (k : K) (xs : List A)
      → ((x : A) → key (f x) ≡ key x)
      → has key k (update p f xs) ≡ has key k xs
  unfolding has any update
  has-update_same p k [] same = refl
  has-update_same p k (x ∷ xs) same =
      let tail = has-update_same p k xs same in
      elim (Bool-cases (p x)) [ inl e ↦ rw (e, same x, tail) refl | inr e ↦ rw (e, tail) refl ]

  pub Distinct-update_same :
      (p : A → Bool) (xs : List A)
      → ((x : A) → key (f x) ≡ key x)
      → Distinct key xs
      → Distinct key (update p f xs)
  unfolding update
  Distinct-update_same p [] same d = tt
  Distinct-update_same p (x ∷ xs) same d =
      let tail = Distinct-update_same p xs same d.1 in
      elim (Bool-cases (p x)) [
        | inl e ↦ rw (e, same x, has-update_same p (key x) xs same) (d.0, tail)
        | inr e ↦ rw (e, has-update_same p (key x) xs same) (d.0, tail)
      ]

module _ {ℓ κ} {A : Type ℓ} {K : Type κ} ⦃e : Eq K⦄ (id : A → ℕ) (key : A → K) (f : A → A) (i : ℕ)
    (k : K) (sets : (x : A) → key (f x) ≡ k) where
  -- an UPDATE that sets the key to `k`
  pub has-update :
      (j : K) (xs : List A)
      → has key j (update (λ x. id x == i) f xs) ≡ true
      → (has key j xs ≡ true) ⊎ (k ≡ j)
  unfolding has any update
  has-update j [] h = cc
  has-update j (x ∷ xs) h = elim (Bool-cases (has key j (update (λ x. id x == i) f xs))) [
    | inl later ↦ elim (has-update j xs later) [ inl m ↦ inl (ground arith) | inr m ↦ inr m ]
    | inr none_later ↦ elim (Bool-cases (id x == i)) [
      | inl hit ↦ inr (ground (arith, sets x, e.beq_iff (key (f x)) j))
      | inr miss ↦ inl (ground arith)
    ]
  ]

  update_absent : (xs : List A) → has id i xs ≡ false → update (λ x. id x == i) f xs ≡ xs
  unfolding has any update
  update_absent [] h = refl
  update_absent (x ∷ xs) h = ground (arith, update_absent xs)

  -- no other row has the key
  abbrev pub Unclaimed : List A → Type 0
  Unclaimed xs = any (λ x. (key x == k) && not (id x == i)) xs ≡ false

  Unclaimed-has : (xs : List A) → has id i xs ≡ false → Unclaimed xs → has key k xs ≡ false
  unfolding has any
  Unclaimed-has [] h u = refl
  Unclaimed-has (x ∷ xs) h u = ground (arith, Unclaimed-has xs)

  pub Distinct-update :
      (xs : List A)
      → Distinct id xs
      → Distinct key xs
      → Unclaimed xs
      → Distinct key (update (λ x. id x == i) f xs)
  unfolding update any
  Distinct-update [] ids d u = tt
  Distinct-update (x ∷ xs) ids d u = elim (Bool-cases (id x == i)) [
    | inl hit ↦
        let p : id x ≡ i = (nat_eq.beq_iff (id x) i).0 hit in
        let gone : has id i xs ≡ false = rw (sym p) ids.0 in
        rw (hit, update_absent xs gone, sets x) (Unclaimed-has xs gone (ground arith), d.1)
    | inr miss ↦
        let rest : Unclaimed xs = ground arith in
        let other : (key x == k) ≡ false = ground arith in
        rw miss (
          (elim (Bool-cases (has key (key x) (update (λ x. id x == i) f xs))) [
            | inl found ↦ elim (has-update (key x) xs found) [
              | inl m ↦ cc (d.0, m)
              | inr m ↦ ground (arith, e.beq_iff (key x) k)
            ]
            | inr gone ↦ gone
          ]),
          Distinct-update xs ids.1 d.1 rest,
        )
  ]

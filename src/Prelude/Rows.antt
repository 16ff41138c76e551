-- ===== src/Prelude/Rows.antt =====
-- Lists of rows: the first row that passes a test, the rows that pass it, and what holds of all.
use Prim.Native.Nat.{ℕ, suc}
use mathlib.Core.Path.{◌≡◌, refl}
use mathlib.Core.Logic.{◌⊎◌, inl, inr}
use mathlib.Core.Bool.{Bool, true, false, ◌||◌, not}
use mathlib.Core.Option.{Option, none, some}
use mathlib.Core.List.{List, [], ◌∷◌, ◌++◌}
use native.Mathlib.Omega.{arith}
use lightscale.Prelude.Tests.{if◌then◌else◌, Bool-cases}

-- membership, with the place kept
pub data In {ℓ} {A : Type ℓ} (x : A) : List A → Type ℓ where
  here : {y : A} {ys : List A} → x ≡ y → In x (y ∷ ys)
  there : {y : A} {ys : List A} → In x ys → In x (y ∷ ys)

module _ {ℓ} {A : Type ℓ} where
  abbrev pub length : List A → ℕ
  length [] = 0
  length (x ∷ xs) = suc (length xs)

  -- the first row that passes the test
  unfoldable pub find_first : (A → Bool) → List A → Option A
  find_first p [] = none
  find_first p (x ∷ xs) = if p x then some x else find_first p xs

  -- does some row pass the test
  unfoldable pub any : (A → Bool) → List A → Bool
  any p [] = false
  any p (x ∷ xs) = p x || any p xs

  -- the rows that pass the test, in order
  unfoldable pub keep : (A → Bool) → List A → List A
  keep p [] = []
  keep p (x ∷ xs) = let rest = keep p xs in if p x then x ∷ rest else rest

  -- the rows with `f` applied to those that pass the test
  unfoldable pub update : (A → Bool) → (A → A) → List A → List A
  update p f [] = []
  update p f (x ∷ xs) = (if p x then f x else x) ∷ update p f xs

  abbrev pub All {κ} : (A → Type κ) → List A → Type κ
  All P [] = Unit
  All P (x ∷ xs) = P x × All P xs

  pub In-cons : {x y : A} {ys : List A} → In x (y ∷ ys) → (x ≡ y) ⊎ In x ys
  In-cons (here e) = inl e
  In-cons (there m) = inr m

  pub All-append {κ} : (P : A → Type κ) (xs ys : List A) → All P xs → All P ys → All P (xs ++ ys)
  All-append P [] ys h k = k
  All-append P (x ∷ xs) ys h k = (h.0, All-append P xs ys h.1 k)

  pub All-keep {κ} : (P : A → Type κ) (p : A → Bool) (xs : List A) → All P xs → All P (keep p xs)
  unfolding keep
  All-keep P p [] h = h
  All-keep P p (x ∷ xs) h = elim (Bool-cases (p x)) [
    | inl e ↦ rw e (h.0, All-keep P p xs h.1)
    | inr e ↦ rw e (All-keep P p xs h.1)
  ]

  pub All-weaken {κ μ} :
      (P : A → Type κ) (Q : A → Type μ) (xs : List A) → ((x : A) → P x → Q x) → All P xs → All Q xs
  All-weaken P Q [] f h = tt
  All-weaken P Q (x ∷ xs) f h = (f x h.0, All-weaken P Q xs f h.1)

  pub All_at {κ} : (P : A → Type κ) {x : A} (xs : List A) → All P xs → In x xs → P x
  All_at P [] h m = elim m [ ]
  All_at P (y ∷ ys) h (here e) = rw e h.0
  All_at P (y ∷ ys) h (there m) = All_at P ys h.1 m

  pub find_first_passes :
      (p : A → Bool) (xs : List A) {x : A} → find_first p xs ≡ some x → p x ≡ true
  unfolding find_first
  find_first_passes p [] h = ground arith
  find_first_passes p (y ∷ ys) {x} h = elim (Bool-cases (p y)) [
    | inl e ↦ ground arith
    | inr e ↦ find_first_passes p ys (ground arith)
  ]

  pub any-eq-false_of_none :
      (p : A → Bool) (xs : List A) → find_first p xs ≡ none → any p xs ≡ false
  unfolding find_first any
  any-eq-false_of_none p [] h = refl
  any-eq-false_of_none p (y ∷ ys) h = ground (arith, any-eq-false_of_none p ys)

  pub any_of_some :
      (p : A → Bool) (xs : List A) {x : A} → find_first p xs ≡ some x → any p xs ≡ true
  unfolding find_first any
  any_of_some p [] h = ground arith
  any_of_some p (y ∷ ys) {x} h = ground (arith, any_of_some p ys {x = x})

  pub any-append : (p : A → Bool) (xs ys : List A) → any p (xs ++ ys) ≡ (any p xs || any p ys)
  unfolding any
  any-append p [] ys = refl
  any-append p (x ∷ xs) ys = ground (arith, any-append p xs ys)

  pub any-keep : (p q : A → Bool) (xs : List A) → any p (keep q xs) ≡ true → any p xs ≡ true
  unfolding any keep
  any-keep p q [] h = h
  any-keep p q (x ∷ xs) h = ground (arith, any-keep p q xs)

  pub In_of_any : (p : A → Bool) (xs : List A) → any p xs ≡ true → (x : A) × In x xs × (p x ≡ true)
  unfolding any
  In_of_any p [] h = cc
  In_of_any p (x ∷ xs) h = elim (Bool-cases (p x)) [
    | inl e ↦ (x, here refl, e)
    | inr e ↦ let (y, m, q) = In_of_any p xs (ground arith) in (y, there m, q)
  ]

  pub any_of_In : (p : A → Bool) {x : A} (xs : List A) → In x xs → p x ≡ true → any p xs ≡ true
  unfolding any
  any_of_In p [] m h = elim m [ ]
  any_of_In p {x} (y ∷ ys) (here e) h = let q : p y ≡ true = rw (← e) h in rw q
  any_of_In p (y ∷ ys) (there m) h = ground (arith, any_of_In p ys m h)

  pub keep_whole : (p : A → Bool) (xs : List A) → All (λ x. p x ≡ true) xs → keep p xs ≡ xs
  unfolding keep
  keep_whole p [] h = refl
  keep_whole p (x ∷ xs) h = rw (h.0, keep_whole p xs h.1)

  pub keep_none_pass : (p : A → Bool) (xs : List A) → All (λ x. p x ≡ false) xs → keep p xs ≡ []
  unfolding keep
  keep_none_pass p [] h = refl
  keep_none_pass p (x ∷ xs) h = rw h.0 (keep_none_pass p xs h.1)

  pub keep_passes : (p : A → Bool) (xs : List A) → All (λ x. p x ≡ true) (keep p xs)
  unfolding keep
  keep_passes p [] = tt
  keep_passes p (x ∷ xs) = elim (Bool-cases (p x)) [
    | inl e ↦ rw e (e, keep_passes p xs)
    | inr e ↦ rw e (keep_passes p xs)
  ]

  pub In-keep_of : (p : A → Bool) {x : A} (xs : List A) → In x xs → p x ≡ true → In x (keep p xs)
  unfolding keep
  In-keep_of p [] m h = elim m [ ]
  In-keep_of p (y ∷ ys) (here e) h = let q : p y ≡ true = rw (← e) h in rw q (here e)
  In-keep_of p (y ∷ ys) (there m) h = elim (Bool-cases (p y)) [
    | inl q ↦ rw q (there (In-keep_of p ys m h))
    | inr q ↦ rw q (In-keep_of p ys m h)
  ]

  pub In_of_In-keep : (p : A → Bool) {x : A} (xs : List A) → In x (keep p xs) → In x xs
  unfolding keep
  In_of_In-keep p [] m = m
  In_of_In-keep p {x} (y ∷ ys) m = elim (Bool-cases (p y)) [
    | inl e ↦ elim (In-cons (rw e at m)) [ inl q ↦ here q | inr n ↦ there (In_of_In-keep p ys n) ]
    | inr e ↦ there (In_of_In-keep p ys (rw e at m))
  ]

  pub any-keep-not : (p : A → Bool) (xs : List A) → any p (keep (λ x. not (p x)) xs) ≡ false
  unfolding any keep
  any-keep-not p [] = refl
  any-keep-not p (x ∷ xs) = ground (arith, any-keep-not p xs)

  pub In_of_find_first : (p : A → Bool) {x : A} (xs : List A) → find_first p xs ≡ some x → In x xs
  unfolding find_first
  In_of_find_first p [] h = cc
  In_of_find_first p {x} (y ∷ ys) h = elim (Bool-cases (p y)) [
    | inl e ↦ let q : x ≡ y = ground arith in here q
    | inr e ↦ there (In_of_find_first p ys (ground arith))
  ]

-- ===== src/Prelude/Maps.antt =====
-- Go maps as association lists; a key is bound at most once. The order of the list stands for the
-- order in which a `range` loop happens to visit the map.
use mathlib.Core.Path.{◌≡◌, refl, sym, ap}
use mathlib.Core.Logic.{inl, inr}
use mathlib.Core.Bool.{Bool, true, false, not}
use mathlib.Core.Option.{Option, none, some}
use mathlib.Core.List.{List, [], ◌∷◌}
use native.Mathlib.Omega.{arith}
use lightscale.Prelude.Tests.{if◌then◌else◌, Eq, ◌==◌, ==_of_eq, eq_of_==, Bool-cases}
use lightscale.Prelude.Rows.{keep, All, All-keep, any, In, here, there}
use lightscale.Prelude.Keys.{has, Distinct, Distinct-keep, has_of_In}

abbrev pub Map {ℓ κ} : Type ℓ → Type κ → Type (ℓ ⊔ κ)
Map K V = List (K × V)

module _ {ℓ κ} {K : Type ℓ} {V : Type κ} ⦃e : Eq K⦄ where
  unfoldable pub get : K → Map K V → Option V
  get k [] = none
  get k ((j, v) ∷ m) = if j == k then some v else get k m

  unfoldable pub delete : K → Map K V → Map K V
  delete k [] = []
  delete k ((j, v) ∷ m) = let rest = delete k m in if j == k then rest else (j, v) ∷ rest

  unfoldable pub put : K → V → Map K V → Map K V
  unfolding delete
  put k v m = (k, v) ∷ delete k m

  pub get-delete : (k j : K) (m : Map K V) → get j (delete k m) ≡ (if k == j then none else get j m)
  unfolding get delete
  get-delete k j [] = ground arith
  get-delete k j ((i, v) ∷ m) =
      ground (arith, get-delete k j m, e.beq_iff i k, e.beq_iff i j, e.beq_iff k j)

  pub get-put :
      (k j : K) (v : V) (m : Map K V) → get j (put k v m) ≡ (if k == j then some v else get j m)
  unfolding get put
  get-put k j v m = ground (arith, get-delete k j m)

  pub delete-keep : (k : K) (m : Map K V) → delete k m ≡ keep (λ x. not (x.0 == k)) m
  unfolding delete keep
  delete-keep k [] = refl
  delete-keep k ((j, v) ∷ m) = ground (arith, delete-keep k m)

  pub Distinct-delete :
      (k : K) (m : Map K V) → Distinct (λ x. x.0) m → Distinct (λ x. x.0) (delete k m)
  Distinct-delete k m d = rw (delete-keep k m) (Distinct-keep _ _ m d)

  pub All-delete {μ} : (P : K × V → Type μ) (k : K) (m : Map K V) → All P m → All P (delete k m)
  All-delete P k m h = rw (delete-keep k m) (All-keep P _ m h)

  pub has-delete_self : (k : K) (m : Map K V) → has (λ x. x.0) k (delete k m) ≡ false
  unfolding has delete any
  has-delete_self k [] = refl
  has-delete_self k ((j, v) ∷ m) = ground (arith, has-delete_self k m)

  pub delete_absent : (k : K) (m : Map K V) → has (λ x. x.0) k m ≡ false → delete k m ≡ m
  unfolding has delete any
  delete_absent k [] h = refl
  delete_absent k ((j, v) ∷ m) h = ground (arith, delete_absent k m)

  pub get_absent : (k : K) (m : Map K V) → has (λ x. x.0) k m ≡ false → get k m ≡ none
  unfolding has get any
  get_absent k [] h = refl
  get_absent k ((j, v) ∷ m) h = ground (arith, get_absent k m)

  pub Distinct-put :
      (k : K) (v : V) (m : Map K V) → Distinct (λ x. x.0) m → Distinct (λ x. x.0) (put k v m)
  unfolding put
  Distinct-put k v m d = (has-delete_self k m, Distinct-delete k m d)

  pub get-keep-none :
      (k : K) (p : K × V → Bool) (m : Map K V) → get k m ≡ none → get k (keep p m) ≡ none
  unfolding get keep
  get-keep-none k p [] h = h
  get-keep-none k p (x ∷ m) h = ground (arith, get-keep-none k p m)

  pub In_of_get : (k : K) {v : V} (m : Map K V) → get k m ≡ some v → In (k, v) m
  unfolding get
  In_of_get k [] h = cc
  In_of_get k {v} ((j, w) ∷ m) h = elim (Bool-cases (j == k)) [
    | inl e ↦
        let p : k ≡ j = sym (eq_of_== j k e) in
        let q : v ≡ w = ground arith in here (λ i. (p i, q i))
    | inr e ↦ there (In_of_get k m (ground arith))
  ]

  pub get_of_In :
      (k : K) {v : V} (m : Map K V) → Distinct (λ x. x.0) m → In (k, v) m → get k m ≡ some v
  unfolding get
  get_of_In k [] d n = elim n [ ]
  get_of_In k {v} ((j, w) ∷ m) d (here e) =
      let p : k ≡ j = ap (λ (x : K × V). x.0) e in
      let q : v ≡ w = ap (λ (x : K × V). x.1) e in rw (==_of_eq j k (sym p)) (ap some (sym q))
  get_of_In k {v} ((j, w) ∷ m) d (there n) = elim (Bool-cases (j == k)) [
    | inl e ↦
        let p : k ≡ j = sym (eq_of_== j k e) in
        let there_too : has (λ x. x.0) j m ≡ true = rw p at (has_of_In (λ x. x.0) m n) in
        cc (d.0, there_too)
    | inr e ↦ rw e (get_of_In k m d.1 n)
  ]

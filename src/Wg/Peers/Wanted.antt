-- ===== src/Wg/Peers/Wanted.antt =====
-- The keys of `want` in `ApplyPeers` of daemon/wg/server.go.
use lightscale.Prelude.{
  ℕ, ◌≡◌, ◌≢◌, ◌↔◌, refl, sym, ap, ◌∙◌, String, Bool, true, false, ◌||◌, Option, some, List, [],
  ◌∷◌, arith, ◌⊎◌, if◌then◌else◌, Bool-cases, Option-cases, inl, inr, Map, put, delete, has, any,
  In, here, there, ==_of_eq, eq_of_==, ◌==◌, nat_eq, string_eq,
}
use lightscale.Policy.{Index, UserSnapshot}
use lightscale.Wg.Peers.{base64_to_hex, with_user, wanted_from, wanted}

-- is the key among those of the map
abbrev pub wants : String → Map String UserSnapshot → Bool
wants k want = has (λ x. x.0) k want

module _ (decode : String → Option (List ℕ)) (encode : List ℕ → String) where
  -- a user with a key that decodes to this one
  abbrev pub Owner : String → List (ℕ × UserSnapshot) → Type 0
  Owner k users =
      (x : ℕ × UserSnapshot) × In x users
      × (x.1.public_key ≢ "")
      × (base64_to_hex decode encode x.1.public_key ≡ some k)

  wants-delete :
      (j k : String) (want : Map String UserSnapshot)
      → ((j == k) || wants k (delete j want)) ≡ ((j == k) || wants k want)
  unfolding delete has any
  wants-delete j k [] = refl
  wants-delete j k ((i, u) ∷ want) = elim (Bool-cases (j == k)) [
    | inl e ↦ rw e refl
    | inr e ↦
        let other : (i == j) ≡ true → (i == k) ≡ false = λ q. rw (eq_of_== i j q) e in
        ground (arith, wants-delete j k want, other, e)
  ]

  wants-put :
      (j k : String) (u : UserSnapshot) (want : Map String UserSnapshot)
      → wants k (put j u want) ≡ ((j == k) || wants k want)
  unfolding put has any
  wants-put j k u want = wants-delete j k want

  -- the map after one user
  abbrev pub one : UserSnapshot → Map String UserSnapshot → Map String UserSnapshot
  one u want =
      if u.public_key == ""
      then want
      else with_user decode encode u (base64_to_hex decode encode u.public_key) want

  kept :
      (k : String) (u : UserSnapshot) (want : Map String UserSnapshot)
      → wants k want ≡ true
      → wants k (one u want) ≡ true
  kept k u want h = elim (Bool-cases (u.public_key == "")) [
    | inl e ↦ rw e h
    | inr e ↦ elim (Option-cases (base64_to_hex decode encode u.public_key)) [
      | inl n ↦ rw (e, n) h
      | inr (j, n) ↦ rw (e, n, wants-put j k u want) (ground (arith, h))
    ]
  ]

  gained :
      (k : String) (u : UserSnapshot) (want : Map String UserSnapshot)
      → wants k (one u want) ≡ true
      → (wants k want ≡ true)
        ⊎ ((u.public_key ≢ "") × (base64_to_hex decode encode u.public_key ≡ some k))
  gained k u want h = elim (Bool-cases (u.public_key == "")) [
    | inl e ↦ inl (rw e at h)
    | inr e ↦ elim (Option-cases (base64_to_hex decode encode u.public_key)) [
      | inl n ↦ inl (rw (e, n) at h)
      | inr (j, n) ↦
          let put : ((j == k) || wants k want) ≡ true =
            sym (wants-put j k u want) ∙ (rw (e, n) at h) in
          elim (Bool-cases (j == k)) [
            | inl q ↦ inr (λ z. cc (e, ==_of_eq u.public_key "" z), n ∙ ap some (eq_of_== j k q))
            | inr q ↦ inl (rw q at put)
          ]
    ]
  ]

  gains :
      (k : String) (u : UserSnapshot) (want : Map String UserSnapshot)
      → u.public_key ≢ ""
      → base64_to_hex decode encode u.public_key ≡ some k
      → wants k (one u want) ≡ true
  gains k u want e n = elim (Bool-cases (u.public_key == "")) [
    | inl q ↦ elim (e (eq_of_== u.public_key "" q)) [ ]
    | inr q ↦ rw (q, n, wants-put k k u want, ==_of_eq k k refl) refl
  ]

  wants-from :
      (k : String) (users : Map ℕ UserSnapshot) (want : Map String UserSnapshot)
      → wants k (wanted_from decode encode users want) ≡ true
      → (wants k want ≡ true) ⊎ Owner k users
  unfolding wanted_from
  wants-from k [] want h = inl h
  wants-from k ((i, u) ∷ users) want h = elim (wants-from k users (one u want) h) [
    | inl w ↦ elim (gained k u want w) [
      | inl old ↦ inl old
      | inr (keyed, good) ↦ inr ((i, u), here refl, keyed, good)
    ]
    | inr (x, m, keyed, good) ↦ inr (x, there m, keyed, good)
  ]

  wants_first :
      (k : String) (users : Map ℕ UserSnapshot) (want : Map String UserSnapshot)
      → wants k want ≡ true
      → wants k (wanted_from decode encode users want) ≡ true
  unfolding wanted_from
  wants_first k [] want h = h
  wants_first k ((i, u) ∷ users) want h = wants_first k users _ (kept k u want h)

  wants_owned :
      (k : String) (users : Map ℕ UserSnapshot) (want : Map String UserSnapshot)
      → Owner k users
      → wants k (wanted_from decode encode users want) ≡ true
  unfolding wanted_from
  wants_owned k [] want (x, m, keyed, good) = elim m [ ]
  wants_owned k ((i, u) ∷ users) want (x, here e, keyed, good) =
      let same : x.1 ≡ u = ap (λ (y : ℕ × UserSnapshot). y.1) e in
      wants_first k users (one u want) (gains k u want (rw same at keyed) (rw same at good))
  wants_owned k ((i, u) ∷ users) want (x, there m, keyed, good) =
      wants_owned k users _ (x, m, keyed, good)

  pub wanted-Owner :
      (k : String) (idx : Index)
      → (wants k (wanted decode encode idx) ≡ true) ↔ Owner k idx.user_by_id
  unfolding wanted has any
  wanted-Owner k idx = (
    λ h. elim (wants-from k idx.user_by_id [] h) [ inl w ↦ cc w | inr o ↦ o ],
    wants_owned k idx.user_by_id [],
  )

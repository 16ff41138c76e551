-- ===== src/Api/Names/Displayed.antt =====
-- A name that `resolveSubject` or `resolveObject` (daemon/api/policies.go) finds is the name that
-- `nameFor` shows for what was found.
use lightscale.Prelude.{
  ℕ, ◌≡◌, refl, ap, ◌∙◌, inl, inr, String, true, false, ◌&&◌, not, none, some, List, [], ◌∷◌, In,
  here, there, In_of_find_first, find_first, find_first_passes, Distinct, has, has_of_In,
  Option-cases, ◌==◌, nat_eq, string_eq, Bool-cases, eq_of_==, ==_of_eq,
}
use lightscale.Prelude.Result.{Result, ok, err}
use lightscale.Store.{User, UserGroup, ServiceRow, ServiceGroup, Store, Error, not_found}
use lightscale.Store.Users.{get_user, get_user_by_name, user_by_id}
use lightscale.Store.Groups.{get_user_group, get_user_group_by_name, user_group_by_id}
use lightscale.Store.ServiceGroups.{
  get_service_group, get_service_group_by_name, service_group_by_id,
}
use lightscale.Store.Services.{Service, get_service, get_service_by_name, service_by_id, with_ports}
use lightscale.Store.Invariants.RowIds.{Ids}
use lightscale.Api.Names.{
  or_else, find_principal, find_object, resolve_subject, resolve_object, name_of, name_for,
}

-- A row is the first one with its id, where ids are distinct.
find_first_by_id :
    {A : Type 0} (id : A → ℕ) (x : A) (xs : List A)
    → Distinct id xs
    → In x xs
    → find_first (λ y. id y == id x) xs ≡ some x
unfolding find_first has
find_first_by_id id x [] d m = elim m [ ]
find_first_by_id id x (y ∷ ys) d (here e) =
    let h : (id y == id x) ≡ true = rw e (==_of_eq (id y) (id y) refl) in rw (h, e) refl
find_first_by_id id x (y ∷ ys) d (there m) = elim (Bool-cases (id y == id x)) [
  | inl e ↦
      let p : id y ≡ id x = eq_of_== (id y) (id x) e in
      let q : has id (id x) ys ≡ true = has_of_In id ys m in absurd (cc (d.0, q, p))
  | inr e ↦ rw e (find_first_by_id id x ys d.1 m)
]

-- What a row found by its name is called, when it is looked up by its id.
looked_up :
    {A : Type 0} (id : A → ℕ) (name : A → String) (n : String) (x : A) (xs : List A)
    → Distinct id xs
    → find_first (λ y. name y == n) xs ≡ some x
    → (find_first (λ y. id y == id x) xs ≡ some x) × (name x ≡ n)
looked_up id name n x xs d h = (
  find_first_by_id id x xs d (In_of_find_first (λ y. name y == n) xs h),
  eq_of_== (name x) n (find_first_passes (λ y. name y == n) xs h),
)

module _ (st : Store) (name : String) (ids : Ids st.db) where
  shown_user :
      (u : User)
      → find_first (λ v. v.name == name) st.db.users ≡ some u
      → name_for st "user" u.id ≡ some name
  unfolding name_for get_user user_by_id
  shown_user u e =
      let (found, same) = looked_up (λ v. v.id) (λ v. v.name) name u st.db.users ids.0.0 e in
      let got : get_user st u.id ≡ ok u = rw (found, user_by_id) refl in
      ap (λ (r : Result Error User). some (name_of (λ (v : User). v.name) r)) got ∙ ap some same

  shown_group :
      (g : UserGroup)
      → find_first (λ v. v.name == name) st.db.user_groups ≡ some g
      → name_for st "user_group" g.id ≡ some name
  unfolding name_for get_user_group user_group_by_id
  shown_group g e =
      let (found, same) = looked_up (λ v. v.id) (λ v. v.name) name g st.db.user_groups ids.1.0 e in
      let got : get_user_group st g.id ≡ ok g = rw (found, user_group_by_id) refl in
      ap (λ (r : Result Error UserGroup). some (name_of (λ (v : UserGroup). v.name) r)) got
      ∙ ap some same

  shown_service :
      (t : ServiceRow)
      → find_first (λ v. v.name == name) st.db.services ≡ some t
      → name_for st "service" t.id ≡ some name
  unfolding name_for get_service service_by_id
  shown_service t e =
      let (found, same) = looked_up (λ v. v.id) (λ v. v.name) name t st.db.services ids.2.0 e in
      let got : get_service st t.id ≡ ok (with_ports st.db t) = rw (found, service_by_id) refl in
      ap (λ (r : Result Error Service). some (name_of (λ (v : Service). v.row.name) r)) got
      ∙ ap some same

  shown_service_group :
      (g : ServiceGroup)
      → find_first (λ v. v.name == name) st.db.service_groups ≡ some g
      → name_for st "service_group" g.id ≡ some name
  unfolding name_for get_service_group service_group_by_id
  shown_service_group g e =
      let (found, same) =
        looked_up (λ v. v.id) (λ v. v.name) name g st.db.service_groups ids.3.0 e in
      let got : get_service_group st g.id ≡ ok g = rw (found, service_group_by_id) refl in
      ap (λ (r : Result Error ServiceGroup). some (name_of (λ (v : ServiceGroup). v.name) r)) got
      ∙ ap some same

  -- The name is that of what was found; an error says that no principal has the name.
  abbrev pub PrincipalNamed : Result Error (String × ℕ) → Type 0
  PrincipalNamed (ok (type, id)) = name_for st type id ≡ some name
  PrincipalNamed (err e) =
      (e ≡ not_found)
      × (find_first (λ u. u.name == name) st.db.users ≡ none)
      × (find_first (λ g. g.name == name) st.db.user_groups ≡ none)

  find_principal-Named : PrincipalNamed (find_principal st name)
  unfolding find_principal get_user_by_name get_user_group_by_name
  find_principal-Named = elim (Option-cases (find_first (λ u. u.name == name) st.db.users)) [
    | inr (u, e) ↦ rw (e, PrincipalNamed, or_else) (shown_user u e)
    | inl e ↦ elim (Option-cases (find_first (λ g. g.name == name) st.db.user_groups)) [
      | inr (g, f) ↦ rw (e, f, PrincipalNamed, or_else) (shown_group g f)
      | inl f ↦ rw (e, f, PrincipalNamed, or_else) (refl, e, f)
    ]
  ]

  -- The name is that of what was found; an error says that nothing has the name.
  abbrev pub ObjectNamed : Result Error (String × ℕ) → Type 0
  ObjectNamed (ok (type, id)) = name_for st type id ≡ some name
  ObjectNamed (err e) =
      (e ≡ not_found)
      × (find_first (λ t. t.name == name) st.db.services ≡ none)
      × (find_first (λ g. g.name == name) st.db.service_groups ≡ none)
      × (find_first (λ u. u.name == name) st.db.users ≡ none)
      × (find_first (λ g. g.name == name) st.db.user_groups ≡ none)

  objects_absent :
      (r : Result Error (String × ℕ))
      → find_first (λ t. t.name == name) st.db.services ≡ none
      → find_first (λ g. g.name == name) st.db.service_groups ≡ none
      → PrincipalNamed r
      → ObjectNamed r
  objects_absent (ok (type, id)) e f h = h
  objects_absent (err x) e f (h, k, l) = (h, e, f, k, l)

  find_object-Named : ObjectNamed (find_object st name)
  unfolding find_object get_service_by_name get_service_group_by_name
  find_object-Named = elim (Option-cases (find_first (λ t. t.name == name) st.db.services)) [
    | inr (t, e) ↦ rw (e, ObjectNamed, or_else) (shown_service t e)
    | inl e ↦ elim (Option-cases (find_first (λ g. g.name == name) st.db.service_groups)) [
      | inr (g, f) ↦ rw (e, f, ObjectNamed, or_else) (shown_service_group g f)
      | inl f ↦
          rw (e, f, ObjectNamed, or_else)
            (objects_absent (find_principal st name) e f find_principal-Named)
    ]
  ]

  -- In a store with distinct ids, a request that names its subject, and does not give its type and
  -- id, resolves to a user or a group that is shown under that very name; it fails, as not found, only
  -- if no user and no group has the name.
  pub resolve_subject-Named :
      (t : String) (id : ℕ)
      → (not (id == 0) && not (t == "")) ≡ false
      → (name == "") ≡ false
      → PrincipalNamed (resolve_subject st t id name)
  unfolding resolve_subject
  resolve_subject-Named t id by_name named = rw (by_name, named) find_principal-Named

  -- The same of an object, which may be a service or a service group too.
  pub resolve_object-Named :
      (t : String) (id : ℕ)
      → (not (id == 0) && not (t == "")) ≡ false
      → (name == "") ≡ false
      → ObjectNamed (resolve_object st t id name)
  unfolding resolve_object
  resolve_object-Named t id by_name named = rw (by_name, named) find_object-Named

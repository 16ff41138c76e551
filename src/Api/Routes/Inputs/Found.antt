-- ===== src/Api/Routes/Inputs/Found.antt =====
-- The rows that a request to daemon/api names, which its handlers look up.
use mathlib.Core.Path.{subst}
use lightscale.Prelude.{
  ℕ, ◌≡◌, ◌≢◌, refl, sym, inl, inr, String, ◌&&◌, not, Option, none, some, List, [], ◌∷◌, In, here,
  there, In_of_find_first, find_first, find_first_passes, ◌==◌, nat_eq, string_eq, arith,
  Bool-cases, Option-cases, eq_of_==, ==_of_eq, if◌then◌else◌,
}
use lightscale.Prelude.Result.{Result, ok, err}
use lightscale.Store.{User, UserGroup, ServiceRow, ServiceGroup, Store, Error, invalid_input}
use lightscale.Store.Users.{get_user_by_name}
use lightscale.Store.Groups.{get_user_group_by_name}
use lightscale.Store.ServiceGroups.{get_service_group_by_name}
use lightscale.Store.Services.{get_service_by_name}
use lightscale.Api.Wire.{UserGroupMemberReq, ServiceGroupMemberReq}
use lightscale.Api.Groups.{required, member_user}
use lightscale.Api.ServiceGroups.{member_service}
use lightscale.Api.Names.{or_else, find_principal, find_object, resolve_subject, resolve_object}
use lightscale.Api.Routes.Inputs.{MemberOf, Unnamed, PrincipalOf, ObjectOf, Given}
use lightscale.Api.Routes.Inputs.Created.{differ}

-- What a lookup by a name says of the rows.
abbrev Looked : {A : Type 0} → (A → String) → List A → String → Option A → Type 0
Looked row_name rows name none = Unnamed row_name rows name
Looked row_name rows name (some row) = In row rows × (row_name row ≡ name)

module _ {A : Type 0} (row_name : A → String) (name : String) where
  find_first-Unnamed :
      (rows : List A)
      → find_first (λ r. row_name r == name) rows ≡ none
      → Unnamed row_name rows name
  unfolding find_first
  find_first-Unnamed [] h row m = elim m [ ]
  find_first-Unnamed (r ∷ rows) h row m = elim (Bool-cases (row_name r == name)) [
    | inl e ↦ absurd (cc (rw e at h))
    | inr e ↦ elim m [
      | here same ↦ rw same (differ (row_name r) name e)
      | there n ↦ find_first-Unnamed rows (rw e at h) row n
    ]
  ]

  looked_up :
      (rows : List A) (o : Option A)
      → find_first (λ r. row_name r == name) rows ≡ o
      → Looked row_name rows name o
  looked_up rows none e = find_first-Unnamed rows e
  looked_up rows (some row) e = (
    In_of_find_first (λ r. row_name r == name) rows e,
    eq_of_== (row_name row) name (find_first_passes (λ r. row_name r == name) rows e),
  )

-- what holds of what was found, if anything was
abbrev Says : (String × ℕ → Type 0) → Result Error (String × ℕ) → Type 0
Says P (ok found) = P found
Says P (err e) = Unit

said :
    (P : String × ℕ → Type 0) (r : Result Error (String × ℕ)) (found : String × ℕ)
    → Says P r
    → r ≡ ok found
    → P found
said P (ok x) found h e = subst P (cc e) h
said P (err x) found h e = absurd (cc e)

required-ok : (id found : ℕ) → required id ≡ ok found → (found ≢ 0) × (found ≡ id)
required-ok id found h = elim (Bool-cases (id == 0)) [
  | inl e ↦ absurd (cc (rw e at h))
  | inr e ↦
      let same : id ≡ found = cc (rw e at h) in
      rw (← same) ((λ z. absurd (cc (e, ==_of_eq id 0 z))), refl)
]

module _ (s : Store) where
  pub member_user-MemberOf :
      (req : UserGroupMemberReq) (uid : ℕ)
      → member_user s req ≡ ok uid
      → MemberOf (λ (u : User). u.id) (λ u. u.name) s.db.users req.user_id req.user_name uid
  unfolding member_user get_user_by_name
  member_user-MemberOf req uid h =
      elim (Bool-cases ((req.user_id == 0) && not (req.user_name == ""))) [
        | inr e ↦ let (n, same) = required-ok req.user_id uid (rw e at h) in (n, inl same)
        | inl e ↦ elim (Option-cases (find_first (λ u. u.name == req.user_name) s.db.users)) [
          | inl f ↦ absurd (cc (rw (e, get_user_by_name, f) at h))
          | inr (u, f) ↦
              let (m, named) =
                looked_up (λ (u : User). u.name) req.user_name s.db.users (some u) f in
              let (n, same) = required-ok u.id uid (rw (e, get_user_by_name, f) at h) in
              (n, inr (eq_of_== req.user_id 0 (ground arith), (u, m, named, sym same)))
        ]
      ]

  pub member_service-MemberOf :
      (req : ServiceGroupMemberReq) (sid : ℕ)
      → member_service s req ≡ ok sid
      → MemberOf
          (λ (t : ServiceRow). t.id)
          (λ t. t.name)
          s.db.services
          req.service_id
          req.service_name
          sid
  unfolding member_service get_service_by_name
  member_service-MemberOf req sid h =
      elim (Bool-cases ((req.service_id == 0) && not (req.service_name == ""))) [
        | inr e ↦ let (n, same) = required-ok req.service_id sid (rw e at h) in (n, inl same)
        | inl e ↦ elim (Option-cases (find_first (λ t. t.name == req.service_name) s.db.services)) [
          | inl f ↦ absurd (cc (rw (e, get_service_by_name, f) at h))
          | inr (t, f) ↦
              let (m, named) =
                looked_up (λ (t : ServiceRow). t.name) req.service_name s.db.services (some t) f in
              let (n, same) = required-ok t.id sid (rw (e, get_service_by_name, f) at h) in
              (n, inr (eq_of_== req.service_id 0 (ground arith), (t, m, named, sym same)))
        ]
      ]

  module _ (name : String) where
    find_principal-PrincipalOf : Says (PrincipalOf s name) (find_principal s name)
    unfolding find_principal get_user_by_name get_user_group_by_name
    find_principal-PrincipalOf = elim (Option-cases (find_first (λ u. u.name == name) s.db.users)) [
      | inr (u, e) ↦
          let (m, named) = looked_up (λ (u : User). u.name) name s.db.users (some u) e in
          rw (e, Says, or_else) (inl (u, m, named, refl))
      | inl e ↦ elim (Option-cases (find_first (λ g. g.name == name) s.db.user_groups)) [
        | inr (g, f) ↦
            let (m, named) =
              looked_up (λ (g : UserGroup). g.name) name s.db.user_groups (some g) f in
            let unnamed = looked_up (λ (u : User). u.name) name s.db.users none e in
            rw (e, f, Says, or_else) (inr (g, m, named, unnamed, refl))
        | inl f ↦ rw (e, f, Says, or_else) tt
      ]
    ]

    weaker :
        (r : Result Error (String × ℕ))
        → Unnamed (λ (t : ServiceRow). t.name) s.db.services name
        → Unnamed (λ (g : ServiceGroup). g.name) s.db.service_groups name
        → Says (PrincipalOf s name) r
        → Says (ObjectOf s name) r
    weaker (ok found) a b h = inr (a, inr (b, h))
    weaker (err e) a b h = tt

    find_object-ObjectOf : Says (ObjectOf s name) (find_object s name)
    unfolding find_object get_service_by_name get_service_group_by_name
    find_object-ObjectOf = elim (Option-cases (find_first (λ t. t.name == name) s.db.services)) [
      | inr (t, e) ↦
          let (m, named) = looked_up (λ (t : ServiceRow). t.name) name s.db.services (some t) e in
          rw (e, Says, or_else) (inl (t, m, named, refl))
      | inl e ↦
          let unnamed = looked_up (λ (t : ServiceRow). t.name) name s.db.services none e in
          elim (Option-cases (find_first (λ g. g.name == name) s.db.service_groups)) [
            | inr (g, f) ↦
                let (m, named) =
                  looked_up (λ (g : ServiceGroup). g.name) name s.db.service_groups (some g) f in
                rw (e, f, Says, or_else) (inr (unnamed, inl (g, m, named, refl)))
            | inl f ↦
                rw (e, f, Says, or_else)
                  (weaker (find_principal s name) unnamed
                    (looked_up (λ (g : ServiceGroup). g.name) name s.db.service_groups none f)
                    find_principal-PrincipalOf)
          ]
    ]

    module _ (type : String) (id : ℕ) (found : String × ℕ) where
      by_id_or :
          (By : String → String × ℕ → Type 0) (r : Result Error (String × ℕ))
          → Says (By name) r
          → (if not (id == 0) && not (type == "")
              then ok (type, id)
              else if name == ""
              then err invalid_input
              else r)
            ≡ ok found
          → Given By type id name found
      by_id_or By r says h = elim (Bool-cases (not (id == 0) && not (type == ""))) [
        | inl e ↦ inl (
          (λ z. absurd (cc (e, ==_of_eq id 0 z))),
          differ type "" (ground arith),
          sym (cc (rw e at h)),
        )
        | inr e ↦ elim (Bool-cases (name == "")) [
          | inl f ↦ absurd (cc (rw (e, f) at h))
          | inr f ↦ inr (differ name "" f, said (By name) r found says (rw (e, f) at h))
        ]
      ]

      pub resolve_subject-Given :
          resolve_subject s type id name ≡ ok found → Given (PrincipalOf s) type id name found
      unfolding resolve_subject
      resolve_subject-Given h =
          by_id_or (PrincipalOf s) (find_principal s name) find_principal-PrincipalOf h

      pub resolve_object-Given :
          resolve_object s type id name ≡ ok found → Given (ObjectOf s) type id name found
      unfolding resolve_object
      resolve_object-Given h = by_id_or (ObjectOf s) (find_object s name) find_object-ObjectOf h

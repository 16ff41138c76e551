-- ===== src/Policy/Build/Joined.antt =====
-- Who is in which group, according to the index that `Build` (daemon/policy/index.go) makes.
use lightscale.Prelude.{
  ℕ, ◌≡◌, refl, sym, ◌∙◌, ap, inl, inr, Bool, true, ◌&&◌, ◌||◌, List, [], ◌∷◌, ◌++◌, Map, get, put,
  get-put, nat_eq, ◌==◌, eq_of_==, has, any, any-append, keep, All_at, In_of_any, Bool-cases,
  if◌then◌else◌, arith,
}
use lightscale.Store.{User, UserGroup, Member, Db, Store}
use lightscale.Store.Groups.{user_group_members, is_member, list_user_groups}
use lightscale.Store.Invariants.References.{References}
use lightscale.Policy.Resolver.{slice_at}
use lightscale.Policy.Build.{index_members, build}
use lightscale.Policy.Build.Filled.{join_each, build_lem}

-- is the id in the list
abbrev pub holds : ℕ → List ℕ → Bool
holds i ids = any (λ j. j == i) ids

slice_at-put :
    (k j : ℕ) (v : List ℕ) (m : Map ℕ (List ℕ))
    → slice_at j (put k v m) ≡ (if k == j then v else slice_at j m)
slice_at-put k j v m = ground (arith, get-put k j v m)

module _ (user_id group_id : ℕ) where
  holds-index_members :
      (g : ℕ) (ms : List User) (m : Map ℕ (List ℕ))
      → holds group_id (slice_at user_id (index_members g ms m))
        ≡ (holds group_id (slice_at user_id m) || ((g == group_id) && has (λ u. u.id) user_id ms))
  unfolding index_members has any
  holds-index_members g [] m = ground arith
  holds-index_members g (u ∷ us) m =
      holds-index_members g us (put u.id (slice_at u.id m ++ g ∷ []) m)
      ∙ elim (Bool-cases (u.id == user_id)) [
        | inl e ↦
            let p : u.id ≡ user_id = eq_of_== u.id user_id e in
            let q : slice_at user_id (put u.id (slice_at u.id m ++ g ∷ []) m)
                ≡ slice_at user_id m ++ g ∷ [] =
              slice_at-put u.id user_id (slice_at u.id m ++ g ∷ []) m ∙ rw (e, p) refl in
            rw q (ground (arith, any-append (λ j. j == group_id) (slice_at user_id m) (g ∷ [])))
        | inr e ↦ rw (slice_at-put u.id user_id (slice_at u.id m ++ g ∷ []) m, e) refl
      ]

  has-keep_members :
      (ms : List Member) (us : List User)
      → has (λ u. u.id) user_id (keep (λ u. any (is_member u.id group_id) ms) us)
        ≡ (has (λ u. u.id) user_id us && any (is_member user_id group_id) ms)
  unfolding has any keep
  has-keep_members ms [] = refl
  has-keep_members ms (u ∷ us) = elim (Bool-cases (u.id == user_id)) [
    | inl e ↦
        let p : u.id ≡ user_id = eq_of_== u.id user_id e in
        let q : any (is_member u.id group_id) ms ≡ any (is_member user_id group_id) ms =
          ap (λ i. any (is_member i group_id) ms) p in
        ground (arith, has-keep_members ms us)
    | inr e ↦ ground (arith, has-keep_members ms us)
  ]

  has-user_group_members :
      (s : Store)
      → has (λ u. u.id) user_id (user_group_members s group_id) ≡ (
          has (λ u. u.id) user_id s.db.users
          && any (is_member user_id group_id) s.db.user_group_members)
  unfolding user_group_members
  has-user_group_members s = has-keep_members s.db.user_group_members s.db.users

  -- the groups of the loop that have the user
  any_joined :
      (s : Store) (gs : List UserGroup)
      → any (λ g. (g.id == group_id) && has (λ u. u.id) user_id (user_group_members s g.id)) gs
        ≡ (has (λ g. g.id) group_id gs && has (λ u. u.id) user_id (user_group_members s group_id))
  unfolding has any
  any_joined s [] = refl
  any_joined s (g ∷ gs) = elim (Bool-cases (g.id == group_id)) [
    | inl e ↦
        let p : g.id ≡ group_id = eq_of_== g.id group_id e in
        let q : has (λ u. u.id) user_id (user_group_members s g.id)
            ≡ has (λ u. u.id) user_id (user_group_members s group_id) =
          ap (λ i. has (λ u. u.id) user_id (user_group_members s i)) p in
        ground (arith, any_joined s gs)
    | inr e ↦ ground (arith, any_joined s gs)
  ]

  holds-join_each :
      (s : Store) (gs : List UserGroup) (m : Map ℕ (List ℕ))
      → holds group_id (slice_at user_id (join_each s gs m)) ≡ (
          holds group_id (slice_at user_id m)
          || any
              (λ g. (g.id == group_id) && has (λ u. u.id) user_id (user_group_members s g.id))
              gs)
  unfolding join_each any
  holds-join_each s [] m = ground arith
  holds-join_each s (g ∷ gs) m =
      holds-join_each s gs (index_members g.id (user_group_members s g.id) m)
      ∙ ground (arith, holds-index_members g.id (user_group_members s g.id) m)

  -- A membership names a user and a group that are there.
  member-References :
      (db : Db)
      → References db
      → any (is_member user_id group_id) db.user_group_members ≡ true
      → (has (λ u. u.id) user_id db.users ≡ true) × (has (λ g. g.id) group_id db.user_groups ≡ true)
  member-References db refs h =
      let (m, n, t) = In_of_any (is_member user_id group_id) db.user_group_members h in
      let (u, g) = All_at _ db.user_group_members refs.1 n in
      let p : m.member_id ≡ user_id = eq_of_== m.member_id user_id (ground arith) in
      let q : m.group_id ≡ group_id = eq_of_== m.group_id group_id (ground arith) in
      (rw (sym p) u, rw (sym q) g)

  joined_member :
      (s : Store)
      → References s.db
      → (holds group_id []
          || (has (λ g. g.id) group_id s.db.user_groups
              && has (λ u. u.id) user_id (user_group_members s group_id)))
        ≡ any (is_member user_id group_id) s.db.user_group_members
  unfolding any
  joined_member s refs =
      elim (Bool-cases (any (is_member user_id group_id) s.db.user_group_members)) [
        | inl e ↦
            let (u, g) = member-References s.db refs e in
            rw (has-user_group_members s, u, g, e) refl
        | inr e ↦ ground (arith, has-user_group_members s)
      ]

  -- In the index of a store with whole references, a group is one of a user's exactly when there is
  -- a row for it in the table of members.
  pub holds-groups_by_user :
      (s : Store)
      → References s.db
      → holds group_id (slice_at user_id (build s).groups_by_user)
        ≡ any (is_member user_id group_id) s.db.user_group_members
  unfolding list_user_groups any get
  holds-groups_by_user s refs = rw (build_lem s) (
      holds-join_each s s.db.user_groups []
      ∙ ap (λ b. holds group_id [] || b) (any_joined s s.db.user_groups)
      ∙ joined_member s refs)

-- ===== src/Policy/Build/Filled.antt =====
-- What the loops of `Build` (daemon/policy/index.go) leave in each map of the index.
use lightscale.Prelude.{
  ℕ, ◌≡◌, refl, sym, ◌∙◌, ◌⊎◌, inl, inr, false, some, List, [], ◌∷◌, map, Map, get, put, get-put,
  nat_eq, string_eq, Eq, ◌==◌, eq_of_==, ==_of_eq, has, Distinct, In, here, there, Bool-cases,
  arith, any,
}
use lightscale.Store.{User, UserGroup, Store}
use lightscale.Store.Users.{list_users}
use lightscale.Store.Groups.{list_user_groups, user_group_members}
use lightscale.Store.Services.{Service, list_services}
use lightscale.Store.ServiceMembers.{service_group_ids_for_service}
use lightscale.Store.Policies.{list_policies}
use lightscale.Policy.{Index}
use lightscale.Policy.Build.{
  user_snapshot, service_snapshot, rule_snapshot, group_snapshot, index_users, index_services,
  index_members, index_groups, index_service_groups, build,
}

module _ {A K V : Type 0} ⦃e : Eq K⦄ (key : A → K) (val : A → V) where
  -- an entry for each row, a later one in place of an earlier one
  unfoldable pub put_each : List A → Map K V → Map K V
  put_each [] m = m
  put_each (x ∷ xs) m = put_each xs (put (key x) (val x) m)

  pub get-put_each_absent :
      (k : K) (xs : List A) (m : Map K V) → has key k xs ≡ false → get k (put_each xs m) ≡ get k m
  unfolding put_each has any
  get-put_each_absent k [] m h = refl
  get-put_each_absent k (x ∷ xs) m h =
      get-put_each_absent k xs (put (key x) (val x) m) (ground arith)
      ∙ ground (arith, get-put (key x) k (val x) m)

  pub get-put_each :
      (xs : List A) (m : Map K V) {x : A}
      → Distinct key xs
      → In x xs
      → get (key x) (put_each xs m) ≡ some (val x)
  unfolding put_each
  get-put_each [] m d n = elim n [ ]
  get-put_each (y ∷ ys) m {x} d (here p) =
      let back : y ≡ x = sym p in
      let absent : has key (key x) ys ≡ false = rw p d.0 in
      get-put_each_absent (key x) ys (put (key y) (val y) m) absent
      ∙ get-put (key y) (key x) (val y) m
      ∙ rw (back, ==_of_eq (key x) (key x) refl) refl
  get-put_each (y ∷ ys) m d (there n) = get-put_each ys (put (key y) (val y) m) d.1 n

  pub row_of_get :
      (k : K) (v : V) (xs : List A) (m : Map K V)
      → get k (put_each xs m) ≡ some v
      → ((x : A) × In x xs × (key x ≡ k) × (val x ≡ v)) ⊎ (get k m ≡ some v)
  unfolding put_each
  row_of_get k v [] m h = inr h
  row_of_get k v (x ∷ xs) m h = elim (row_of_get k v xs (put (key x) (val x) m) h) [
    | inl (y, n, p, q) ↦ inl (y, there n, p, q)
    | inr g ↦ elim (Bool-cases (key x == k)) [
      | inl e ↦
          inl (x, here refl, eq_of_== (key x) k e, ground (arith, get-put (key x) k (val x) m))
      | inr e ↦ inr (ground (arith, get-put (key x) k (val x) m))
    ]
  ]

-- the user groups of each user, group by group
unfoldable pub join_each : Store → List UserGroup → Map ℕ (List ℕ) → Map ℕ (List ℕ)
join_each s [] groups = groups
join_each s (g ∷ gs) groups = join_each s gs (index_members g.id (user_group_members s g.id) groups)

index_users_lem :
    (us : List User) (idx : Index)
    → index_users us idx ≡ record idx {
      peer_by_ip = put_each (λ u. u.ip_address) user_snapshot us idx.peer_by_ip;
      user_by_id = put_each (λ u. u.id) user_snapshot us idx.user_by_id;
    }
unfolding index_users put_each
index_users_lem [] idx = refl
index_users_lem (u ∷ us) idx = index_users_lem us _

index_services_lem :
    (ss : List Service) (idx : Index)
    → index_services ss idx ≡ record idx {
      service_by_vip = put_each (λ s. s.row.ip_address) service_snapshot ss idx.service_by_vip;
      service_by_id = put_each (λ s. s.row.id) service_snapshot ss idx.service_by_id;
    }
unfolding index_services put_each
index_services_lem [] idx = refl
index_services_lem (s ∷ ss) idx = index_services_lem ss _

index_groups_lem :
    (s : Store) (gs : List UserGroup) (idx : Index)
    → index_groups s gs idx ≡ record idx {
      groups_by_user = join_each s gs idx.groups_by_user;
      user_groups =
          put_each
            (λ g. g.id)
            (λ g. group_snapshot g (user_group_members s g.id))
            gs
            idx.user_groups;
    }
unfolding index_groups put_each join_each
index_groups_lem s [] idx = refl
index_groups_lem s (g ∷ gs) idx = index_groups_lem s gs _

index_service_groups_lem :
    (s : Store) (ss : List Service) (idx : Index)
    → index_service_groups s ss idx ≡ record idx {
      groups_by_service =
          put_each
            (λ t. t.row.id)
            (λ t. service_group_ids_for_service s t.row.id)
            ss
            idx.groups_by_service;
    }
unfolding index_service_groups put_each
index_service_groups_lem s [] idx = refl
index_service_groups_lem s (t ∷ ss) idx = index_service_groups_lem s ss _

-- the index, map by map
abbrev pub filled : Store → Index
filled s = record {
  peer_by_ip = put_each (λ u. u.ip_address) user_snapshot (list_users s) [];
  user_by_id = put_each (λ u. u.id) user_snapshot (list_users s) [];
  service_by_vip = put_each (λ t. t.row.ip_address) service_snapshot (list_services s) [];
  service_by_id = put_each (λ t. t.row.id) service_snapshot (list_services s) [];
  groups_by_user = join_each s (list_user_groups s) [];
  groups_by_service =
      put_each (λ t. t.row.id) (λ t. service_group_ids_for_service s t.row.id) (list_services s) [];
  user_groups =
      put_each (λ g. g.id) (λ g. group_snapshot g (user_group_members s g.id)) (list_user_groups s)
        [];
  rules = map rule_snapshot (list_policies s);
}

pub build_lem : (s : Store) → build s ≡ filled s
unfolding build
build_lem s =
    rw (index_service_groups_lem s, index_groups_lem s, index_services_lem, index_users_lem) refl

-- ===== src/Policy/Resolver/Involved.antt =====
-- Which rules speak of two users, in terms of the maps and the rules of the index: the subject sets
-- and object sets that CheckPeer (daemon/policy/resolver.go) makes.
use lightscale.Prelude.{
  ℕ, ◌≤◌, ◌≡◌, refl, sym, ◌⊎◌, inl, inr, String, Bool, true, false, ◌&&◌, Option, none, some, List,
  [], ◌∷◌, arith, Bool-cases, get, All, All-weaken, In, here, there, any, nat_eq, string_eq, ◌==◌,
  ==_of_eq, eq_of_==,
}
use lightscale.Policy.{Index, RuleSnapshot}
use lightscale.Policy.Resolver.{Ref, refs, matches_any, subject_set, user_object_set}
use lightscale.Policy.Resolver.Evaluate.{rule_matches, Decides}

-- The type and id are those of the user, or of a group that the index lists for the user.
abbrev pub Involves : Index → ℕ → String → ℕ → Type 0
Involves idx user_id type id =
    ((type ≡ "user") × (id ≡ user_id))
    ⊎ ((type ≡ "user_group")
        × ((gids : List ℕ) × (get user_id idx.groups_by_user ≡ some gids) × In id gids))

-- The rule's subject involves the one user, and its object the other.
abbrev pub Between : Index → ℕ → ℕ → RuleSnapshot → Type 0
Between idx src_id dst_id r =
    Involves idx src_id r.subject_type r.subject_id × Involves idx dst_id r.object_type r.object_id

-- The rule is between the two users, and no rule between them has a larger id.
pub record LastBetween (idx : Index) (src_id dst_id : ℕ) (r : RuleSnapshot) : Type 0 where
  pub listed : In r idx.rules
  pub between : Between idx src_id dst_id r
  pub last : All (λ q. Between idx src_id dst_id q → q.id ≤ r.id) idx.rules

abbrev is_ref : String → ℕ → Ref → Bool
is_ref type id r = (r.type == type) && (r.id == id)

module _ (type : String) (id : ℕ) where
  group_of_refs :
      (gids : List ℕ)
      → any (is_ref type id) (refs "user_group" gids) ≡ true
      → (type ≡ "user_group") × In id gids
  unfolding refs any
  group_of_refs [] h = cc h
  group_of_refs (g ∷ gids) h = elim (Bool-cases (("user_group" == type) && (g == id))) [
    | inl e ↦
        (sym (eq_of_== "user_group" type (ground arith)), here (sym (eq_of_== g id (ground arith))))
    | inr e ↦ let (t, m) = group_of_refs gids (rw e at h) in (t, there m)
  ]

  refs_of_group :
      (gids : List ℕ)
      → type ≡ "user_group"
      → In id gids
      → any (is_ref type id) (refs "user_group" gids) ≡ true
  unfolding refs any
  refs_of_group [] t m = elim m [ ]
  refs_of_group (g ∷ gids) t (here e) =
      ground (arith, ==_of_eq "user_group" type (sym t), ==_of_eq g id (sym e))
  refs_of_group (g ∷ gids) t (there m) = ground (arith, refs_of_group gids t m)

  module _ (idx : Index) (user_id : ℕ) where
    of_group :
        (o : Option (List ℕ))
        → get user_id idx.groups_by_user ≡ o
        → any (is_ref type id) (refs "user_group" (elim o [ none ↦ [] | some gids ↦ gids ])) ≡ true
        → Involves idx user_id type id
    unfolding refs any
    of_group none e h = cc h
    of_group (some gids) e h = let (t, m) = group_of_refs gids h in inr (t, (gids, e, m))

    subject-Involves :
        matches_any type id (subject_set idx user_id) ≡ true → Involves idx user_id type id
    unfolding matches_any subject_set any
    subject-Involves h = elim (Bool-cases (("user" == type) && (user_id == id))) [
      | inl e ↦
          inl (sym (eq_of_== "user" type (ground arith)), sym (eq_of_== user_id id (ground arith)))
      | inr e ↦ of_group (get user_id idx.groups_by_user) refl (rw e at h)
    ]

    Involves-subject :
        Involves idx user_id type id → matches_any type id (subject_set idx user_id) ≡ true
    unfolding matches_any subject_set any
    Involves-subject (inl (t, e)) =
        ground (arith, ==_of_eq "user" type (sym t), ==_of_eq user_id id (sym e))
    Involves-subject (inr (t, (gids, e, m))) = ground (arith, e, refs_of_group gids t m)

    object-Involves :
        matches_any type id (user_object_set idx user_id) ≡ true → Involves idx user_id type id
    unfolding subject_set user_object_set
    object-Involves h = subject-Involves h

    Involves-object :
        Involves idx user_id type id → matches_any type id (user_object_set idx user_id) ≡ true
    unfolding subject_set user_object_set
    Involves-object v = Involves-subject v

module _ (idx : Index) (src_id dst_id : ℕ) where
  abbrev matches : RuleSnapshot → Bool
  matches r = rule_matches (subject_set idx src_id) (user_object_set idx dst_id) r

  matches-Between : (r : RuleSnapshot) → matches r ≡ true → Between idx src_id dst_id r
  matches-Between r h = (
    subject-Involves r.subject_type r.subject_id idx src_id (ground arith),
    object-Involves r.object_type r.object_id idx dst_id (ground arith),
  )

  matches_of : (r : RuleSnapshot) → Between idx src_id dst_id r → matches r ≡ true
  matches_of r (a, b) = ground (
    arith,
    Involves-subject r.subject_type r.subject_id idx src_id a,
    Involves-object r.object_type r.object_id idx dst_id b,
  )

  pub Decides-LastBetween :
      (r : RuleSnapshot)
      → Decides (subject_set idx src_id) (user_object_set idx dst_id) idx.rules r
      → LastBetween idx src_id dst_id r
  Decides-LastBetween r d = record {
    listed = d.listed;
    between = matches-Between r d.matching;
    last = All-weaken _ _ idx.rules (λ q h b. h (matches_of q b)) d.last;
  }

  pub LastBetween-Decides :
      (r : RuleSnapshot)
      → LastBetween idx src_id dst_id r
      → Decides (subject_set idx src_id) (user_object_set idx dst_id) idx.rules r
  LastBetween-Decides r l = record {
    listed = l.listed;
    matching = matches_of r l.between;
    last = All-weaken _ _ idx.rules (λ q h m. h (matches-Between q m)) l.last;
  }

  differs : (q : RuleSnapshot) → matches q ≡ false → matches q ≡ true → ⊥
  differs q f t = absurd (cc (f, t))

  pub quiet-Between :
      All
        (λ q. rule_matches (subject_set idx src_id) (user_object_set idx dst_id) q ≡ false)
        idx.rules
      → All (λ q. Between idx src_id dst_id q → ⊥) idx.rules
  quiet-Between h = All-weaken _ _ idx.rules (λ q f b. absurd (differs q f (matches_of q b))) h

  pub quiet_of :
      All (λ q. Between idx src_id dst_id q → ⊥) idx.rules
      → All
          (λ q. rule_matches (subject_set idx src_id) (user_object_set idx dst_id) q ≡ false)
          idx.rules
  quiet_of h =
      All-weaken _ _ idx.rules
        (λ q f. elim (Bool-cases (matches q)) [
          | inl t ↦ absurd (f (matches-Between q t))
          | inr e ↦ e
        ])
        h

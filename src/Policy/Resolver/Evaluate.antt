-- ===== src/Policy/Resolver/Evaluate.antt =====
-- What the loop of evaluateExplicit (daemon/policy/resolver.go) computes.
use lightscale.Prelude.{
  ℕ, ◌≤◌, ◌≡◌, refl, ◌⊎◌, inl, inr, Bool, true, false, ◌&&◌, none, some, List, [], ◌∷◌, arith,
  String, Bool-cases, if◌then◌else◌, All, All-weaken, In, here, there, All_at, Distinct, In-unique,
  nat_eq, string_eq, ◌==◌,
}
use lightscale.Policy.{Index, RuleSnapshot}
use lightscale.Policy.Resolver.{
  deny, allow, Ref, matches_any, Best, beats, consider, pick, evaluate_explicit,
}

-- Does the rule speak of one of the subjects and one of the objects?
abbrev pub rule_matches : List Ref → List Ref → RuleSnapshot → Bool
rule_matches subjects objects r =
    matches_any r.subject_type r.subject_id subjects
    && matches_any r.object_type r.object_id objects

-- The rule matches, and no matching rule has a larger id.
pub record Decides (subjects objects : List Ref) (rules : List RuleSnapshot) (r : RuleSnapshot)
    : Type 0 where
  pub listed : In r rules
  pub matching : rule_matches subjects objects r ≡ true
  pub last : All (λ q. rule_matches subjects objects q ≡ true → q.id ≤ r.id) rules

-- What the loop makes of the rules that it has still to see.
Picked : List Ref → List Ref → List RuleSnapshot → Best → Type 0
Picked subjects objects rules best =
    ((pick subjects objects rules best ≡ best)
      × All (λ q. rule_matches subjects objects q ≡ true → beats q.id best ≡ false) rules)
    ⊎ ((r : RuleSnapshot) × Decides subjects objects rules r
        × (beats r.id best ≡ true)
        × (pick subjects objects rules best ≡ some (r.id, r.action)))

module _ (subjects objects : List Ref) where
  consider-cases :
      (r : RuleSnapshot) (best : Best)
      → ((consider subjects objects r best ≡ best)
          × (rule_matches subjects objects r ≡ true → beats r.id best ≡ false))
        ⊎ ((consider subjects objects r best ≡ some (r.id, r.action))
            × (rule_matches subjects objects r ≡ true)
            × (beats r.id best ≡ true))
  unfolding consider
  consider-cases r best = elim (Bool-cases (rule_matches subjects objects r && beats r.id best)) [
    | inl e ↦ inr (ground arith, ground arith, ground arith)
    | inr e ↦ inl (ground arith, λ m. ground arith)
  ]

  beats-le : (i j : ℕ) (action : String) → beats i (some (j, action)) ≡ false → i ≤ j
  beats-le i j action h = ground arith

  beats_trans :
      (i j : ℕ) (action : String) (best : Best)
      → beats i (some (j, action)) ≡ true
      → beats j best ≡ true
      → beats i best ≡ true
  beats_trans i j action best h k = ground arith

  not-beats-le : (i j : ℕ) (best : Best) → beats i best ≡ false → beats j best ≡ true → i ≤ j
  not-beats-le i j best h k = ground arith

  beats-lt-le : (i j : ℕ) (action : String) → beats i (some (j, action)) ≡ true → j ≤ i
  beats-lt-le i j action h = ground arith

  Picked-kept :
      (r : RuleSnapshot) (rules : List RuleSnapshot) (best : Best)
      → (rule_matches subjects objects r ≡ true → beats r.id best ≡ false)
      → Picked subjects objects rules best
      → (pick subjects objects (r ∷ rules) best ≡ pick subjects objects rules best)
      → Picked subjects objects (r ∷ rules) best
  unfolding Picked
  Picked-kept r rules best loses (inl (same, none_beats)) e = inl (rw e same, (loses, none_beats))
  Picked-kept r rules best loses (inr (s, d, wins, found)) e = inr (
    s,
    record {
      listed = there d.listed;
      matching = d.matching;
      last = (λ m. not-beats-le r.id s.id best (loses m) wins, d.last);
    },
    wins,
    rw e found,
  )

  Picked-taken :
      (r : RuleSnapshot) (rules : List RuleSnapshot) (best : Best)
      → rule_matches subjects objects r ≡ true
      → beats r.id best ≡ true
      → Picked subjects objects rules (some (r.id, r.action))
      → (pick subjects objects (r ∷ rules) best
          ≡ pick subjects objects rules (some (r.id, r.action)))
      → Picked subjects objects (r ∷ rules) best
  unfolding Picked
  Picked-taken r rules best m wins (inl (same, none_beats)) e = inr (
    r,
    record {
      listed = here refl;
      matching = m;
      last = (
        λ _. omega arith,
        All-weaken _ _ rules (λ q k n. beats-le q.id r.id r.action (k n)) none_beats,
      );
    },
    wins,
    rw e same,
  )
  Picked-taken r rules best m wins (inr (s, d, later, found)) e = inr (
    s,
    record {
      listed = there d.listed;
      matching = d.matching;
      last = (λ _. beats-lt-le s.id r.id r.action later, d.last);
    },
    beats_trans s.id r.id r.action best later wins,
    rw e found,
  )

  Picked-step :
      (r : RuleSnapshot) (rules : List RuleSnapshot) (best : Best)
      → Picked subjects objects rules (consider subjects objects r best)
      → Picked subjects objects (r ∷ rules) best
  unfolding pick
  Picked-step r rules best p = elim (consider-cases r best) [
    | inl (e, loses) ↦ Picked-kept r rules best loses (rw e at p) (rw e)
    | inr (e, m, wins) ↦ Picked-taken r rules best m wins (rw e at p) (rw e)
  ]

  picked : (rules : List RuleSnapshot) (best : Best) → Picked subjects objects rules best
  unfolding Picked pick
  picked [] best = inl (refl, tt)
  picked (r ∷ rules) best =
      Picked-step r rules best (picked rules (consider subjects objects r best))

  never_matches :
      (q : RuleSnapshot)
      → (rule_matches subjects objects q ≡ true → true ≡ false)
      → rule_matches subjects objects q ≡ false
  never_matches q k = elim (Bool-cases (rule_matches subjects objects q)) [
    | inl m ↦ cc (k m)
    | inr n ↦ n
  ]

  -- Either no rule matches, and the answer is that nothing was found; or the matching rule with
  -- the largest id decides: allow if its action is "allow", else deny.
  pub evaluate_explicit-cases :
      (idx : Index)
      → ((evaluate_explicit idx subjects objects ≡ (deny, false))
          × All (λ q. rule_matches subjects objects q ≡ false) idx.rules)
        ⊎ ((r : RuleSnapshot) × Decides subjects objects idx.rules r
            × (evaluate_explicit idx subjects objects
                ≡ (if r.action == "allow" then allow else deny, true)))
  unfolding evaluate_explicit Picked
  evaluate_explicit-cases idx = elim (picked idx.rules none) [
    | inl (e, quiet) ↦
        inl (rw (e, evaluate_explicit), All-weaken _ _ idx.rules (λ q k. never_matches q k) quiet)
    | inr (r, d, _, e) ↦ inr (r, d, rw (e, evaluate_explicit) (ground arith))
  ]

  -- Rules with distinct ids: the deciding rule is the only one, so its action is the answer.
  pub evaluate_explicit-Decides :
      (idx : Index) (r : RuleSnapshot)
      → Distinct (λ q. q.id) idx.rules
      → Decides subjects objects idx.rules r
      → evaluate_explicit idx subjects objects ≡ (if r.action == "allow" then allow else deny, true)
  evaluate_explicit-Decides idx r distinct d = elim (evaluate_explicit-cases idx) [
    | inl (e, quiet) ↦ cc (All_at _ idx.rules quiet d.listed, d.matching)
    | inr (s, d', e) ↦
        let same : s ≡ r =
          In-unique (λ q. q.id) idx.rules distinct d'.listed d.listed
            (omega (
              arith,
              All_at _ idx.rules d.last d'.listed d'.matching,
              All_at _ idx.rules d'.last d.listed d.matching,
            )) in
        rw (← same) e
  ]

  pub evaluate_explicit_quiet :
      (idx : Index)
      → All (λ q. rule_matches subjects objects q ≡ false) idx.rules
      → evaluate_explicit idx subjects objects ≡ (deny, false)
  evaluate_explicit_quiet idx quiet = elim (evaluate_explicit-cases idx) [
    | inl (e, _) ↦ e
    | inr (s, d, e) ↦ cc (All_at _ idx.rules quiet d.listed, d.matching)
  ]

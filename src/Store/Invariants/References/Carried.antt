-- ===== src/Store/Invariants/References/Carried.antt =====
-- What a change of the tables of daemon/store leaves of the references, lemma by lemma.
use lightscale.Prelude.{
  ℕ, ◌≤◌, ◌≡◌, ◌⊎◌, inl, inr, String, Bool, true, false, not, List, ◌++◌, ◌==◌, nat_eq, string_eq,
  arith, Bool-cases, eq_of_==, any, keep, update, has, has-append, has-update_same, All, All-weaken,
  All-both, All-any, All-append, All-keep, keep_passes,
}
use lightscale.Prelude.Result.{ok}
use lightscale.Store.{ServicePort, Member, PolicyRule, Db}
use lightscale.Store.Groups.{is_member, insert_member}
use lightscale.Store.Ports.{PortInput, bad_protocol, bad_port}
use lightscale.Store.Policies.{assert_exists}
use lightscale.Store.Invariants.References.{
  RuleOk, RefersTo, References, Survives, assert_exists-Survives,
}

-- No row goes away.
abbrev pub Grows : Db → Db → Type 0
Grows db db' =
    ((i : ℕ) → has (λ u. u.id) i db.users ≡ true → has (λ u. u.id) i db'.users ≡ true)
    × ((i : ℕ) → has (λ g. g.id) i db.user_groups ≡ true → has (λ g. g.id) i db'.user_groups ≡ true)
    × ((i : ℕ) → has (λ s. s.id) i db.services ≡ true → has (λ s. s.id) i db'.services ≡ true)
    × ((i : ℕ)
        → has (λ g. g.id) i db.service_groups ≡ true
        → has (λ g. g.id) i db'.service_groups ≡ true)

pub has-append_old :
    {A : Type 0} (id : A → ℕ) (xs ys : List A) (i : ℕ)
    → has id i xs ≡ true
    → has id i (xs ++ ys) ≡ true
has-append_old id xs ys i h = ground (arith, has-append id i xs ys)

pub has-update_old :
    {A : Type 0} (id : A → ℕ) (p : A → Bool) (f : A → A) (same : (x : A) → id (f x) ≡ id x)
    (xs : List A) (i : ℕ)
    → has id i xs ≡ true
    → has id i (update p f xs) ≡ true
has-update_old id p f same xs i h = rw (has-update_same id f p i xs same) h

module _ (db db' : Db) (grows : Grows db db') where
  survives : (kind : String) (id : ℕ) → Survives db db' kind id
  survives kind id = record {
    user = λ _. grows.0 id;
    user_group = λ _. grows.1 id;
    service = λ _. grows.2 id;
    service_group = λ _. grows.3 id;
  }

  pub still_there :
      (kind : String) (id : ℕ)
      → assert_exists kind id db ≡ ok tt
      → assert_exists kind id db' ≡ ok tt
  still_there kind id = assert_exists-Survives db db' kind id (survives kind id)

  RuleOk-grows : (r : PolicyRule) → RuleOk db r → RuleOk db' r
  RuleOk-grows r (v, s, o) =
      (v, still_there r.subject_type r.subject_id s, still_there r.object_type r.object_id o)

  pub RefersTo-grows :
      (rules : List PolicyRule) (us ss : List Member) (ps : List ServicePort)
      → RefersTo db rules us ss ps
      → RefersTo db' rules us ss ps
  RefersTo-grows rules us ss ps (rs, um, sm, pm) = (
    All-weaken _ _ rules RuleOk-grows rs,
    All-weaken _ _ us (λ m h. (grows.0 m.member_id h.0, grows.1 m.group_id h.1)) um,
    All-weaken _ _ ss (λ m h. (grows.2 m.member_id h.0, grows.3 m.group_id h.1)) sm,
    All-weaken _ _ ps (λ p h. (grows.2 p.service_id h.0, h.1, h.2, h.3)) pm,
  )

-- the members that are left when a row is removed
module _ (db : Db) (id : ℕ) where
  pub kept_rules :
      (db' : Db) (p : PolicyRule → Bool)
      → ((r : PolicyRule) → RuleOk db r → p r ≡ false → RuleOk db' r)
      → any p db.policy_rules ≡ false
      → All (RuleOk db) db.policy_rules
      → All (RuleOk db') db.policy_rules
  kept_rules db' p f h rs =
      All-both (RuleOk db) (λ r. p r ≡ false) (RuleOk db') db.policy_rules f rs
        (All-any p db.policy_rules h)

  pub kept_members :
      {A : Type 0} (Before After : A → Type 0) (of_ : A → ℕ) (ms : List A)
      → ((m : A) → Before m → (of_ m == id) ≡ false → After m)
      → All Before ms
      → All After (keep (λ m. not (of_ m == id)) ms)
  kept_members Before After of_ ms f h =
      All-both Before (λ m. not (of_ m == id) ≡ true) After (keep (λ m. not (of_ m == id)) ms)
        (λ m b k. f m b (ground arith)) (All-keep Before _ ms h)
        (keep_passes (λ m. not (of_ m == id)) ms)

-- a change of the rules, the members, the ports or the settings alone
pub unmoved :
    (db db' : Db)
    → db'.users ≡ db.users
    → db'.user_groups ≡ db.user_groups
    → db'.services ≡ db.services
    → db'.service_groups ≡ db.service_groups
    → References db
    → RefersTo db' db.policy_rules db.user_group_members db.service_group_members db.service_ports
unmoved db db' u g s sg h =
    RefersTo-grows db db' (λ i m. rw u m, λ i m. rw g m, λ i m. rw s m, λ i m. rw sg m)
      db.policy_rules db.user_group_members db.service_group_members db.service_ports h

pub insert_member-All :
    (P : Member → Type 0) (member_id group_id : ℕ) (ms : List Member)
    → P (record { member_id = member_id; group_id = group_id })
    → All P ms
    → All P (insert_member member_id group_id ms)
insert_member-All P member_id group_id ms new h =
    elim (Bool-cases (any (is_member member_id group_id) ms)) [
      | inl e ↦ rw e h
      | inr e ↦ rw e (All-append P ms _ h (new, tt))
    ]

pub port_range : (p : PortInput) → bad_port p ≡ false → (1 ≤ p.port) × (p.port ≤ 65535)
port_range p h = (ground arith, ground arith)

pub known_protocol :
    (p : PortInput) → bad_protocol p ≡ false → (p.protocol ≡ "tcp") ⊎ (p.protocol ≡ "udp")
known_protocol p h = elim (Bool-cases (p.protocol == "tcp")) [
  | inl e ↦ inl (eq_of_== p.protocol "tcp" e)
  | inr e ↦ inr (eq_of_== p.protocol "udp" (ground arith))
]

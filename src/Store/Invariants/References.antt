-- ===== src/Store/Invariants/References.antt =====
-- References between the tables of daemon/store: rules, members and ports name rows that are there.
pub mod Rules
pub mod Carried
pub mod Kept
use lightscale.Prelude.{
  ℕ, ◌≤◌, ◌≡◌, ◌⊎◌, inl, inr, refl, String, Bool, true, false, ◌&&◌, ◌||◌, not, List, [], ◌∷◌, ◌++◌,
  ◌==◌, nat_eq, string_eq, if◌then◌else◌, arith, Bool-cases, eq_of_==, any, keep, update, has,
  has-append, has-update_same, All, All-weaken, All-both, All-any,
}
use lightscale.Prelude.Result.{Result, ok, err}
use lightscale.Store.{
  User, UserGroup, ServiceRow, ServiceGroup, ServicePort, Member, PolicyRule, Db, mentions, Error,
}
use lightscale.Store.Policies.{assert_exists, valid_subject, row_there}

-- The subject of the rule is a user or a user group, and it and the object are there.
abbrev pub RuleOk : Db → PolicyRule → Type 0
RuleOk db r =
    (valid_subject r.subject_type ≡ true)
    × (assert_exists r.subject_type r.subject_id db ≡ ok tt)
    × (assert_exists r.object_type r.object_id db ≡ ok tt)

abbrev pub UserMemberOk : Db → Member → Type 0
UserMemberOk db m =
    (has (λ u. u.id) m.member_id db.users ≡ true)
    × (has (λ g. g.id) m.group_id db.user_groups ≡ true)

abbrev pub ServiceMemberOk : Db → Member → Type 0
ServiceMemberOk db m =
    (has (λ s. s.id) m.member_id db.services ≡ true)
    × (has (λ g. g.id) m.group_id db.service_groups ≡ true)

-- The port is one of a service that is there, in range, and for TCP or UDP.
abbrev pub PortOk : Db → ServicePort → Type 0
PortOk db p =
    (has (λ s. s.id) p.service_id db.services ≡ true)
    × (1 ≤ p.port)
    × (p.port ≤ 65535)
    × ((p.protocol ≡ "tcp") ⊎ (p.protocol ≡ "udp"))

-- of the lists of rules, members and ports, with respect to the rows of `db`
abbrev pub RefersTo : Db → List PolicyRule → List Member → List Member → List ServicePort → Type 0
RefersTo db rules user_members service_members ports =
    All (RuleOk db) rules
    × All (UserMemberOk db) user_members
    × All (ServiceMemberOk db) service_members
    × All (PortOk db) ports

abbrev pub References : Db → Type 0
References db =
    RefersTo db db.policy_rules db.user_group_members db.service_group_members db.service_ports

-- If a row of the kind is there, it is there afterwards.
pub record Survives (db db' : Db) (kind : String) (id : ℕ) : Type 0 where
  pub user :
      kind ≡ "user" → has (λ u. u.id) id db.users ≡ true → has (λ u. u.id) id db'.users ≡ true
  pub user_group :
      kind ≡ "user_group"
      → has (λ g. g.id) id db.user_groups ≡ true
      → has (λ g. g.id) id db'.user_groups ≡ true
  pub service :
      kind ≡ "service"
      → has (λ s. s.id) id db.services ≡ true
      → has (λ s. s.id) id db'.services ≡ true
  pub service_group :
      kind ≡ "service_group"
      → has (λ g. g.id) id db.service_groups ≡ true
      → has (λ g. g.id) id db'.service_groups ≡ true

row_there_mono : (b c : Bool) → (b ≡ true → c ≡ true) → row_there b ≡ ok tt → row_there c ≡ ok tt
row_there_mono true c f h = rw (f refl) refl
row_there_mono false c f h = cc

pub assert_exists-Survives :
    (db db' : Db) (kind : String) (id : ℕ)
    → Survives db db' kind id
    → assert_exists kind id db ≡ ok tt
    → assert_exists kind id db' ≡ ok tt
unfolding assert_exists has
assert_exists-Survives db db' kind id s h = elim (Bool-cases (kind == "user")) [
  | inl a ↦ rw (a) (row_there_mono _ _ (s.user (eq_of_== kind "user" a)) (rw (a) at h))
  | inr a ↦ elim (Bool-cases (kind == "user_group")) [
    | inl b ↦
        rw (a, b)
          (row_there_mono _ _ (s.user_group (eq_of_== kind "user_group" b)) (rw (a, b) at h))
    | inr b ↦ elim (Bool-cases (kind == "service")) [
      | inl c ↦
          rw (a, b, c)
            (row_there_mono _ _ (s.service (eq_of_== kind "service" c)) (rw (a, b, c) at h))
      | inr c ↦ elim (Bool-cases (kind == "service_group")) [
        | inl d ↦
            rw (a, b, c, d)
              (row_there_mono _ _ (s.service_group (eq_of_== kind "service_group" d))
                (rw (a, b, c, d) at h))
        | inr d ↦ ground arith
      ]
    ]
  ]
]

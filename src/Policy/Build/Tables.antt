-- ===== src/Policy/Build/Tables.antt =====
-- What CheckService (daemon/policy/resolver.go) decides on the index that `Build`
-- (daemon/policy/index.go) makes, in terms of the tables of daemon/store.
pub mod Access
pub mod Ports
use lightscale.Prelude.{
  ℕ, String, ◌≡◌, refl, sym, ◌∙◌, ap, inl, inr, Bool, true, false, ◌&&◌, ◌||◌, Option, none, some,
  List, [], ◌∷◌, map, get, nat_eq, string_eq, ◌==◌, any, any-map, keep, In, Distinct, Distinct-map,
  In-map, arith, Bool-cases,
}
use lightscale.Store.{Member, PolicyRule, ServiceRow, Db, Store}
use lightscale.Store.Groups.{is_member}
use lightscale.Store.ServiceMembers.{service_group_ids_for_service}
use lightscale.Store.Services.{with_ports, list_services}
use lightscale.Store.Invariants.References.{References}
use lightscale.Policy.Resolver.{Ref, refs, slice_at, subject_set, service_object_set, matches_any}
use lightscale.Policy.Resolver.Evaluate.{rule_matches}
use lightscale.Policy.Build.{build, rule_snapshot}
use lightscale.Policy.Build.Filled.{build_lem, put_each, get-put_each}
use lightscale.Policy.Build.Joined.{holds, holds-groups_by_user}

-- The rule's subject is the user, or a group that the user is a member of.
abbrev pub names_user : Db → ℕ → String → ℕ → Bool
names_user db user_id type id =
    (("user" == type) && (user_id == id))
    || (("user_group" == type)
        && any (λ m. (m.member_id == user_id) && (m.group_id == id)) db.user_group_members)

-- The rule's object is the service, or a group that the service is a member of.
abbrev pub names_service : Db → ℕ → String → ℕ → Bool
names_service db service_id type id =
    (("service" == type) && (service_id == id))
    || (("service_group" == type)
        && any (λ m. (m.member_id == service_id) && (m.group_id == id)) db.service_group_members)

abbrev pub applies : Db → ℕ → ℕ → PolicyRule → Bool
applies db user_id service_id r =
    names_user db user_id r.subject_type r.subject_id
    && names_service db service_id r.object_type r.object_id

matches_any-refs :
    (kind type : String) (id : ℕ) (ids : List ℕ)
    → matches_any type id (refs kind ids) ≡ ((kind == type) && holds id ids)
unfolding matches_any refs any
matches_any-refs kind type id [] = ground arith
matches_any-refs kind type id (i ∷ ids) = ground (arith, matches_any-refs kind type id ids)

module _ (s : Store) (user_id : ℕ) where
  matches-subject_set :
      (type : String) (id : ℕ)
      → References s.db
      → matches_any type id (subject_set (build s) user_id) ≡ names_user s.db user_id type id
  unfolding matches_any subject_set any
  matches-subject_set type id whole =
      ap (λ b. (("user" == type) && (user_id == id)) || b)
        (matches_any-refs "user_group" type id (slice_at user_id (build s).groups_by_user)
          ∙ ap (λ b. ("user_group" == type) && b) (holds-groups_by_user user_id id s whole))

holds-group_ids :
    (service_id id : ℕ) (ms : List Member)
    → holds id (map (λ m. m.group_id) (keep (λ m. m.member_id == service_id) ms))
      ≡ any (is_member service_id id) ms
unfolding any keep
holds-group_ids service_id id [] = refl
holds-group_ids service_id id (m ∷ ms) = ground (arith, holds-group_ids service_id id ms)

module _ (s : Store) (t : ServiceRow) (there_ : In t s.db.services)
    (ids : Distinct (λ u. u.id) s.db.services) where
  service_groups_of :
      slice_at t.id (build s).groups_by_service ≡ service_group_ids_for_service s t.id
  unfolding list_services
  service_groups_of = rw (build_lem s) (
      ap (λ (o : Option (List ℕ)). elim o [ none ↦ [] | some gids ↦ gids ])
        (get-put_each (λ u. u.row.id) (λ u. service_group_ids_for_service s u.row.id)
          (map (with_ports s.db) s.db.services) []
          (Distinct-map (with_ports s.db) (λ u. u.row.id) s.db.services ids)
          (In-map (with_ports s.db) s.db.services there_)))

  matches-service_object_set :
      (type : String) (id : ℕ)
      → matches_any type id (service_object_set (build s) t.id) ≡ names_service s.db t.id type id
  unfolding matches_any service_object_set any service_group_ids_for_service
  matches-service_object_set type id =
      ap (λ b. (("service" == type) && (t.id == id)) || b)
        (matches_any-refs "service_group" type id (slice_at t.id (build s).groups_by_service)
          ∙ ap (λ ids. ("service_group" == type) && holds id ids) service_groups_of
          ∙ ap (λ b. ("service_group" == type) && b)
              (holds-group_ids t.id id s.db.service_group_members))

  -- A rule matches on the index exactly when it applies according to the tables.
  pub rule_matches-build :
      (user_id : ℕ) (r : PolicyRule)
      → References s.db
      → rule_matches
          (subject_set (build s) user_id)
          (service_object_set (build s) t.id)
          (rule_snapshot r)
        ≡ applies s.db user_id t.id r
  rule_matches-build user_id r whole =
      rw
        (
          matches-subject_set s user_id r.subject_type r.subject_id whole,
          matches-service_object_set r.object_type r.object_id,
        )
        refl

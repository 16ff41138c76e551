-- ===== src/Store/Invariants/Namespaces.antt =====
-- Names and addresses in daemon/store (namespace.go, checkIPAvailable, checkHostnameAvailable).
use lightscale.Prelude.{
  refl, String, List, nat_eq, string_eq, Distinct, Distinct-append_one, Distinct-keep,
  Distinct-update, Exclusive, Exclusive-swap, Exclusive-insert, Exclusive-keep,
  Exclusive-update_same, Exclusive-update,
}
use lightscale.Store.{Db}
use lightscale.Store.Users.{renamed}
use lightscale.Store.Groups.{group_renamed}
use lightscale.Store.ServiceGroups.{service_group_renamed}
use lightscale.Store.Services.{service_changed}
use lightscale.Store.Steps.{Step}
use lightscale.Store.Invariants.RowIds.{Ids}

-- A name is that of one user or user group at most, and of one service or service group at most; an
-- address is that of one user or service at most, a host name that of one service at most.
abbrev pub Names : Db → Type 0
Names db =
    Exclusive (λ u. u.name) (λ g. g.name) db.users db.user_groups
    × Exclusive (λ s. s.name) (λ g. g.name) db.services db.service_groups
    × Exclusive (λ u. u.ip_address) (λ s. s.ip_address) db.users db.services
    × Distinct (λ s. s.hostname) db.services

-- A statement about the second of two exclusive tables, read from the other side.
other_side :
    {A : Type 0} {B : Type 0} (ka : A → String) (kb : B → String) (xs : List A) (ys ys' : List B)
    → (Exclusive kb ka ys xs → Exclusive kb ka ys' xs)
    → Exclusive ka kb xs ys
    → Exclusive ka kb xs ys'
other_side ka kb xs ys ys' f h = Exclusive-swap kb ka ys' xs (f (Exclusive-swap ka kb xs ys h))

pub Step-Names : {db db' : Db} → Step db db' → Ids db → Names db → Names db'
Step-Names {db} (Step.user_added u next name_free group_free ip_free service_free) ids
      (p, o, a, h) =
    (
      Exclusive-insert (λ x. x.name) (λ g. g.name) db.users db.user_groups u name_free group_free p,
      o,
      Exclusive-insert (λ x. x.ip_address) (λ s. s.ip_address) db.users db.services u ip_free
          service_free a,
      h,
    )
Step-Names {db} (Step.user_changed id to unshared own) ids (p, o, a, h) = (
  Exclusive-update (λ x. x.name) (λ g. g.name) (λ x. x.id) (renamed to) id to.name (λ x. refl)
      db.users db.user_groups ids.0.0 unshared own p,
  o,
  Exclusive-update_same (λ x. x.ip_address) (λ s. s.ip_address) (renamed to) _ db.users db.services
      (λ x. refl) a,
  h,
)
Step-Names {db} (Step.user_removed id _) ids (p, o, a, h) = (
  Exclusive-keep (λ x. x.name) (λ g. g.name) _ db.users db.user_groups p,
  o,
  Exclusive-keep (λ x. x.ip_address) (λ s. s.ip_address) _ db.users db.services a,
  h,
)
Step-Names {db} (Step.group_added g next name_free user_free) ids (p, o, a, h) = (
  other_side (λ u. u.name) (λ x. x.name) db.users db.user_groups _
      (Exclusive-insert (λ x. x.name) (λ u. u.name) db.user_groups db.users g name_free user_free)
      p,
  o,
  a,
  h,
)
Step-Names {db} (Step.group_changed id to unshared own) ids (p, o, a, h) = (
  other_side (λ u. u.name) (λ x. x.name) db.users db.user_groups _
      (Exclusive-update (λ x. x.name) (λ u. u.name) (λ x. x.id) (group_renamed to) id to.name
        (λ x. refl) db.user_groups db.users ids.1.0 unshared own)
      p,
  o,
  a,
  h,
)
Step-Names {db} (Step.group_removed id _) ids (p, o, a, h) = (
  other_side (λ u. u.name) (λ x. x.name) db.users db.user_groups _
      (Exclusive-keep (λ x. x.name) (λ u. u.name) _ db.user_groups db.users) p,
  o,
  a,
  h,
)
Step-Names {db} (Step.service_added s next name_free group_free host_free ip_free user_free) ids
      (p, o, a, h) =
    (
      p,
      Exclusive-insert (λ x. x.name) (λ g. g.name) db.services db.service_groups s name_free
          group_free o,
      other_side (λ u. u.ip_address) (λ x. x.ip_address) db.users db.services _
          (Exclusive-insert (λ x. x.ip_address) (λ u. u.ip_address) db.services db.users s ip_free
            user_free)
          a,
      Distinct-append_one (λ x. x.hostname) db.services s h host_free,
    )
Step-Names {db} (Step.service_updated id to unshared unshared_host unshared_ip own own_ip) ids
      (p, o, a, h) =
    (
      p,
      Exclusive-update (λ x. x.name) (λ g. g.name) (λ x. x.id) (service_changed to) id to.name
          (λ x. refl) db.services db.service_groups ids.2.0 unshared own o,
      other_side (λ u. u.ip_address) (λ x. x.ip_address) db.users db.services _
          (Exclusive-update (λ x. x.ip_address) (λ u. u.ip_address) (λ x. x.id) (service_changed to)
            id to.ip_address (λ x. refl) db.services db.users ids.2.0 unshared_ip own_ip)
          a,
      Distinct-update (λ x. x.id) (λ x. x.hostname) (service_changed to) id to.hostname (λ x. refl)
          db.services ids.2.0 h unshared_host,
    )
Step-Names {db} (Step.service_removed id _) ids (p, o, a, h) = (
  p,
  Exclusive-keep (λ x. x.name) (λ g. g.name) _ db.services db.service_groups o,
  other_side (λ u. u.ip_address) (λ x. x.ip_address) db.users db.services _
      (Exclusive-keep (λ x. x.ip_address) (λ u. u.ip_address) _ db.services db.users) a,
  Distinct-keep (λ x. x.hostname) _ db.services h,
)
Step-Names {db} (Step.service_group_added g next name_free service_free) ids (p, o, a, h) = (
  p,
  other_side (λ s. s.name) (λ x. x.name) db.services db.service_groups _
      (Exclusive-insert (λ x. x.name) (λ s. s.name) db.service_groups db.services g name_free
        service_free)
      o,
  a,
  h,
)
Step-Names {db} (Step.service_group_changed id to unshared own) ids (p, o, a, h) = (
  p,
  other_side (λ s. s.name) (λ x. x.name) db.services db.service_groups _
      (Exclusive-update (λ x. x.name) (λ s. s.name) (λ x. x.id) (service_group_renamed to) id
        to.name (λ x. refl) db.service_groups db.services ids.3.0 unshared own)
      o,
  a,
  h,
)
Step-Names {db} (Step.service_group_removed id _) ids (p, o, a, h) = (
  p,
  other_side (λ s. s.name) (λ x. x.name) db.services db.service_groups _
      (Exclusive-keep (λ x. x.name) (λ s. s.name) _ db.service_groups db.services) o,
  a,
  h,
)
Step-Names {db} (Step.user_joined _ _ _ _) ids (p, o, a, h) = (p, o, a, h)
Step-Names {db} (Step.users_left _) ids (p, o, a, h) = (p, o, a, h)
Step-Names {db} (Step.service_joined _ _ _ _) ids (p, o, a, h) = (p, o, a, h)
Step-Names {db} (Step.services_left _) ids (p, o, a, h) = (p, o, a, h)
Step-Names {db} (Step.setting_set _ _) ids (p, o, a, h) = (p, o, a, h)
Step-Names {db} (Step.rules_dropped _) ids (p, o, a, h) = (p, o, a, h)
Step-Names {db} (Step.rule_added _ _ _ _ _ _) ids (p, o, a, h) = (p, o, a, h)
Step-Names {db} (Step.rule_set id action now) ids (p, o, a, h) = (p, o, a, h)
Step-Names {db} (Step.ports_cleared _) ids (p, o, a, h) = (p, o, a, h)
Step-Names {db} (Step.port_added _ _ _ _ _ _) ids (p, o, a, h) = (p, o, a, h)

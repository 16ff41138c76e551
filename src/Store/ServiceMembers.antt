-- ===== src/Store/ServiceMembers.antt =====
-- daemon/store/groups.go: the members of service groups.
use lightscale.Prelude.{ℕ, not, List, map, any, ◌==◌, nat_eq, keep}
use lightscale.Prelude.Result.{Result}
use lightscale.Store.{Store, Error, ChangeKind, Tx, query, exec, with_tx, ◌>>=◌}
use lightscale.Store.Groups.{is_member, insert_member}
use lightscale.Store.ServiceGroups.{service_group_by_id}
use lightscale.Store.Services.{Service, service_by_id, with_ports}

unfoldable pub add_service_tx : ℕ → ℕ → Tx (Unit {0})
add_service_tx group_id service_id = do
  _ ← query (service_group_by_id group_id)
  _ ← query (service_by_id service_id)
  exec (λ db. record db {
    service_group_members = insert_member service_id group_id db.service_group_members;
  })

unfoldable pub add_service_to_group : ℕ → ℕ → Store → Result Error (Unit {0}) × Store
unfolding add_service_tx
add_service_to_group group_id service_id s =
    with_tx ChangeKind.membership (add_service_tx group_id service_id) s

unfoldable pub remove_service_from_group : ℕ → ℕ → Store → Result Error (Unit {0}) × Store
remove_service_from_group group_id service_id s =
    with_tx ChangeKind.membership
      (exec (λ db. record db {
        service_group_members =
            keep (λ m. not (is_member service_id group_id m)) db.service_group_members;
      }))
      s

-- `WHERE id IN (SELECT service_id … WHERE group_id=?) ORDER BY id`
unfoldable pub service_group_members : Store → ℕ → List Service
service_group_members s group_id =
    map (with_ports s.db)
      (keep (λ t. any (is_member t.id group_id) s.db.service_group_members) s.db.services)

unfoldable pub service_group_ids_for_service : Store → ℕ → List ℕ
service_group_ids_for_service s service_id =
    map (λ m. m.group_id) (keep (λ m. m.member_id == service_id) s.db.service_group_members)

-- ===== src/Api/Names.antt =====
-- daemon/api/policies.go: the names by which a request speaks of users, services and groups.
pub mod Displayed
use lightscale.Prelude.{
  ℕ, String, Bool, true, false, ◌&&◌, not, Option, none, some, ◌==◌, nat_eq, string_eq,
  if◌then◌else◌,
}
use lightscale.Prelude.Result.{Result, ok, err}
use lightscale.Store.{
  User, UserGroup, ServiceGroup, Store, Error, not_found, name_taken, ip_in_use, port_conflict,
  invalid_input, constraint,
}
use lightscale.Store.Users.{get_user, get_user_by_name}
use lightscale.Store.Groups.{get_user_group, get_user_group_by_name}
use lightscale.Store.ServiceGroups.{get_service_group, get_service_group_by_name}
use lightscale.Store.Services.{Service, get_service, get_service_by_name}

-- `errors.Is(err, store.ErrNotFound)`
abbrev pub is_not_found : Error → Bool
is_not_found not_found = true
is_not_found _ = false

-- One of the lookups: the row that was found, an error, or the next lookup.
abbrev pub or_else :
    {A : Type 0}
    → Result Error A
    → (A → String × ℕ)
    → Result Error (String × ℕ)
    → Result Error (String × ℕ)
or_else (ok a) f rest = ok (f a)
or_else (err e) f rest = if is_not_found e then rest else err e

abbrev pub user_target : User → String × ℕ
user_target u = ("user", u.id)

abbrev pub group_target : UserGroup → String × ℕ
group_target g = ("user_group", g.id)

abbrev pub service_target : Service → String × ℕ
service_target v = ("service", v.row.id)

abbrev pub service_group_target : ServiceGroup → String × ℕ
service_group_target g = ("service_group", g.id)

-- the lookups of `resolveSubject`, which `resolveObject` makes last
unfoldable pub find_principal : Store → String → Result Error (String × ℕ)
find_principal st name =
    or_else (get_user_by_name st name) user_target
      (or_else (get_user_group_by_name st name) group_target (err not_found))

unfoldable pub find_object : Store → String → Result Error (String × ℕ)
unfolding find_principal
find_object st name =
    or_else (get_service_by_name st name) service_target
      (or_else (get_service_group_by_name st name) service_group_target (find_principal st name))

unfoldable pub resolve_subject : Store → String → ℕ → String → Result Error (String × ℕ)
unfolding find_principal
resolve_subject st t id name =
    if not (id == 0) && not (t == "")
    then ok (t, id)
    else if name == ""
    then err invalid_input
    else find_principal st name

unfoldable pub resolve_object : Store → String → ℕ → String → Result Error (String × ℕ)
unfolding find_object
resolve_object st t id name =
    if not (id == 0) && not (t == "")
    then ok (t, id)
    else if name == ""
    then err invalid_input
    else find_object st name

-- the name of the row, or the empty text with an error
abbrev pub name_of : {A : Type 0} → (A → String) → Result Error A → String
name_of name (ok a) = name a
name_of name (err e) = ""

-- The callers use the name and drop the error. `none` is the panic at a type that is no type of a
-- rule.
unfoldable pub name_for : Store → String → ℕ → Option String
name_for st t id =
    if t == "user"
    then some (name_of (λ u. u.name) (get_user st id))
    else if t == "user_group"
    then some (name_of (λ g. g.name) (get_user_group st id))
    else if t == "service"
    then some (name_of (λ v. v.row.name) (get_service st id))
    else if t == "service_group"
    then some (name_of (λ g. g.name) (get_service_group st id))
    else none

-- ===== src/Api/Policies.antt =====
-- daemon/api/policies.go: the handlers, and the lists of principals and objects of
-- daemon/api/server.go
pub mod Displayed
use lightscale.Prelude.{
  ℕ, String, Bool, Option, none, some, List, [], ◌∷◌, ◌++◌, map, ◌==◌, nat_eq, string_eq,
  if◌then◌else◌,
}
use lightscale.Prelude.Result.{Result, ok, err}
use lightscale.Store.{PolicyRule, Store, Error}
use lightscale.Store.Users
use lightscale.Store.Groups
use lightscale.Store.Services
use lightscale.Store.ServiceGroups
use lightscale.Store.Policies
use lightscale.Store.Policies.{CreatePolicyInput}
use lightscale.Api.{
  Env, Response, Handler, write_json, refusal, write_error, with_id, read_json, answer_empty, Body,
}
use lightscale.Api.Wire.{PolicyDto, CreatePolicyReq, PrincipalDto, ObjectDto}
use lightscale.Api.Names.{resolve_subject, resolve_object, name_for}

infixl 5 ◌>>=◌
abbrev pub ◌>>=◌ : {A B : Type 0} → Option A → (A → Option B) → Option B
none >>= f = none
some a >>= f = f a

-- what the middleware `Recoverer` answers after a panic
abbrev pub panicked : Response
panicked = write_json 500 Body.empty

-- the rule with the names of its subject and object; `none` for a panic
unfoldable pub to_policy_dto : Store → PolicyRule → Option PolicyDto
to_policy_dto st p = do
  subject_name ← name_for st p.subject_type p.subject_id
  object_name ← name_for st p.object_type p.object_id
  some (record {
    id = p.id;
    subject_type = p.subject_type;
    subject_id = p.subject_id;
    subject_name = subject_name;
    object_type = p.object_type;
    object_id = p.object_id;
    object_name = object_name;
    action = p.action;
    created_at = p.created_at;
    updated_at = p.updated_at;
  })

-- the loop of `listPolicies`
unfoldable pub policy_dtos : Store → List PolicyRule → Option (List PolicyDto)
policy_dtos st [] = some []
policy_dtos st (p ∷ ps) = do dto ← to_policy_dto st p; dtos ← policy_dtos st ps; some (dto ∷ dtos)

-- a value with the status, or the answer after a panic
abbrev pub or_panic : {A : Type 0} → ℕ → (A → Body) → Option A → Response
or_panic status body none = panicked
or_panic status body (some a) = write_json status (body a)

unfoldable pub list_policies : Handler
list_policies s = (or_panic 200 Body.policies (policy_dtos s (Policies.list_policies s)), s)

-- The names are looked up after the rule is in the store.
abbrev pub created : Result Error PolicyRule × Store → Response × Store
created (err e, s) = (write_error e, s)
created (ok rule, s) = (or_panic 201 Body.policy (to_policy_dto s rule), s)

abbrev pub policy_input : (String × ℕ) → (String × ℕ) → String → CreatePolicyInput
policy_input subject object action = record {
  subject_type = subject.0;
  subject_id = subject.1;
  object_type = object.0;
  object_id = object.1;
  action = action;
}

-- the early return for an error of one of the lookups
abbrev pub resolved : {A : Type 0} → Result Error A → (A → Handler) → Handler
resolved (err e) k s = (write_error e, s)
resolved (ok a) k s = k a s

unfoldable pub create_policy : Env → Option CreatePolicyReq → Handler
create_policy env body = read_json body (λ req s.
    resolved (resolve_subject s req.subject_type req.subject_id req.subject_name)
      (λ subject.
        resolved (resolve_object s req.object_type req.object_id req.object_name) (λ object s'.
          created (Policies.create_policy (policy_input subject object req.action) env.now s')))
      s)

unfoldable pub delete_policy : String → Handler
delete_policy raw = with_id raw (λ id s. answer_empty (Policies.delete_policy id s))

abbrev pub principal : String → ℕ → String → PrincipalDto
principal type id name = record { type = type; id = id; name = name }

unfoldable pub list_principals : Handler
list_principals s = (
  write_json 200 (
      Body.principals (
        map (λ u. principal "user" u.id u.name) (Users.list_users s)
        ++ map (λ g. principal "user_group" g.id g.name) (Groups.list_user_groups s))),
  s,
)

abbrev pub object : String → ℕ → String → ObjectDto
object type id name = record { type = type; id = id; name = name }

unfoldable pub list_objects : Handler
list_objects s = (
  write_json 200 (
      Body.objects (
        map (λ u. object "user" u.id u.name) (Users.list_users s)
        ++ map (λ g. object "user_group" g.id g.name) (Groups.list_user_groups s)
        ++ map (λ v. object "service" v.row.id v.row.name) (Services.list_services s)
        ++ map (λ g. object "service_group" g.id g.name) (ServiceGroups.list_service_groups s))),
  s,
)

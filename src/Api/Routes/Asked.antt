-- ===== src/Api/Routes/Asked.antt =====
-- Which write of daemon/store a request to daemon/api asks for: by the id of its path, its body, and
-- the rows that the body names. What is written of a user, a service or an update is both what the
-- handler's checks let pass and what the body gives, field by field.
use lightscale.Prelude.{ℕ, ◌≡◌, String, Option, some}
use lightscale.Prelude.Result.{ok}
use lightscale.Store.{User, ServiceRow, Store}
use lightscale.Store.Commands.{Command}
use lightscale.Store.Users.{CreateUserInput}
use lightscale.Store.Services.{CreateServiceInput, UpdateServiceInput}
use lightscale.Api.{Config, Env, parse_id}
use lightscale.Api.Wire.{
  CreateUserReq, UpdateUserReq, CreateServiceReq, UpdateServiceReq, CreateUserGroupReq,
  UpdateUserGroupReq, UserGroupMemberReq, CreateServiceGroupReq, UpdateServiceGroupReq,
  ServiceGroupMemberReq, CreatePolicyReq,
}
use lightscale.Api.Users.{prepare_user}
use lightscale.Api.Services.{prepare_service, prepare_update}
use lightscale.Api.Routes.{Request}
use lightscale.Api.Routes.Inputs.{
  UserAsked, ServiceAsked, UpdateAsked, MemberOf, Given, PrincipalOf, ObjectOf,
}

pub data Asks (cfg : Config) (env : Env) (s : Store) : Request → Command → Type 0 where
  create_user :
      (body : Option CreateUserReq) (req : CreateUserReq) (input : CreateUserInput)
      → body ≡ some req
      → prepare_user cfg env s req ≡ ok input
      → UserAsked cfg env s req input
      → Asks cfg env s (Request.create_user body) (Command.create_user input)
  update_user :
      (raw : String) (body : Option UpdateUserReq) (id : ℕ) (req : UpdateUserReq)
      → parse_id raw ≡ some id
      → body ≡ some req
      → Asks cfg env s (Request.update_user raw body) (
          Command.update_user id
            (record { name = req.name; email = req.email; endpoint = req.endpoint }))
  delete_user :
      (raw : String) (id : ℕ)
      → parse_id raw ≡ some id
      → Asks cfg env s (Request.delete_user raw) (Command.delete_user id)
  create_user_group :
      (body : Option CreateUserGroupReq) (req : CreateUserGroupReq)
      → body ≡ some req
      → Asks cfg env s
          (Request.create_user_group body)
          (Command.create_user_group req.name req.lan_mode)
  update_user_group :
      (raw : String) (body : Option UpdateUserGroupReq) (id : ℕ) (req : UpdateUserGroupReq)
      → parse_id raw ≡ some id
      → body ≡ some req
      → Asks cfg env s
          (Request.update_user_group raw body)
          (Command.update_user_group id (record { name = req.name; lan_mode = req.lan_mode }))
  delete_user_group :
      (raw : String) (id : ℕ)
      → parse_id raw ≡ some id
      → Asks cfg env s (Request.delete_user_group raw) (Command.delete_user_group id)
  add_user_group_member :
      (raw : String) (body : Option UserGroupMemberReq) (id uid : ℕ) (req : UserGroupMemberReq)
      → parse_id raw ≡ some id
      → body ≡ some req
      → MemberOf (λ (u : User). u.id) (λ u. u.name) s.db.users req.user_id req.user_name uid
      → Asks cfg env s (Request.add_user_group_member raw body) (Command.add_user_to_group id uid)
  remove_user_group_member :
      (raw : String) (raw_uid : String) (id uid : ℕ)
      → parse_id raw ≡ some id
      → parse_id raw_uid ≡ some uid
      → Asks cfg env s
          (Request.remove_user_group_member raw raw_uid)
          (Command.remove_user_from_group id uid)
  create_service :
      (body : Option CreateServiceReq) (req : CreateServiceReq) (input : CreateServiceInput)
      → body ≡ some req
      → prepare_service cfg s req ≡ ok input
      → ServiceAsked cfg s req input
      → Asks cfg env s (Request.create_service body) (Command.create_service input)
  update_service :
      (raw : String) (body : Option UpdateServiceReq) (id : ℕ) (req : UpdateServiceReq)
      (input : UpdateServiceInput)
      → parse_id raw ≡ some id
      → body ≡ some req
      → prepare_update s id req ≡ ok input
      → UpdateAsked s id req input
      → Asks cfg env s (Request.update_service raw body) (Command.update_service id input)
  delete_service :
      (raw : String) (id : ℕ)
      → parse_id raw ≡ some id
      → Asks cfg env s (Request.delete_service raw) (Command.delete_service id)
  create_service_group :
      (body : Option CreateServiceGroupReq) (req : CreateServiceGroupReq)
      → body ≡ some req
      → Asks cfg env s (Request.create_service_group body) (Command.create_service_group req.name)
  update_service_group :
      (raw : String) (body : Option UpdateServiceGroupReq) (id : ℕ) (req : UpdateServiceGroupReq)
      → parse_id raw ≡ some id
      → body ≡ some req
      → Asks cfg env s
          (Request.update_service_group raw body)
          (Command.update_service_group id req.name)
  delete_service_group :
      (raw : String) (id : ℕ)
      → parse_id raw ≡ some id
      → Asks cfg env s (Request.delete_service_group raw) (Command.delete_service_group id)
  add_service_group_member :
      (raw : String) (body : Option ServiceGroupMemberReq) (id sid : ℕ)
      (req : ServiceGroupMemberReq)
      → parse_id raw ≡ some id
      → body ≡ some req
      → MemberOf
          (λ (t : ServiceRow). t.id)
          (λ t. t.name)
          s.db.services
          req.service_id
          req.service_name
          sid
      → Asks cfg env s
          (Request.add_service_group_member raw body)
          (Command.add_service_to_group id sid)
  remove_service_group_member :
      (raw : String) (raw_sid : String) (id sid : ℕ)
      → parse_id raw ≡ some id
      → parse_id raw_sid ≡ some sid
      → Asks cfg env s
          (Request.remove_service_group_member raw raw_sid)
          (Command.remove_service_from_group id sid)
  create_policy :
      (body : Option CreatePolicyReq) (req : CreatePolicyReq) (subject object : String × ℕ)
      → body ≡ some req
      → Given (PrincipalOf s) req.subject_type req.subject_id req.subject_name subject
      → Given (ObjectOf s) req.object_type req.object_id req.object_name object
      → Asks cfg env s (Request.create_policy body) (
          Command.create_policy (record {
            subject_type = subject.0;
            subject_id = subject.1;
            object_type = object.0;
            object_id = object.1;
            action = req.action;
          }))
  delete_policy :
      (raw : String) (id : ℕ)
      → parse_id raw ≡ some id
      → Asks cfg env s (Request.delete_policy raw) (Command.delete_policy id)

-- The write passed the checks that the handler makes before it.
abbrev pub Checked : Config → Env → Store → Command → Type 0
Checked cfg env s (Command.create_user input) =
    (req : CreateUserReq) × (prepare_user cfg env s req ≡ ok input)
Checked cfg env s (Command.create_service input) =
    (req : CreateServiceReq) × (prepare_service cfg s req ≡ ok input)
Checked cfg env s (Command.update_service id input) =
    (req : UpdateServiceReq) × (prepare_update s id req ≡ ok input)
Checked cfg env s _ = Unit

pub Checked-of_Asks :
    (cfg : Config) (env : Env) (s : Store) (req : Request) (c : Command)
    → Asks cfg env s req c
    → Checked cfg env s c
Checked-of_Asks cfg env s _ _ (Asks.create_user body req input e f a) = (req, f)
Checked-of_Asks cfg env s _ _ (Asks.update_user raw body id req e f) = tt
Checked-of_Asks cfg env s _ _ (Asks.delete_user raw id e) = tt
Checked-of_Asks cfg env s _ _ (Asks.create_user_group body req e) = tt
Checked-of_Asks cfg env s _ _ (Asks.update_user_group raw body id req e f) = tt
Checked-of_Asks cfg env s _ _ (Asks.delete_user_group raw id e) = tt
Checked-of_Asks cfg env s _ _ (Asks.add_user_group_member raw body id uid req e f g) = tt
Checked-of_Asks cfg env s _ _ (Asks.remove_user_group_member raw raw_uid id uid e f) = tt
Checked-of_Asks cfg env s _ _ (Asks.create_service body req input e f a) = (req, f)
Checked-of_Asks cfg env s _ _ (Asks.update_service raw body id req input e f g a) = (req, g)
Checked-of_Asks cfg env s _ _ (Asks.delete_service raw id e) = tt
Checked-of_Asks cfg env s _ _ (Asks.create_service_group body req e) = tt
Checked-of_Asks cfg env s _ _ (Asks.update_service_group raw body id req e f) = tt
Checked-of_Asks cfg env s _ _ (Asks.delete_service_group raw id e) = tt
Checked-of_Asks cfg env s _ _ (Asks.add_service_group_member raw body id sid req e f g) = tt
Checked-of_Asks cfg env s _ _ (Asks.remove_service_group_member raw raw_sid id sid e f) = tt
Checked-of_Asks cfg env s _ _ (Asks.create_policy body req subject object e f g) = tt
Checked-of_Asks cfg env s _ _ (Asks.delete_policy raw id e) = tt

-- ===== src/Api/Routes/Effects.antt =====
-- What each request to daemon/api does to the store and answers.
use lightscale.Prelude.{ℕ, ◌≡◌, refl, sym, inl, inr, String, true, Option, none, some, arith}
use lightscale.Prelude.Result.{Result, ok, err}
use lightscale.Store.{Store, Error, PolicyRule}
use lightscale.Store.Commands.{Command, outcome, apply}
use lightscale.Api.{Config, Env, Handler, Body}
use lightscale.Api.Users.{prepare_user, user_body}
use lightscale.Api.Groups.{member_user, group_body}
use lightscale.Api.ServiceGroups.{member_service, service_group_body}
use lightscale.Api.Services.{prepare_service, prepare_update, service_body, OriginChecker}
use lightscale.Api.Users as UserApi
use lightscale.Api.Groups as GroupApi
use lightscale.Api.ServiceGroups as ServiceGroupApi
use lightscale.Api.Services as ServiceApi
use lightscale.Api.Policies as PolicyApi
use lightscale.Api.Names.{resolve_subject, resolve_object}
use lightscale.Api.Policies.{to_policy_dto, or_panic, created, policy_input, resolved}
use lightscale.Api.Policies.Displayed.{Given, Given-to_policy_dto, Created, create_policy-Created}
use lightscale.Api.Routes.{Request, serve, writes}
use lightscale.Api.Routes.Asked.{Asks}
use lightscale.Api.Routes.Inputs.Created.{prepare_user-UserAsked, prepare_service-ServiceAsked}
use lightscale.Api.Routes.Inputs.Updated.{prepare_update-UpdateAsked}
use lightscale.Api.Routes.Inputs.Found.{
  member_user-MemberOf, member_service-MemberOf, resolve_subject-Given, resolve_object-Given,
}
use lightscale.Api.Routes.Outcomes.{
  Served, answer-Served, with_id-Served, read_json-Served, prepared-Served, error_status-le,
}
use lightscale.Api.Routes.Prepared.{
  prepare_user-Refuses, member_user-Refuses, member_service-Refuses, prepare_service-Refuses,
  prepare_update-Refuses,
}

module _ (P : Command → Type 0) (now : String) (s : Store) where
  resolved-Served :
      {A : Type 0} (r : Result Error A) (k : A → Handler)
      → ((a : A) → r ≡ ok a → Served P now s (k a s))
      → Served P now s (resolved r k s)
  resolved-Served (ok a) k h = h a refl
  resolved-Served (err e) k h = inl (refl, error_status-le e)

  -- the status is small where there was no panic
  or_panic-status :
      {A : Type 0} (status : ℕ) (body : A → Body) (o : Option A)
      → Given o
      → (or_panic status body o).status ≡ status
  or_panic-status status body none h = absurd h
  or_panic-status status body (some a) h = refl

  created-Served :
      (c : Command) (out : Result Error PolicyRule × Store)
      → P c
      → Created out
      → outcome out ≡ apply c now s
      → Served P now s (created out)
  created-Served c (ok rule, s') allowed typed e =
      let p =
        or_panic-status 201 Body.policy (to_policy_dto s' rule)
          (Given-to_policy_dto s' rule typed) in
      inr (c, allowed, sym e, rw p (omega arith))
  created-Served c (err x, s') allowed typed e =
      answer-Served P now s c 201 (λ (r : PolicyRule). Body.empty) (err x, s') allowed (omega arith)
        e

-- A request that may write is refused with the status of an error and leaves the store as it was, or
-- it is answered with a status below 300 and did exactly one write of the store, the one that it asks
-- for, and that write succeeded.
pub serve-Served :
    (cfg : Config) (env : Env) (checker : Option OriginChecker) (req : Request) (s : Store)
    → writes req ≡ true
    → Served (Asks cfg env s req) env.now s (serve cfg env checker req s)
unfolding serve writes apply UserApi.create_user UserApi.update_user UserApi.delete_user
    GroupApi.create_user_group GroupApi.update_user_group GroupApi.delete_user_group
    GroupApi.add_user_group_member GroupApi.remove_user_group_member ServiceApi.create_service
    ServiceApi.update_service ServiceApi.delete_service ServiceGroupApi.create_service_group
    ServiceGroupApi.update_service_group ServiceGroupApi.delete_service_group
    ServiceGroupApi.add_service_group_member ServiceGroupApi.remove_service_group_member
    PolicyApi.create_policy PolicyApi.delete_policy
serve-Served cfg env checker (Request.create_user body) s w =
    let allowed = Asks cfg env s (Request.create_user body) in
    read_json-Served allowed env.now s body _ (λ req decoded.
      prepared-Served allowed env.now s (prepare_user cfg env s req) _
        (prepare_user-Refuses cfg env s req)
        (λ input passed.
          answer-Served allowed env.now s (Command.create_user input) 201 _ _
            (Asks.create_user body req input decoded passed
              (prepare_user-UserAsked cfg env s req input passed))
            (omega arith) refl))
serve-Served cfg env checker (Request.update_user raw body) s w =
    let allowed = Asks cfg env s (Request.update_user raw body) in
    with_id-Served allowed env.now s raw _ (λ id at.
      read_json-Served allowed env.now s body _ (λ req decoded.
        answer-Served allowed env.now s
          (Command.update_user id
            (record { name = req.name; email = req.email; endpoint = req.endpoint }))
          200 _ _ (Asks.update_user raw body id req at decoded) (omega arith) refl))
serve-Served cfg env checker (Request.delete_user raw) s w =
    let allowed = Asks cfg env s (Request.delete_user raw) in
    with_id-Served allowed env.now s raw _ (λ id at.
      answer-Served allowed env.now s (Command.delete_user id) 204 _ _ (Asks.delete_user raw id at)
        (omega arith) refl)
serve-Served cfg env checker (Request.create_user_group body) s w =
    let allowed = Asks cfg env s (Request.create_user_group body) in
    read_json-Served allowed env.now s body _ (λ req decoded.
      answer-Served allowed env.now s (Command.create_user_group req.name req.lan_mode) 201 _ _
        (Asks.create_user_group body req decoded) (omega arith) refl)
serve-Served cfg env checker (Request.update_user_group raw body) s w =
    let allowed = Asks cfg env s (Request.update_user_group raw body) in
    with_id-Served allowed env.now s raw _ (λ id at.
      read_json-Served allowed env.now s body _ (λ req decoded.
        answer-Served allowed env.now s
          (Command.update_user_group id (record { name = req.name; lan_mode = req.lan_mode })) 200 _
          _ (Asks.update_user_group raw body id req at decoded) (omega arith) refl))
serve-Served cfg env checker (Request.delete_user_group raw) s w =
    let allowed = Asks cfg env s (Request.delete_user_group raw) in
    with_id-Served allowed env.now s raw _ (λ id at.
      answer-Served allowed env.now s (Command.delete_user_group id) 204 _ _
        (Asks.delete_user_group raw id at) (omega arith) refl)
serve-Served cfg env checker (Request.add_user_group_member raw body) s w =
    let allowed = Asks cfg env s (Request.add_user_group_member raw body) in
    with_id-Served allowed env.now s raw _ (λ id at.
      read_json-Served allowed env.now s body _ (λ req decoded.
        prepared-Served allowed env.now s (member_user s req) _ (member_user-Refuses s req)
          (λ uid passed.
            answer-Served allowed env.now s (Command.add_user_to_group id uid) 204 _ _
              (Asks.add_user_group_member raw body id uid req at decoded
                (member_user-MemberOf s req uid passed))
              (omega arith) refl)))
serve-Served cfg env checker (Request.remove_user_group_member raw raw_uid) s w =
    let allowed = Asks cfg env s (Request.remove_user_group_member raw raw_uid) in
    with_id-Served allowed env.now s raw _ (λ id at.
      with_id-Served allowed env.now s raw_uid _ (λ uid at_uid.
        answer-Served allowed env.now s (Command.remove_user_from_group id uid) 204 _ _
          (Asks.remove_user_group_member raw raw_uid id uid at at_uid) (omega arith) refl))
serve-Served cfg env checker (Request.create_service body) s w =
    let allowed = Asks cfg env s (Request.create_service body) in
    read_json-Served allowed env.now s body _ (λ req decoded.
      prepared-Served allowed env.now s (prepare_service cfg s req) _
        (prepare_service-Refuses cfg s req)
        (λ input passed.
          answer-Served allowed env.now s (Command.create_service input) 201 _ _
            (Asks.create_service body req input decoded passed
              (prepare_service-ServiceAsked cfg s req input passed))
            (omega arith) refl))
serve-Served cfg env checker (Request.update_service raw body) s w =
    let allowed = Asks cfg env s (Request.update_service raw body) in
    with_id-Served allowed env.now s raw _ (λ id at.
      read_json-Served allowed env.now s body _ (λ req decoded.
        prepared-Served allowed env.now s (prepare_update s id req) _
          (prepare_update-Refuses s id req)
          (λ input passed.
            answer-Served allowed env.now s (Command.update_service id input) 200 _ _
              (Asks.update_service raw body id req input at decoded passed
                (prepare_update-UpdateAsked s id req input passed))
              (omega arith) refl)))
serve-Served cfg env checker (Request.delete_service raw) s w =
    let allowed = Asks cfg env s (Request.delete_service raw) in
    with_id-Served allowed env.now s raw _ (λ id at.
      answer-Served allowed env.now s (Command.delete_service id) 204 _ _
        (Asks.delete_service raw id at) (omega arith) refl)
serve-Served cfg env checker (Request.create_service_group body) s w =
    let allowed = Asks cfg env s (Request.create_service_group body) in
    read_json-Served allowed env.now s body _ (λ req decoded.
      answer-Served allowed env.now s (Command.create_service_group req.name) 201 _ _
        (Asks.create_service_group body req decoded) (omega arith) refl)
serve-Served cfg env checker (Request.update_service_group raw body) s w =
    let allowed = Asks cfg env s (Request.update_service_group raw body) in
    with_id-Served allowed env.now s raw _ (λ id at.
      read_json-Served allowed env.now s body _ (λ req decoded.
        answer-Served allowed env.now s (Command.update_service_group id req.name) 200 _ _
          (Asks.update_service_group raw body id req at decoded) (omega arith) refl))
serve-Served cfg env checker (Request.delete_service_group raw) s w =
    let allowed = Asks cfg env s (Request.delete_service_group raw) in
    with_id-Served allowed env.now s raw _ (λ id at.
      answer-Served allowed env.now s (Command.delete_service_group id) 204 _ _
        (Asks.delete_service_group raw id at) (omega arith) refl)
serve-Served cfg env checker (Request.add_service_group_member raw body) s w =
    let allowed = Asks cfg env s (Request.add_service_group_member raw body) in
    with_id-Served allowed env.now s raw _ (λ id at.
      read_json-Served allowed env.now s body _ (λ req decoded.
        prepared-Served allowed env.now s (member_service s req) _ (member_service-Refuses s req)
          (λ sid passed.
            answer-Served allowed env.now s (Command.add_service_to_group id sid) 204 _ _
              (Asks.add_service_group_member raw body id sid req at decoded
                (member_service-MemberOf s req sid passed))
              (omega arith) refl)))
serve-Served cfg env checker (Request.remove_service_group_member raw raw_sid) s w =
    let allowed = Asks cfg env s (Request.remove_service_group_member raw raw_sid) in
    with_id-Served allowed env.now s raw _ (λ id at.
      with_id-Served allowed env.now s raw_sid _ (λ sid at_sid.
        answer-Served allowed env.now s (Command.remove_service_from_group id sid) 204 _ _
          (Asks.remove_service_group_member raw raw_sid id sid at at_sid) (omega arith) refl))
serve-Served cfg env checker (Request.create_policy body) s w =
    let allowed = Asks cfg env s (Request.create_policy body) in
    read_json-Served allowed env.now s body _ (λ req decoded.
      resolved-Served allowed env.now s
        (resolve_subject s req.subject_type req.subject_id req.subject_name) _
        (λ subject named.
          resolved-Served allowed env.now s
            (resolve_object s req.object_type req.object_id req.object_name) _
            (λ object of.
              let input = policy_input subject object req.action in
              created-Served allowed env.now s (Command.create_policy input) _
                (Asks.create_policy body req subject object decoded
                  (resolve_subject-Given s req.subject_name req.subject_type req.subject_id subject
                    named)
                  (resolve_object-Given s req.object_name req.object_type req.object_id object of))
                (create_policy-Created input env.now s) refl)))
serve-Served cfg env checker (Request.delete_policy raw) s w =
    let allowed = Asks cfg env s (Request.delete_policy raw) in
    with_id-Served allowed env.now s raw _ (λ id at.
      answer-Served allowed env.now s (Command.delete_policy id) 204 _ _
        (Asks.delete_policy raw id at) (omega arith) refl)
serve-Served cfg env checker Request.health s w = absurd (cc w)
serve-Served cfg env checker Request.list_users s w = absurd (cc w)
serve-Served cfg env checker (Request.get_user a) s w = absurd (cc w)
serve-Served cfg env checker (Request.get_user_config a) s w = absurd (cc w)
serve-Served cfg env checker Request.list_user_groups s w = absurd (cc w)
serve-Served cfg env checker (Request.get_user_group a) s w = absurd (cc w)
serve-Served cfg env checker (Request.list_user_group_members a) s w = absurd (cc w)
serve-Served cfg env checker Request.list_services s w = absurd (cc w)
serve-Served cfg env checker (Request.get_service a) s w = absurd (cc w)
serve-Served cfg env checker (Request.check_service_origin a) s w = absurd (cc w)
serve-Served cfg env checker Request.list_service_groups s w = absurd (cc w)
serve-Served cfg env checker (Request.get_service_group a) s w = absurd (cc w)
serve-Served cfg env checker (Request.list_service_group_members a) s w = absurd (cc w)
serve-Served cfg env checker Request.list_policies s w = absurd (cc w)
serve-Served cfg env checker Request.list_principals s w = absurd (cc w)
serve-Served cfg env checker Request.list_objects s w = absurd (cc w)

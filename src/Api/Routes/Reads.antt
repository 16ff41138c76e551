-- ===== src/Api/Routes/Reads.antt =====
-- The requests to daemon/api that only read.
use lightscale.Prelude.{ℕ, ◌≡◌, refl, false, Option, none, some}
use lightscale.Prelude.Result.{Result, ok, err}
use lightscale.Store.{Store, Error}
use lightscale.Api.{Config, Env, Handler, Body, parse_id, given_id, answer}
use lightscale.Api.Services.{OriginChecker}
use lightscale.Api.Users as UserApi
use lightscale.Api.Groups as GroupApi
use lightscale.Api.ServiceGroups as ServiceGroupApi
use lightscale.Api.Services as ServiceApi
use lightscale.Api.Policies as PolicyApi
use lightscale.Api.ClientConf as ConfApi
use lightscale.Api.Routes.{Request, serve, writes, handle_health}

-- a handler that only reads, at an id
given_id-reads :
    (s : Store) (id : Option ℕ) (k : ℕ → Handler)
    → ((i : ℕ) → (k i s).1 ≡ s)
    → (given_id id k s).1 ≡ s
given_id-reads s none k h = refl
given_id-reads s (some i) k h = h i

answer-reads :
    {A : Type 0} (s : Store) (status : ℕ) (body : A → Body) (r : Result Error A)
    → (answer status body (r, s)).1 ≡ s
answer-reads s status body (ok a) = refl
answer-reads s status body (err e) = refl

-- Every other request leaves the store as it was.
pub serve_reads :
    (cfg : Config) (env : Env) (checker : Option OriginChecker) (req : Request) (s : Store)
    → writes req ≡ false
    → (serve cfg env checker req s).1 ≡ s
unfolding serve writes handle_health UserApi.list_users UserApi.get_user ConfApi.get_user_config
    GroupApi.list_user_groups GroupApi.get_user_group GroupApi.list_user_group_members
    ServiceApi.list_services ServiceApi.get_service ServiceApi.check_service_origin
    ServiceGroupApi.list_service_groups ServiceGroupApi.get_service_group
    ServiceGroupApi.list_service_group_members PolicyApi.list_policies PolicyApi.list_principals
    PolicyApi.list_objects
serve_reads cfg env checker Request.health s w = refl
serve_reads cfg env checker Request.list_users s w = refl
serve_reads cfg env checker (Request.create_user a) s w = absurd (cc w)
serve_reads cfg env checker (Request.get_user a) s w =
    given_id-reads s (parse_id a) _ (λ id. answer-reads s 200 _ _)
serve_reads cfg env checker (Request.update_user a b) s w = absurd (cc w)
serve_reads cfg env checker (Request.delete_user a) s w = absurd (cc w)
serve_reads cfg env checker (Request.get_user_config a) s w =
    given_id-reads s (parse_id a) _ (λ id. refl)
serve_reads cfg env checker Request.list_user_groups s w = refl
serve_reads cfg env checker (Request.create_user_group a) s w = absurd (cc w)
serve_reads cfg env checker (Request.get_user_group a) s w =
    given_id-reads s (parse_id a) _ (λ id. answer-reads s 200 _ _)
serve_reads cfg env checker (Request.update_user_group a b) s w = absurd (cc w)
serve_reads cfg env checker (Request.delete_user_group a) s w = absurd (cc w)
serve_reads cfg env checker (Request.list_user_group_members a) s w =
    given_id-reads s (parse_id a) _ (λ id. refl)
serve_reads cfg env checker (Request.add_user_group_member a b) s w = absurd (cc w)
serve_reads cfg env checker (Request.remove_user_group_member a b) s w = absurd (cc w)
serve_reads cfg env checker Request.list_services s w = refl
serve_reads cfg env checker (Request.create_service a) s w = absurd (cc w)
serve_reads cfg env checker (Request.get_service a) s w =
    given_id-reads s (parse_id a) _ (λ id. answer-reads s 200 _ _)
serve_reads cfg env checker (Request.update_service a b) s w = absurd (cc w)
serve_reads cfg env checker (Request.delete_service a) s w = absurd (cc w)
serve_reads cfg env checker (Request.check_service_origin a) s w =
    given_id-reads s (parse_id a) _ (λ id. answer-reads s 200 _ _)
serve_reads cfg env checker Request.list_service_groups s w = refl
serve_reads cfg env checker (Request.create_service_group a) s w = absurd (cc w)
serve_reads cfg env checker (Request.get_service_group a) s w =
    given_id-reads s (parse_id a) _ (λ id. answer-reads s 200 _ _)
serve_reads cfg env checker (Request.update_service_group a b) s w = absurd (cc w)
serve_reads cfg env checker (Request.delete_service_group a) s w = absurd (cc w)
serve_reads cfg env checker (Request.list_service_group_members a) s w =
    given_id-reads s (parse_id a) _ (λ id. refl)
serve_reads cfg env checker (Request.add_service_group_member a b) s w = absurd (cc w)
serve_reads cfg env checker (Request.remove_service_group_member a b) s w = absurd (cc w)
serve_reads cfg env checker Request.list_policies s w = refl
serve_reads cfg env checker (Request.create_policy a) s w = absurd (cc w)
serve_reads cfg env checker (Request.delete_policy a) s w = absurd (cc w)
serve_reads cfg env checker Request.list_principals s w = refl
serve_reads cfg env checker Request.list_objects s w = refl

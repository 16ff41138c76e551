-- ===== src/Proxy/Tests.antt =====
-- Runs of the resolver of daemon/proxy/resolver.go, and its theorems on them.
use lightscale.Prelude.{
  any, find_first, ℕ, ◌≡◌, refl, false, if◌then◌else◌, get, put, delete, none, some, List, [], ◌∷◌,
  ◌==◌, string_eq,
}
use lightscale.Prelude.Result.{ok}
use lightscale.Origin.{Spec, validate, check_spec, valid, safe_backend_ip, safe_backend_addr}
use lightscale.Origin.Text.{trim_space, to_lower}
use lightscale.Origin.Validation.{normal}
use lightscale.Netip.{
  is_loopback, is_link_local_unicast, is_link_local_multicast, is_multicast, is_unspecified,
}
use lightscale.Netip.Parse.{parse_addr}
use lightscale.Proxy.Sources.{Clean}
use lightscale.Docker.{
  Endpoint, Container, container_endpoints, matches_name, attached, insert, sorted, endpoints_of,
  preferred,
}
use lightscale.Proxy.Containers.{client_of, Reached, by_docker-Reached}
use lightscale.Proxy.{
  by_docker, World, Target, Docker, BackendResolver, new_resolver, resolve, invalidate,
  select_endpoint, cache_key, cached, store, select_from, resolve_kind, resolve_container,
}
use lightscale.Proxy.Select.{chosen, safe_of, select_endpoint_lem}
use lightscale.Proxy.History.{Obtained, Reach, resolve-Obtained}
use lightscale.Proxy.Forgotten.{resolve-invalidate}

abbrev web : Spec
web = record { kind = "container"; value = "web"; network = "backend" }

abbrev app : Spec
app = record { kind = "hostname"; value = "app.lan"; network = "" }

abbrev endpoints : List Endpoint
endpoints =
    record { network = "meta"; ip = "169.254.169.254"; shared = false }
    ∷ record { network = "front"; ip = "172.18.0.2"; shared = false }
    ∷ record { network = "back"; ip = "172.19.0.2"; shared = false }
    ∷ []

abbrev client : Docker
client name network = if name == "web" then some endpoints else none

-- one call at the given second: the second network answers
abbrev at : ℕ → World
at n = record {
  started = n;
  finished = n;
  lookup_host = λ host. if host == "app.lan" then some ("10.0.0.9" ∷ []) else none;
  probe = λ ip port. ip == "172.19.0.2";
}

abbrev back : Target
back = record {
  dial_host = "172.19.0.2";
  network = "back";
  detail = "runtime socket, probe confirmed";
}

abbrev fresh : BackendResolver
fresh = new_resolver (some client)

abbrev seen : BackendResolver
seen = (resolve (at 100) web 8080 "tcp" fresh).1

abbrev gone : World
gone = record {
  started = 109;
  finished = 109;
  lookup_host = λ host. none;
  probe = λ ip port. false;
}

probed : (resolve (at 100) web 8080 "tcp" fresh).0 ≡ ok back
unfolding resolve resolve_kind resolve_container select_endpoint select_from cached store
    new_resolver get put delete validate check_spec valid trim_space to_lower safe_backend_ip
    safe_backend_addr parse_addr is_loopback is_link_local_unicast is_link_local_multicast
    is_multicast is_unspecified
probed = refl

-- within ten seconds the answer of the cache
remembered_answer : (resolve gone web 8080 "tcp" seen).0 ≡ ok back
unfolding resolve resolve_kind resolve_container select_endpoint select_from cached store
    new_resolver get put delete validate check_spec valid trim_space to_lower safe_backend_ip
    safe_backend_addr parse_addr is_loopback is_link_local_unicast is_link_local_multicast
    is_multicast is_unspecified cache_key
remembered_answer = refl

Clean-web : Clean (normal web)
unfolding trim_space to_lower
Clean-web = (
  (refl, (refl, (refl, (refl, (refl, (refl, (refl, (refl, (refl, tt))))))))),
  (refl, (refl, (refl, tt))),
)

resolve-Obtained_example : Obtained (at 100 ∷ []) gone (normal web) back
resolve-Obtained_example =
    resolve-Obtained (at 100 ∷ []) seen gone web 8080 "tcp" back
      (Reach.resolved (Reach.created (some client)) (at 100) web 8080 "tcp" Clean-web) Clean-web
      remembered_answer

resolve-invalidate_example :
    (resolve gone web 8080 "tcp" (invalidate seen (normal web))).0
    ≡ (resolve gone web 8080 "tcp" (new_resolver seen.docker)).0
resolve-invalidate_example = resolve-invalidate gone web 8080 "tcp" seen

select_endpoint_example :
    select_endpoint (at 0).probe endpoints 8080 "tcp"
    ≡ chosen (at 0).probe 8080 "tcp" none (safe_of endpoints)
select_endpoint_example = select_endpoint_lem (at 0).probe endpoints 8080 "tcp"

abbrev running : List Container
running =
    record {
      names = "/web" ∷ [];
      network_settings = some (("front", some "172.18.0.2") ∷ ("backend", some "172.19.0.2") ∷ []);
    }
    ∷ []

abbrev reached_web : Target
reached_web = record {
  dial_host = "172.19.0.2";
  network = "backend";
  detail = "runtime socket, probe confirmed";
}

asked_runtime : by_docker (at 0) web 8080 "tcp" (some (client_of running [])) ≡ ok reached_web
unfolding container_endpoints matches_name any find_first attached insert sorted endpoints_of
    preferred select_endpoint select_from safe_backend_ip safe_backend_addr parse_addr is_loopback
    is_link_local_unicast is_link_local_multicast is_multicast is_unspecified
asked_runtime = refl

by_docker-Reached_example : Reached web running reached_web
by_docker-Reached_example =
    by_docker-Reached (at 0) web 8080 "tcp" running [] reached_web asked_runtime

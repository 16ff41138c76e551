-- ===== src/Docker/Tests.antt =====
-- The endpoints of a container in two networks.
use lightscale.Prelude.{◌≡◌, refl, true, false, some, [], ◌∷◌, any, find_first}
use lightscale.Prelude.Result.{ok}
use lightscale.Docker.{
  Container, Endpoint, container_endpoints, matches_name, attached, insert, sorted, endpoints_of,
  preferred,
}

abbrev web : Container
web = record {
  names = "/web" ∷ [];
  network_settings =
      some (("back", some "172.19.0.2") ∷ ("none", some "") ∷ ("front", some "172.18.0.2") ∷ []);
}

abbrev front : Endpoint
front = record { network = "front"; ip = "172.18.0.2"; shared = true }

abbrev back : Endpoint
back = record { network = "back"; ip = "172.19.0.2"; shared = false }

shared_first :
    container_endpoints (some (some (web ∷ []))) ("front" ∷ []) "web" "" ≡ ok (front ∷ back ∷ [])
unfolding container_endpoints matches_name any find_first attached insert sorted endpoints_of
    preferred
shared_first = refl

-- ===== src/Docker.antt =====
-- daemon/docker/client.go: the addresses of containers. What the container runtime answers is an
-- argument: the list of containers, `none` for an error, and the networks of the daemon's own
-- container. `sort.Slice` is an insertion sort here; the networks of a container have distinct names,
-- so that its result is the only sorted one.
pub mod Listed
mod Tests
use Prim.Native.Char.{Char, code}
use Prim.Native.String.{compare}
use text.Mathlib.Text.{is_lt}
use lightscale.Prelude.{
  ℕ, String, Bool, true, false, not, ◌&&◌, Option, none, some, List, [], ◌∷◌, any, has, ◌==◌,
  nat_eq, string_eq, if◌then◌else◌, Map, find_first,
}
use lightscale.Prelude.Result.{Result, ok, err}

pub record Endpoint : Type 0 where
  pub network : String
  pub ip : String
  pub shared : Bool

-- the networks of a container with its address in each, `none` for a nil pointer
abbrev pub Networks : Type 0
Networks = Map String (Option String)

-- what is read of a container in the runtime's answer
pub record Container : Type 0 where
  pub names : List String
  pub network_settings : Option Networks

pub data DockerError : Type 0 where
  not_configured container_not_found no_usable_address runtime_error : DockerError

-- `TrimPrefix` of "/"
abbrev pub trim_slash : String → String
trim_slash String.[] = ""
trim_slash (String.◌∷◌ c s) = if code c == 47 then s else String.◌∷◌ c s

unfoldable pub matches_name : List String → String → Bool
matches_name names target = any (λ n. trim_slash n == target) names

-- the loop of `endpointsOf`
unfoldable pub attached : List String → Networks → List Endpoint
attached self [] = []
attached self ((name, none) ∷ networks) = attached self networks
attached self ((name, some ip) ∷ networks) =
    let rest = attached self networks in
    if ip == ""
    then rest
    else (record { network = name; ip = ip; shared = any (λ n. n == name) self }) ∷ rest

-- the order that `endpointsOf` sorts by
abbrev pub before : Endpoint → Endpoint → Bool
before a b =
    if a.shared
    then (if b.shared then is_lt (compare a.network b.network) else true)
    else (if b.shared then false else is_lt (compare a.network b.network))

unfoldable pub insert : Endpoint → List Endpoint → List Endpoint
insert a [] = a ∷ []
insert a (b ∷ bs) = let rest = insert a bs in if before b a then b ∷ rest else a ∷ b ∷ bs

unfoldable pub sorted : List Endpoint → List Endpoint
unfolding insert
sorted [] = []
sorted (a ∷ eps) = insert a (sorted eps)

unfoldable pub endpoints_of : Option Networks → List String → List Endpoint
unfolding attached sorted
endpoints_of none self = []
endpoints_of (some networks) self = sorted (attached self networks)

-- the endpoints in the network that is asked for, or all, or an error if there is none
abbrev pub in_network : Option Endpoint → Result DockerError (List Endpoint)
in_network none = err no_usable_address
in_network (some ep) = ok (ep ∷ [])

abbrev pub some_of : List Endpoint → Result DockerError (List Endpoint)
some_of [] = err no_usable_address
some_of (ep ∷ eps) = ok (ep ∷ eps)

unfoldable pub preferred : String → List Endpoint → Result DockerError (List Endpoint)
preferred network eps =
    if not (network == "")
    then in_network (find_first (λ ep. ep.network == network) eps)
    else some_of eps

abbrev pub of_container :
    List String → String → Option Container → Result DockerError (List Endpoint)
of_container self network none = err container_not_found
of_container self network (some c) = preferred network (endpoints_of c.network_settings self)

abbrev pub of_answer :
    List String → String → String → Option (List Container) → Result DockerError (List Endpoint)
of_answer self name network none = err runtime_error
of_answer self name network (some containers) =
    of_container self network (find_first (λ c. matches_name c.names (trim_slash name)) containers)

-- `none` for a nil client
unfoldable pub container_endpoints :
    Option (Option (List Container))
    → List String
    → String
    → String
    → Result DockerError (List Endpoint)
unfolding matches_name endpoints_of preferred
container_endpoints none self name network = err not_configured
container_endpoints (some answer) self name network = of_answer self name network answer

-- the loop of `selfNetworks`
unfoldable pub self_networks : Networks → List String
self_networks [] = []
self_networks ((name, none) ∷ networks) = self_networks networks
self_networks ((name, some _) ∷ networks) = name ∷ self_networks networks

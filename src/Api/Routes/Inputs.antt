-- ===== src/Api/Routes/Inputs.antt =====
-- What the body of a request to daemon/api asks to be written, field by field: of the rows of
-- daemon/store, the libraries for addresses and ports, and the validation of an origin, and not of
-- the handlers.
pub mod Created
pub mod Updated
pub mod Found
use Prim.Native.String.{◌++◌}
use lightscale.Prelude.{ℕ, ◌≡◌, ◌≢◌, ◌⊎◌, String, true, Option, none, some, List, [], ◌∷◌, map, In}
use lightscale.Prelude.Result.{ok}
use lightscale.Origin.{Spec, validate}
use lightscale.IpAlloc.{allocate}
use lightscale.IpAlloc.Inside.{Inside}
use lightscale.Store.{User, UserGroup, ServiceRow, ServiceGroup, Store}
use lightscale.Store.Ports.{PortInput}
use lightscale.Store.Users.{CreateUserInput}
use lightscale.Store.Services.{CreateServiceInput, UpdateServiceInput}
use lightscale.Api.{Config, Env, Keypair}
use lightscale.Api.Wire.{
  CreateUserReq, CreateServiceReq, UpdateServiceReq, UserGroupMemberReq, ServiceGroupMemberReq,
}
use lightscale.Api.Ports.{parse_ports}

-- The address is the one that the request gives, which is in the subnet, or a free one.
abbrev pub AddressOf : String → String → List String → List String → String → Type 0
AddressOf subnet given taken reserved ip =
    ((given ≡ "") × (allocate subnet taken reserved ≡ ok ip))
    ⊎ ((given ≢ "") × (ip ≡ given) × Inside subnet given)

pub record UserAsked (cfg : Config) (env : Env) (s : Store) (req : CreateUserReq)
    (input : CreateUserInput) : Type 0 where
  pub keypair : Keypair
  pub generated : env.keypair ≡ some keypair
  pub has_name : req.name ≢ ""
  pub name : input.name ≡ req.name
  pub email : input.email ≡ req.email
  pub endpoint : input.endpoint ≡ req.endpoint
  pub public_key : input.public_key ≡ keypair.public_key
  pub private_key : input.private_key ≡ keypair.private_key
  pub preshared_key : env.preshared_key ≡ some input.preshared_key
  pub address :
      AddressOf cfg.client_subnet req.ip
        (map (λ u. u.ip_address) s.db.users)
        (cfg.server_ip ∷ [])
        input.ip_address

-- the host name of the request, or the name of the service in the domain
abbrev pub HostnameOf : Config → CreateServiceReq → String → Type 0
HostnameOf cfg req hostname =
    ((req.hostname ≢ "") × (hostname ≡ req.hostname))
    ⊎ ((req.hostname ≡ "") × (hostname ≡ req.name ++ "." ++ cfg.domain))

pub record ServiceAsked (cfg : Config) (s : Store) (req : CreateServiceReq)
    (input : CreateServiceInput) : Type 0 where
  pub has_name : req.name ≢ ""
  pub name : input.name ≡ req.name
  pub hostname : HostnameOf cfg req input.hostname
  pub origin :
      validate
        (record { kind = req.origin_kind; value = req.origin_value; network = req.origin_network })
      ≡ ok input.origin
  pub address :
      AddressOf cfg.service_subnet req.ip
        (map (λ t. t.ip_address) s.db.services)
        []
        input.ip_address
  pub description : input.description ≡ req.description
  pub ports : parse_ports req.ports ≡ ok input.ports
  pub host_ports : input.origin.kind ≡ "host" → input.ports ≢ []

-- the given text, or else the other one
abbrev pub OrElse : Option String → String → String → Type 0
OrElse given other text = (given ≡ some text) ⊎ ((given ≡ none) × (text ≡ other))

-- The origin with what the request gives in place of the current parts; with another kind than the
-- current one, what is not given is empty.
pub record Merged (req : UpdateServiceReq) (current new : Spec) : Type 0 where
  pub kind : OrElse req.origin_kind current.kind new.kind
  pub others :
      ((new.kind ≡ current.kind)
        × OrElse req.origin_value current.value new.value
        × OrElse req.origin_network current.network new.network)
      ⊎ ((new.kind ≢ current.kind)
          × OrElse req.origin_value "" new.value
          × OrElse req.origin_network "" new.network)

-- Nothing of the origin is given, and it stays as it is, or the merged one is valid.
abbrev pub OriginOf : Store → ℕ → UpdateServiceReq → Option Spec → Type 0
OriginOf s id req origin =
    ((req.origin_kind ≡ none)
      × (req.origin_value ≡ none)
      × (req.origin_network ≡ none)
      × (origin ≡ none))
    ⊎ ((row : ServiceRow) × (new : Spec) × (valid : Spec) × In row s.db.services
        × (row.id ≡ id)
        × Merged req row.origin new
        × (validate new ≡ ok valid)
        × (origin ≡ some valid))

-- the ports of the request, if it has some
abbrev pub PortsOf : Option String → Option (List PortInput) → Type 0
PortsOf given ports =
    ((given ≡ none) × (ports ≡ none))
    ⊎ ((text : String) × (ps : List PortInput) × (given ≡ some text)
        × (parse_ports text ≡ ok ps)
        × (ports ≡ some ps))

pub record UpdateAsked (s : Store) (id : ℕ) (req : UpdateServiceReq) (input : UpdateServiceInput)
    : Type 0 where
  pub name : input.name ≡ req.name
  pub hostname : input.hostname ≡ req.hostname
  pub address : input.ip_address ≡ req.ip
  pub description : input.description ≡ req.description
  pub ports : PortsOf req.ports input.ports
  pub origin : OriginOf s id req input.origin

-- The id is given, or it is that of the row with the given name.
abbrev pub MemberOf : {A : Type 0} → (A → ℕ) → (A → String) → List A → ℕ → String → ℕ → Type 0
MemberOf row_id row_name rows id name found =
    (found ≢ 0)
    × ((found ≡ id)
        ⊎ ((id ≡ 0) × ((row : _) × In row rows × (row_name row ≡ name) × (row_id row ≡ found))))

-- No row has the name.
abbrev pub Unnamed : {A : Type 0} → (A → String) → List A → String → Type 0
Unnamed row_name rows name = (row : _) → In row rows → row_name row ≢ name

-- The type and id of a user with the name, or of a user group if no user has it.
abbrev pub PrincipalOf : Store → String → String × ℕ → Type 0
PrincipalOf s name found =
    ((u : User) × In u s.db.users × (u.name ≡ name) × (found ≡ ("user", u.id)))
    ⊎ ((g : UserGroup) × In g s.db.user_groups
        × (g.name ≡ name)
        × Unnamed (λ (u : User). u.name) s.db.users name
        × (found ≡ ("user_group", g.id)))

-- The type and id of a service with the name, or of a service group if no service has it, or of a
-- user or user group if no service group has it either.
abbrev pub ObjectOf : Store → String → String × ℕ → Type 0
ObjectOf s name found =
    ((t : ServiceRow) × In t s.db.services × (t.name ≡ name) × (found ≡ ("service", t.id)))
    ⊎ (Unnamed (λ (t : ServiceRow). t.name) s.db.services name
        × (((g : ServiceGroup) × In g s.db.service_groups
              × (g.name ≡ name)
              × (found ≡ ("service_group", g.id)))
            ⊎ (Unnamed (λ (g : ServiceGroup). g.name) s.db.service_groups name
                × PrincipalOf s name found)))

-- The type and id are given, or they are those of what has the name.
abbrev pub Given : (String → String × ℕ → Type 0) → String → ℕ → String → String × ℕ → Type 0
Given By type id name found =
    ((id ≢ 0) × (type ≢ "") × (found ≡ (type, id))) ⊎ ((name ≢ "") × By name found)

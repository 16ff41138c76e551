-- ===== src/Docker/Listed.antt =====
-- The endpoints that ContainerEndpoints (daemon/docker/client.go) returns.
use mathlib.Core.Path.{subst}
use lightscale.Prelude.{
  ◌≡◌, ◌≢◌, refl, String, true, Option, none, some, List, [], ◌∷◌, ◌==◌, string_eq, find_first,
  find_first_passes, In_of_find_first, All, All_at, All-weaken, In, here, there, arith, Bool-cases,
  Option-cases, inl, inr, eq_of_==, ==_of_eq,
}
use lightscale.Prelude.Result.{ok}
use lightscale.Docker.{
  Endpoint, Networks, Container, trim_slash, matches_name, attached, before, insert, sorted,
  endpoints_of, in_network, some_of, preferred, container_endpoints,
}

-- an endpoint of one of the networks, with an address
abbrev pub Attached : Networks → Endpoint → Type 0
Attached networks ep = In (ep.network, some ep.ip) networks × (ep.ip ≢ "")

attached-Attached :
    (self : List String) (networks : Networks) → All (Attached networks) (attached self networks)
unfolding attached
attached-Attached self [] = tt
attached-Attached self ((name, none) ∷ networks) =
    All-weaken _ _ _ (λ ep h. (there h.0, h.1)) (attached-Attached self networks)
attached-Attached self ((name, some ip) ∷ networks) =
    let rest =
      All-weaken (Attached networks) (Attached ((name, some ip) ∷ networks))
        (attached self networks) (λ ep h. (there h.0, h.1)) (attached-Attached self networks) in
    elim (Bool-cases (ip == "")) [
      | inl e ↦ rw e rest
      | inr e ↦ rw e ((here refl, λ z. cc (e, ==_of_eq ip "" z)), rest)
    ]

module _ (P : Endpoint → Type 0) where
  All-insert : (a : Endpoint) (bs : List Endpoint) → P a → All P bs → All P (insert a bs)
  unfolding insert
  All-insert a [] h hs = (h, tt)
  All-insert a (b ∷ bs) h hs = elim (Bool-cases (before b a)) [
    | inl e ↦ rw e (hs.0, All-insert a bs h hs.1)
    | inr e ↦ rw e (h, hs)
  ]

  All-sorted : (eps : List Endpoint) → All P eps → All P (sorted eps)
  unfolding sorted
  All-sorted [] h = tt
  All-sorted (a ∷ eps) h = All-insert a (sorted eps) h.0 (All-sorted eps h.1)

-- What is returned is of a container of that name, which is attached to each network with the
-- address, and is not empty; a network that is asked for is the only one.
pub record Listed (name network : String) (containers : List Container) (eps : List Endpoint)
    : Type 0 where
  pub container : Container
  pub networks : Networks
  pub listed : In container containers
  pub named : matches_name container.names (trim_slash name) ≡ true
  pub settings : container.network_settings ≡ some networks
  pub attached_to : All (Attached networks) eps
  pub asked : network ≢ "" → All (λ ep. ep.network ≡ network) eps
  pub not_empty : eps ≢ []

endpoints_of-Attached :
    (networks : Networks) (self : List String)
    → All (Attached networks) (endpoints_of (some networks) self)
unfolding endpoints_of
endpoints_of-Attached networks self =
    All-sorted (Attached networks) (attached self networks) (attached-Attached self networks)

module _ (P : Endpoint → Type 0) (network : String) where
  -- the properties of what `preferred` returns
  abbrev Fitting : List Endpoint → Type 0
  Fitting out = All P out × (network ≢ "" → All (λ ep. ep.network ≡ network) out) × (out ≢ [])

  Fitting-some_of :
      (eps out : List Endpoint) → network ≡ "" → All P eps → some_of eps ≡ ok out → Fitting out
  Fitting-some_of [] out q h e = cc e
  Fitting-some_of (ep ∷ eps) out q h e =
      let same : ep ∷ eps ≡ out = cc e in subst Fitting same (h, (λ n. elim (n q) [ ]), (λ z. cc z))

  Fitting-in_network :
      (ep : Endpoint) (out : List Endpoint)
      → P ep
      → ep.network ≡ network
      → in_network (some ep) ≡ ok out
      → Fitting out
  Fitting-in_network ep out h q e =
      let same : ep ∷ [] ≡ out = cc e in subst Fitting same ((h, tt), (λ n. (q, tt)), (λ z. cc z))

  Fitting-preferred :
      (eps out : List Endpoint) → All P eps → preferred network eps ≡ ok out → Fitting out
  unfolding preferred
  Fitting-preferred eps out h e = elim (Bool-cases (network == "")) [
    | inl q ↦ Fitting-some_of eps out (eq_of_== network "" q) h (rw q at e)
    | inr q ↦ elim (Option-cases (find_first (λ ep. ep.network == network) eps)) [
      | inl n ↦ ground arith
      | inr (ep, n) ↦
          Fitting-in_network ep out (All_at P eps h (In_of_find_first _ eps n))
            (eq_of_== ep.network network (find_first_passes _ eps n)) (rw (q, n) at e)
    ]
  ]

unattached :
    (self : List String) (network : String) (out : List Endpoint)
    → preferred network (endpoints_of none self) ≢ ok out
unfolding preferred endpoints_of find_first
unattached self network out e = elim (Bool-cases (network == "")) [
  | inl q ↦ cc (rw q at e)
  | inr q ↦ cc (rw q at e)
]

of_settings :
    (self : List String) (name network : String) (containers : List Container) (c : Container)
    (o : Option Networks) (out : List Endpoint)
    → In c containers
    → matches_name c.names (trim_slash name) ≡ true
    → c.network_settings ≡ o
    → preferred network (endpoints_of o self) ≡ ok out
    → Listed name network containers out
of_settings self name network containers c none out m n o e =
    elim (unattached self network out e) [ ]
of_settings self name network containers c (some networks) out m n o e =
    let (attached_to, asked, not_empty) =
      Fitting-preferred (Attached networks) network (endpoints_of (some networks) self) out
        (endpoints_of-Attached networks self) e in
    record {
      container = c;
      networks = networks;
      listed = m;
      named = n;
      settings = o;
      attached_to = attached_to;
      asked = asked;
      not_empty = not_empty;
    }

-- ContainerEndpoints returns endpoints of one container of the runtime's list that has the name, with
-- the networks that it is attached to and its address in each; if a network is asked for, only one in
-- that network; and at least one.
pub container_endpoints-Listed :
    (containers : List Container) (self : List String) (name network : String) (out : List Endpoint)
    → container_endpoints (some (some containers)) self name network ≡ ok out
    → Listed name network containers out
unfolding container_endpoints
container_endpoints-Listed containers self name network out h =
    elim (Option-cases (find_first (λ c. matches_name c.names (trim_slash name)) containers)) [
      | inl e ↦ cc (rw e at h)
      | inr (c, e) ↦
          of_settings self name network containers c c.network_settings out
            (In_of_find_first _ containers e) (find_first_passes _ containers e) refl (rw e at h)
    ]

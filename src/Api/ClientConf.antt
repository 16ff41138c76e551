-- ===== src/Api/ClientConf.antt =====
-- daemon/api/wgconf.go, and `getUserConfig` of daemon/api/users.go
use Prim.Native.String.{◌++◌}
use lightscale.Prelude.{
  String, Option, none, some, List, [], ◌∷◌, map, keep, not, ◌==◌, string_eq, if◌then◌else◌,
}
use mathlib.Core.List
use lightscale.Prelude.Result.{Result, ok, err}
use lightscale.Origin.Text.{trim_space}
use lightscale.Strings.{cut, join}
use lightscale.Store.{User, Store, Error, not_found}
use lightscale.Store.Users
use lightscale.Store.Settings.{get_setting}
use lightscale.Api.{Config, Response, Handler, write_json, refusal, write_error, with_id, Body}

-- The configuration is its lines so far, the last one at the end.
abbrev pub WgConf : Type 0
WgConf = List String

abbrev pub section : String → WgConf → WgConf
section name [] = ("[" ++ name ++ "]") ∷ []
section name (l ∷ ls) = List.◌++◌ (l ∷ ls) ("" ∷ ("[" ++ name ++ "]") ∷ [])

abbrev pub add_line : String → String → WgConf → WgConf
add_line key value lines =
    if value == "" then lines else List.◌++◌ lines ((key ++ " = " ++ value) ∷ [])

unfoldable pub join_dns : List String → String
join_dns dns = join (keep (λ s. not (s == "")) (map trim_space dns)) ", "

-- the part after the first slash
abbrev mask_of : Option (String × String) → String
mask_of none = "23"
mask_of (some (before, after)) = after

unfoldable pub conf_lines : User → String → String → String → List String → WgConf
unfolding join_dns
conf_lines u server_pub_key endpoint full_subnet dns =
    let mask = mask_of (cut 47 full_subnet) in
    let c0 = section "Interface" [] in
    let c1 = add_line "PrivateKey" u.private_key c0 in
    let c2 = add_line "Address" (u.ip_address ++ "/" ++ mask) c1 in
    let c3 = add_line "DNS" (join_dns dns) c2 in
    let c4 = section "Peer" c3 in
    let c5 = add_line "PublicKey" server_pub_key c4 in
    let c6 = add_line "PresharedKey" u.preshared_key c5 in
    let c7 = add_line "AllowedIPs" full_subnet c6 in
    let c8 = add_line "Endpoint" endpoint c7 in add_line "PersistentKeepalive" "25" c8

unfoldable pub render_client_conf : User → String → String → String → List String → String
unfolding conf_lines
render_client_conf u server_pub_key endpoint full_subnet dns =
    join (conf_lines u server_pub_key endpoint full_subnet dns) "\n" ++ "\n"

-- the endpoint of the user, or else the one of the daemon
abbrev endpoint_of : Config → User → String
endpoint_of cfg u = if u.endpoint == "" then cfg.public_endpoint else u.endpoint

-- the answer, once the endpoint is known
abbrev conf_with : Config → User → String → Result Error String → Response
conf_with cfg u endpoint (ok server_pub) =
    write_json 200 (Body.text (render_client_conf u server_pub endpoint cfg.subnet cfg.dns))
conf_with cfg u endpoint (err e) = elim e [ not_found ↦ refusal 503 | other ↦ write_error other ]

abbrev conf_response : Config → Store → Result Error User → Response
conf_response cfg s (err e) = write_error e
conf_response cfg s (ok u) =
    if endpoint_of cfg u == ""
    then refusal 503
    else conf_with cfg u (endpoint_of cfg u) (get_setting s "server_public_key")

unfoldable pub get_user_config : Config → String → Handler
unfolding render_client_conf
get_user_config cfg raw = with_id raw (λ id s. (conf_response cfg s (Users.get_user s id), s))

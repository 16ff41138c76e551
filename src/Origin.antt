-- ===== src/Origin.antt =====
-- shared/origin/origin.go: where the backend of a service is, and which backends are refused.
-- The text of an error is not modelled, only which check fails.
pub mod Text
pub mod Validation
mod Tests
use Prim.Native.String.{◌++◌}
use lightscale.Prelude.{
  String, Bool, true, false, ◌&&◌, ◌||◌, not, Option, none, some, ◌==◌, string_eq, if◌then◌else◌,
}
use lightscale.Prelude.Result.{Result, ok, err, ◌>>=◌, ◌>>◌}
use lightscale.Netip.{
  Addr, is_loopback, is_link_local_unicast, is_link_local_multicast, is_unspecified, is_multicast,
}
use lightscale.Netip.Parse.{parse_addr}
use Text.{trim_space, to_lower}

-- The source's `Kind` is a string type.
pub record Spec : Type 0 where
  pub kind : String
  pub value : String
  pub network : String

pub data OriginError : Type 0 where
  unknown_kind misplaced_network host_value value_missing bad_ip : OriginError
  loopback link_local unspecified multicast unparseable : OriginError

unfoldable pub valid : String → Bool
valid k = k == "host" || k == "container" || k == "ip" || k == "hostname"

-- the method `String`
pub spec_text : Spec → String
spec_text s = if s.kind == "host" then "host" else s.kind ++ ":" ++ s.value

unfoldable pub safe_backend_addr : Addr → Result OriginError (Unit {0})
safe_backend_addr addr =
    if is_loopback addr
    then err loopback
    else if is_link_local_unicast addr || is_link_local_multicast addr
    then err link_local
    else if is_unspecified addr
    then err unspecified
    else if is_multicast addr
    then err multicast
    else ok tt

unfoldable pub safe_backend_ip : String → Result OriginError (Unit {0})
safe_backend_ip ip = elim (parse_addr ip) [
  | none ↦ err unparseable
  | some addr ↦ safe_backend_addr addr
]

-- the checks of `Validate` on the trimmed spec
unfoldable pub check_spec : Spec → Result OriginError Spec
check_spec s =
    if not (valid s.kind)
    then err unknown_kind
    else if not (s.network == "") && not (s.kind == "container")
    then err misplaced_network
    else if s.kind == "host"
    then (if not (s.value == "") then err host_value else ok s)
    else if s.value == ""
    then err value_missing
    else if s.kind == "ip"
    then elim (parse_addr s.value) [
      | none ↦ err bad_ip
      | some addr ↦ (do safe_backend_addr addr; ok s)
    ]
    else ok s

unfoldable pub validate : Spec → Result OriginError Spec
unfolding valid safe_backend_addr check_spec
validate s = check_spec (record {
  kind = to_lower (trim_space s.kind);
  value = trim_space s.value;
  network = trim_space s.network;
})

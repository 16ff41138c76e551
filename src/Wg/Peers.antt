-- ===== src/Wg/Peers.antt =====
-- daemon/wg/server.go: the peers that the WireGuard device is told of. The decoding and encoding of
-- keys (encoding/base64, encoding/hex) and the device are parameters; a configuration is a list of
-- lines. A Go map without values is the list of its keys.
pub mod Wanted
pub mod Tracked
mod Tests
use Prim.Native.String.{◌++◌}
use lightscale.Prelude.{
  ℕ, String, Bool, true, false, Option, none, some, List, [], ◌∷◌, ◌++◌ as append, ◌==◌, nat_eq,
  string_eq, if◌then◌else◌, Map, get, put, length, has,
}
use lightscale.Policy.{Index, UserSnapshot}

-- a line of what is given to `IpcSet`
pub data Line : Type 0 where
  public_key : String → Line
  preshared_key : String → Line
  allowed_ip : String → Line
  remove : Line

module _ (decode : String → Option (List ℕ)) (encode : List ℕ → String) where
  abbrev of_length : Option (List ℕ) → Option String
  of_length none = none
  of_length (some raw) = if length raw == 32 then some (encode raw) else none

  unfoldable pub base64_to_hex : String → Option String
  base64_to_hex b = of_length (decode b)

  -- the loop over UserByID
  abbrev pub with_user :
      UserSnapshot → Option String → Map String UserSnapshot → Map String UserSnapshot
  with_user u none want = want
  with_user u (some hex_key) want = put hex_key u want

  unfoldable pub wanted_from :
      Map ℕ UserSnapshot → Map String UserSnapshot → Map String UserSnapshot
  wanted_from [] want = want
  wanted_from ((_, u) ∷ users) want =
      wanted_from users
        (if u.public_key == "" then want else with_user u (base64_to_hex u.public_key) want)

  unfoldable pub wanted : Index → Map String UserSnapshot
  unfolding wanted_from
  wanted idx = wanted_from idx.user_by_id []

  -- the loop over the peers that the server has
  unfoldable pub drop_gone : Map String UserSnapshot → List String → List String × List Line
  drop_gone want [] = ([], [])
  drop_gone want (hex_key ∷ peers) =
      let (left, lines) = drop_gone want peers in
      if has (λ x. x.0) hex_key want
      then (hex_key ∷ left, lines)
      else (left, public_key hex_key ∷ remove ∷ lines)

  -- the preshared key of a user: none, or as it is decoded
  abbrev pub psk : UserSnapshot → Option (Option String)
  psk u =
      if u.preshared_key == ""
      then some none
      else elim (base64_to_hex u.preshared_key) [ none ↦ none | some hex ↦ some (some hex) ]

  abbrev pub psk_line : Option String → List Line → List Line
  psk_line none lines = lines
  psk_line (some hex) lines = preshared_key hex ∷ lines

  -- the body of the loop over `want`, for a peer that is new: what follows if its key is decoded, and
  -- what follows if not
  abbrev pub added :
      String
      → UserSnapshot
      → Option (Option String)
      → List String × List Line
      → List String × List Line
      → List String × List Line
  added hex_key u none tracked (peers, lines) = (peers, public_key hex_key ∷ lines)
  added hex_key u (some key) (peers, lines) untracked =
      (peers, public_key hex_key ∷ psk_line key (allowed_ip (u.ip_address ++ "/32") ∷ lines))

  -- the loop over `want`
  unfoldable pub add_new : Map String UserSnapshot → List String → List String × List Line
  add_new [] peers = (peers, [])
  add_new ((hex_key, u) ∷ want) peers =
      let rest = add_new want peers in
      let tracked = add_new want (hex_key ∷ peers) in
      if has (λ k. k) hex_key peers then rest else added hex_key u (psk u) tracked rest

  module _ {D : Type 0} (ipc_set : List Line → D → Bool × D) where
    -- `IpcSet`, if there is a line
    abbrev pub configured : List String → List Line → D → Bool × List String × D
    configured peers [] dev = (true, peers, dev)
    configured peers (line ∷ lines) dev =
        let (done, dev') = ipc_set (line ∷ lines) dev in (done, peers, dev')

    -- whether there was no error, the peers that the server has then, and the device
    unfoldable pub apply_peers : Option Index → List String → D → Bool × List String × D
    unfolding wanted drop_gone add_new
    apply_peers none peers dev = (true, peers, dev)
    apply_peers (some idx) peers dev =
        let want = wanted idx in
        let (left, removals) = drop_gone want peers in
        let (now, additions) = add_new want left in configured now (append removals additions) dev

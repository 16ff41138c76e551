-- ===== src/Wg/Peers/Tests.antt =====
-- The peers that daemon/wg/server.go makes of a small network.
use lightscale.Prelude.{
  ℕ, ◌≡◌, ◌↔◌, refl, Bool, true, false, String, Option, some, List, [], ◌∷◌, ◌==◌, string_eq,
  nat_eq, if◌then◌else◌, put, delete, has, any,
}
use lightscale.Policy.Sample.{office}
use lightscale.Wg.Peers.{
  Line, base64_to_hex, wanted, wanted_from, drop_gone, add_new, apply_peers, allowed_ip, public_key,
  preshared_key, remove,
}
use lightscale.Wg.Peers.Wanted.{Owner}
use lightscale.Wg.Peers.Tracked.{Usable, tracks, peers_after, apply_peers-Owner, apply_peers_again}

-- 32 bytes, the first of them given
abbrev key_of : ℕ → List ℕ
key_of n =
    n ∷ 0 ∷ 0 ∷ 0 ∷ 0 ∷ 0 ∷ 0 ∷ 0 ∷ 0 ∷ 0 ∷ 0 ∷ 0 ∷ 0 ∷ 0 ∷ 0 ∷ 0 ∷ 0 ∷ 0 ∷ 0 ∷ 0 ∷ 0 ∷ 0 ∷ 0 ∷ 0
    ∷ 0 ∷ 0 ∷ 0 ∷ 0 ∷ 0 ∷ 0 ∷ 0 ∷ 0 ∷ []

abbrev decode : String → Option (List ℕ)
decode b =
    if b == "a" then some (key_of 1) else if b == "b" then some (key_of 2) else some (key_of 3)

abbrev encode : List ℕ → String
encode [] = ""
encode (b ∷ _) = if b == 1 then "01" else if b == 2 then "02" else "03"

-- a device that keeps the lines, and one that refuses them
abbrev keeps : List Line → List Line → Bool × List Line
keeps lines dev = (true, lines)

abbrev refuses : List Line → List Line → Bool × List Line
refuses lines dev = (false, dev)

configures : apply_peers decode encode keeps (some office) ("01" ∷ "ff" ∷ []) [] ≡ (
  true,
  "02" ∷ "01" ∷ [],
  public_key "ff" ∷ remove ∷ public_key "02" ∷ preshared_key "03" ∷ allowed_ip "10.0.0.3/32" ∷ [],
)
unfolding apply_peers wanted wanted_from base64_to_hex drop_gone add_new put delete has any
configures = refl

Usable-office : Usable decode encode (wanted decode encode office)
unfolding wanted wanted_from base64_to_hex put delete
Usable-office = ((λ e. cc e), ((λ e. cc e), tt))

apply_peers-Owner_example :
    (tracks "02" (peers_after decode encode keeps office ("ff" ∷ []) []) ≡ true)
    ↔ Owner decode encode "02" office.user_by_id
apply_peers-Owner_example =
    apply_peers-Owner decode encode keeps "02" office ("ff" ∷ []) [] Usable-office

apply_peers_again_example :
    apply_peers decode encode refuses
      (some office)
      (peers_after decode encode refuses office [] [])
      []
    ≡ (true, peers_after decode encode refuses office [] [], [])
apply_peers_again_example = apply_peers_again decode encode refuses office [] [] [] Usable-office

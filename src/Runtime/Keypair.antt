-- ===== src/Runtime/Keypair.antt =====
-- daemon/runtime/daemon.go: the key pair of the server, which the settings keep. What the generator
-- of key pairs returns is an argument, `none` for an error.
pub mod Lasting
mod Tests
use lightscale.Prelude.{String, Bool, true, false, Option, none, some, if◌then◌else◌}
use lightscale.Prelude.Result.{Result, ok, err}
use lightscale.Store.{
  Store, Error, not_found, name_taken, ip_in_use, port_conflict, invalid_input, constraint,
}
use lightscale.Store.Settings.{get_setting, set_setting}

pub data KeypairError : Type 0 where
  failed_store : Error → KeypairError
  failed_generator : KeypairError

abbrev pub Outcome : Type 0
Outcome = Result KeypairError (String × String) × Store

-- a write of a setting, and what follows if it succeeds
abbrev pub then_write : Result Error (Unit {0}) × Store → (Store → Outcome) → Outcome
then_write (err e, s) next = (err (failed_store e), s)
then_write (ok _, s) next = next s

abbrev pub kept_pair : Option (String × String) → Store → Outcome
kept_pair none s = (err failed_generator, s)
kept_pair (some (priv, public)) s =
    then_write (set_setting "server_private_key" priv s)
      (λ s. then_write (set_setting "server_public_key" public s) (λ s. (ok (priv, public), s)))

-- the rest after an error: a missing setting is no error, a new pair is made
abbrev pub on_missing : Error → Option (String × String) → Store → Outcome
on_missing not_found generated s = kept_pair generated s
on_missing e generated s = (err (failed_store e), s)

abbrev pub with_private :
    Result Error String → Result Error String → Option (String × String) → Store → Outcome
with_private (err e) public generated s = on_missing e generated s
with_private (ok priv) (ok public) generated s = (ok (priv, public), s)
with_private (ok priv) (err e) generated s = on_missing e generated s

unfoldable pub ensure_server_keypair : Option (String × String) → Store → Outcome
ensure_server_keypair generated s =
    with_private (get_setting s "server_private_key") (get_setting s "server_public_key") generated
      s

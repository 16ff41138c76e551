-- ===== src/Runtime/Keypair/Tests.antt =====
-- The first two starts of a server.
use lightscale.Prelude.{◌≡◌, refl, none, some, any, find_first}
use lightscale.Prelude.Result.{ok}
use lightscale.Store.{Store, new_store, with_tx, settle}
use lightscale.Store.Settings.{get_setting, set_setting, upsert}
use lightscale.Runtime.Keypair.{ensure_server_keypair}
use lightscale.Runtime.Keypair.Lasting.{ensure_again}

abbrev started : Store
started = (ensure_server_keypair (some ("priv", "pub")) new_store).1

first_start : (ensure_server_keypair (some ("priv", "pub")) new_store).0 ≡ ok ("priv", "pub")
unfolding ensure_server_keypair get_setting set_setting upsert with_tx settle find_first any
first_start = refl

ensure_again_example : ensure_server_keypair none started ≡ (ok ("priv", "pub"), started)
ensure_again_example = ensure_again (some ("priv", "pub")) none new_store "priv" "pub" first_start

-- ===== src/Store/Settings.antt =====
-- daemon/store/settings.go. The rows stand in the order in which the keys were first set;
-- `ListSettings`, which sorts them by key, is not modelled.
use lightscale.Prelude.{
  String, none, some, List, [], ◌∷◌, ◌++◌, any, ◌==◌, string_eq, if◌then◌else◌, find_first, update,
}
use lightscale.Prelude.Result.{Result, ok, err}
use lightscale.Store.{Setting, Store, Error, not_found, ChangeKind, exec, with_tx}

unfoldable pub get_setting : Store → String → Result Error String
get_setting s key = elim (find_first (λ e. e.key == key) s.db.settings) [
  | none ↦ err not_found
  | some e ↦ ok e.value
]

-- `INSERT … ON CONFLICT(key) DO UPDATE`
unfoldable pub upsert : String → String → List Setting → List Setting
upsert key value es =
    if any (λ e. e.key == key) es
    then update (λ e. e.key == key) (λ e. record e { value = value }) es
    else es ++ (record { key = key; value = value }) ∷ []

unfoldable pub set_setting : String → String → Store → Result Error (Unit {0}) × Store
set_setting key value s =
    with_tx ChangeKind.settings (exec (λ db. record db { settings = upsert key value db.settings }))
      s

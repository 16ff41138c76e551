-- ===== src/Origin/Tests.antt =====
-- Validation (shared/origin/origin.go) of some specs.
use lightscale.Prelude.{◌≡◌, refl, ◌↔◌, String}
use lightscale.Prelude.Result.{ok, err}
use lightscale.Origin.Text.{trim_space, to_lower}
use lightscale.Origin.{Spec, validate, check_spec, valid, misplaced_network}
use lightscale.Origin.Validation.{WellFormed, normal, validate_iff, validate_idem}

abbrev spec : String → String → String → Spec
spec kind value network = record { kind = kind; value = value; network = network }

samples :
    (validate (spec " Container" "web " "apps") ≡ ok (spec "container" "web" "apps"))
    × (validate (spec "hostname" "db.lan" "apps") ≡ err misplaced_network)
    × (validate (spec "host" "" "") ≡ ok (spec "host" "" ""))
unfolding validate check_spec valid trim_space to_lower
samples = (refl, refl, refl)

validate_iff_example :
    (validate (spec " Container" "web " "apps") ≡ ok (spec "container" "web" "apps")) ↔ (
      (spec "container" "web" "apps" ≡ normal (spec " Container" "web " "apps"))
      × WellFormed (normal (spec " Container" "web " "apps")))
validate_iff_example =
    validate_iff (spec " Container" "web " "apps") (spec "container" "web" "apps")

validate_idem_example :
    validate (spec "container" "web" "apps") ≡ ok (spec "container" "web" "apps")
validate_idem_example =
    validate_idem (spec " Container" "web " "apps") (spec "container" "web" "apps") samples.0

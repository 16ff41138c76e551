-- ===== src/Api/Zone/Announced.antt =====
-- What the zone that getDNSZone (daemon/api/dns.go) answers says of the services.
use Prim.Native.String.{◌++◌}
use lightscale.Prelude.{
  ◌≡◌, ◌≢◌, refl, inl, inr, String, List, ◌∷◌, map, ◌==◌, string_eq, Bool-cases, In, eq_of_==,
}
use lightscale.Store.{Store, ServiceRow}
use lightscale.Store.Services.{list_services}
use lightscale.Dns.{Record, record_line, record_lines, concat, render, leaf_label, trim_dot, soa}
use lightscale.Api.{Config, Body}
use lightscale.Api.Zone.{record_of, get_dns_zone}

-- the line of a service that has an address and a name before the first dot of its hostname
abbrev pub Announced : Store → String → Type 0
Announced s line =
    (row : ServiceRow) × In row s.db.services
    × (leaf_label row.hostname ≢ "")
    × (row.ip_address ≢ "")
    × (line ≡ record_line (record { name = leaf_label row.hostname; ip = row.ip_address }))

-- the start of the zone
abbrev pub preamble : String → String → List String → List String
preamble domain now lines =
    ("$ORIGIN " ++ (domain ++ ".\n")) ∷ "$TTL 300\n" ∷ soa domain now ∷ lines

module _ (sort : List Record → List Record) (cfg : Config) (now current : String) (s : Store) where
  zone_text :
      cfg.domain ≢ ""
      → (get_dns_zone sort cfg now current s).0 ≡ record {
        status = 200;
        body = Body.text (
            concat (
              preamble
                (trim_dot cfg.domain)
                now
                (record_lines (sort (map record_of (list_services s))))));
      }
  unfolding get_dns_zone render
  zone_text h = elim (Bool-cases (cfg.domain == "")) [
    | inl e ↦ elim (h (eq_of_== cfg.domain "" e)) [ ]
    | inr e ↦ rw e refl
  ]

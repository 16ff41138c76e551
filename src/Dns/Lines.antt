-- ===== src/Dns/Lines.antt =====
-- The lines that Render (daemon/dns/zone.go) writes for the records.
use lightscale.Prelude.{
  ◌≡◌, ◌≢◌, refl, ap, ◌∙◌, ◌↔◌, inl, inr, String, Bool, false, ◌||◌, List, [], ◌∷◌, ◌==◌, string_eq,
  arith, Bool-cases, In, here, there, In-cons, ==_of_eq,
}
use lightscale.Dns.{Record, record_line, record_lines}

-- the line of a record that has a name and an address
abbrev pub LineOf : List Record → String → Type 0
LineOf records line =
    (r : Record) × In r records × (r.name ≢ "") × (r.ip ≢ "") × (line ≡ record_line r)

abbrev skips : Record → Bool
skips r = (r.name == "") || (r.ip == "")

complete : (r : Record) → skips r ≡ false → (r.name ≢ "") × (r.ip ≢ "")
complete r h = (
  λ e. let q = ==_of_eq r.name "" e in ground (arith, q),
  λ e. let q = ==_of_eq r.ip "" e in ground (arith, q),
)

complete_of : (r : Record) → r.name ≢ "" → r.ip ≢ "" → skips r ≡ false
complete_of r n i = ground (arith, string_eq.beq_iff r.name "", string_eq.beq_iff r.ip "")

lines-LineOf :
    (records : List Record) (line : String) → In line (record_lines records) → LineOf records line
unfolding record_lines
lines-LineOf [] line m = elim m [ ]
lines-LineOf (r ∷ records) line m = elim (Bool-cases (skips r)) [
  | inl e ↦ let (q, k, n, i, p) = lines-LineOf records line (rw e at m) in (q, there k, n, i, p)
  | inr e ↦
      let (name, ip) = complete r e in
      elim (In-cons (rw e at m)) [
        | inl same ↦ (r, here refl, name, ip, same)
        | inr k ↦ let (q, j, n, i, p) = lines-LineOf records line k in (q, there j, n, i, p)
      ]
]

lines_of-LineOf :
    (records : List Record) (line : String) → LineOf records line → In line (record_lines records)
unfolding record_lines
lines_of-LineOf [] line (r, m, n, i, e) = elim m [ ]
lines_of-LineOf (q ∷ records) line (r, here p, n, i, e) =
    let whole : skips q ≡ false =
      complete_of q (λ z. n (ap (λ (r : Record). r.name) p ∙ z))
        (λ z. i (ap (λ (r : Record). r.ip) p ∙ z)) in
    rw whole (here (e ∙ ap record_line p))
lines_of-LineOf (q ∷ records) line (r, there m, n, i, e) =
    let rest = lines_of-LineOf records line (r, m, n, i, e) in
    elim (Bool-cases (skips q)) [ inl s ↦ rw s rest | inr s ↦ rw s (there rest) ]

pub record_lines-LineOf :
    (records : List Record) (line : String) → In line (record_lines records) ↔ LineOf records line
record_lines-LineOf records line = (lines-LineOf records line, lines_of-LineOf records line)

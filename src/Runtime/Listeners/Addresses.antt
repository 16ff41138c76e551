-- ===== src/Runtime/Listeners/Addresses.antt =====
-- Which addresses `reconcile` (daemon/runtime/listeners.go) leaves and adds.
use lightscale.Prelude.{
  ℕ, ◌≡◌, refl, sym, ◌∙◌, inl, inr, Bool, true, false, Option, none, some, [], ◌∷◌, Map, get, put,
  get-put, nat_eq, ◌==◌, eq_of_==, ==_of_eq, Option-cases, Bool-cases, In, here, there, Distinct,
  has_of_In, has, if◌then◌else◌, arith, ap,
}
use lightscale.Netip.{Addr}
use lightscale.Netip.Parse.{parse_addr}
use lightscale.Policy.{ServiceSnapshot}
use lightscale.Runtime.Listeners.{close_gone, open_new, reconcile}

-- Is the service in the index?
abbrev pub known : ℕ → Map ℕ ServiceSnapshot → Bool
known key want = elim (get key want) [ none ↦ false | some _ ↦ true ]

elsewhere :
    (k key : ℕ) (new vip : Addr) (current : Map ℕ Addr)
    → get k current ≡ none
    → get key current ≡ some vip
    → (if k == key then some new else get key current) ≡ some vip
elsewhere k key new vip current e h = elim (Bool-cases (k == key)) [
  | inl q ↦
      let p : get k current ≡ get key current = ap (λ i. get i current) (eq_of_== k key q) in
      cc (p, e, h)
  | inr q ↦ rw q h
]

other_key :
    (k : ℕ) {key : ℕ} {svc : ServiceSnapshot} (want : Map ℕ ServiceSnapshot)
    → In (key, svc) want
    → has (λ e. e.0) k want ≡ false
    → (k == key) ≡ false
other_key k {key} {svc} want n absent = elim (Bool-cases (k == key)) [
  | inl e ↦
      let p : key ≡ k = sym (eq_of_== k key e) in
      let there_ : has (λ e. e.0) k want ≡ true = rw p at (has_of_In (λ e. e.0) want n) in
      cc (absent, there_)
  | inr e ↦ e
]

get-none_cons :
    (k key : ℕ) (t : ServiceSnapshot) (want : Map ℕ ServiceSnapshot)
    → get key ((k, t) ∷ want) ≡ none
    → ((k == key) ≡ false) × (get key want ≡ none)
unfolding get
get-none_cons k key t want h = elim (Bool-cases (k == key)) [
  | inl e ↦ ground arith
  | inr e ↦ (e, ground arith)
]

both_none : (b : Bool) (o : Option Addr) → o ≡ none → (if b then o else none) ≡ none
both_none true o h = h
both_none false o h = refl

module _ {D : Type 0} (add_vip remove_vip : Addr → D → Bool × D) where
  get-close_gone :
      (want : Map ℕ ServiceSnapshot) (current : Map ℕ Addr) (dev : D) (key : ℕ)
      → get key (close_gone add_vip remove_vip want current dev).0
        ≡ (if known key want then get key current else none)
  unfolding close_gone get
  get-close_gone want [] dev key = ground arith
  get-close_gone want ((k, vip) ∷ current) dev key = elim (Option-cases (get k want)) [
    | inl e ↦ rw (e, close_gone) (get-close_gone want current (remove_vip vip dev).1 key ∙ skip e)
    | inr (svc, e) ↦ rw (e, close_gone) (ground (arith, get-close_gone want current dev key))
  ]
    where
      skip :
          get k want ≡ none
          → (if known key want then get key current else none)
            ≡ (if known key want then get key ((k, vip) ∷ current) else none)
      skip e = elim (Bool-cases (k == key)) [
        | inl q ↦
            let p : k ≡ key = eq_of_== k key q in
            let gone : get key want ≡ none = rw p at e in
            let unknown : known key want ≡ false = rw (gone, known) refl in rw unknown refl
        | inr q ↦ ground arith
      ]

  open_new-kept :
      (want : Map ℕ ServiceSnapshot) (current : Map ℕ Addr) (dev : D) (key : ℕ) (vip : Addr)
      → get key current ≡ some vip
      → get key (open_new add_vip remove_vip want current dev).0 ≡ some vip
  unfolding open_new
  open_new-kept [] current dev key vip h = h
  open_new-kept ((k, svc) ∷ want) current dev key vip h = elim (Option-cases (get k current)) [
    | inr (old, e) ↦ rw (e, open_new) (open_new-kept want current dev key vip h)
    | inl e ↦ elim (Option-cases (parse_addr svc.ip_address)) [
      | inl f ↦ rw (e, open_new, f) (open_new-kept want current dev key vip h)
      | inr (new, f) ↦ elim (Bool-cases (add_vip new dev).0) [
        | inl g ↦
            rw (e, open_new, f, g)
              (open_new-kept want (put k new current) (add_vip new dev).1 key vip
                (get-put k key new current ∙ elsewhere k key new vip current e h))
        | inr g ↦ rw (e, open_new, f, g) (open_new-kept want current (add_vip new dev).1 key vip h)
      ]
    ]
  ]

  open_new-unknown :
      (want : Map ℕ ServiceSnapshot) (current : Map ℕ Addr) (dev : D) (key : ℕ)
      → get key want ≡ none
      → get key current ≡ none
      → get key (open_new add_vip remove_vip want current dev).0 ≡ none
  unfolding open_new
  open_new-unknown [] current dev key u h = h
  open_new-unknown ((k, t) ∷ want) current dev key u h =
      let (miss, rest) = get-none_cons k key t want u in
      elim (Option-cases (get k current)) [
        | inr (old, e) ↦ rw (e, open_new) (open_new-unknown want current dev key rest h)
        | inl e ↦ elim (Option-cases (parse_addr t.ip_address)) [
          | inl f ↦ rw (e, open_new, f) (open_new-unknown want current dev key rest h)
          | inr (new, f) ↦ elim (Bool-cases (add_vip new dev).0) [
            | inl g ↦
                rw (e, open_new, f, g)
                  (open_new-unknown want (put k new current) (add_vip new dev).1 key rest
                    (get-put k key new current ∙ rw miss h))
            | inr g ↦
                rw (e, open_new, f, g)
                  (open_new-unknown want current (add_vip new dev).1 key rest h)
          ]
        ]
      ]

  -- A listener that is there: if its service is still in the index, reconcile keeps it at the address
  -- that it has, whatever address the index gives the service now; else it is gone.
  pub reconcile-listener :
      (want : Map ℕ ServiceSnapshot) (current : Map ℕ Addr) (dev : D) (key : ℕ) (vip : Addr)
      → get key current ≡ some vip
      → get key (reconcile add_vip remove_vip want current dev).0
        ≡ (if known key want then some vip else none)
  unfolding reconcile
  reconcile-listener want current dev key vip h = elim (Option-cases (get key want)) [
    | inl e ↦
        let unknown : known key want ≡ false = rw (e, known) refl in
        rw unknown
          (open_new-unknown want _ _ key e (get-close_gone want current dev key ∙ rw unknown refl))
    | inr (svc, e) ↦
        let there_ : known key want ≡ true = rw (e, known) refl in
        rw there_ (
          open_new-kept want _ _ key vip
            (get-close_gone want current dev key ∙ rw (there_, h) refl))
  ]

  -- A service of the index without a listener, whose address parses.
  open_new-added :
      (want : Map ℕ ServiceSnapshot) (current : Map ℕ Addr) (dev : D) (key : ℕ)
      (svc : ServiceSnapshot) (vip : Addr)
      → ((a : Addr) (d : D) → (add_vip a d).0 ≡ true)
      → Distinct (λ e. e.0) want
      → In (key, svc) want
      → parse_addr svc.ip_address ≡ some vip
      → get key current ≡ none
      → get key (open_new add_vip remove_vip want current dev).0 ≡ some vip
  unfolding open_new
  open_new-added [] current dev key svc vip works d n p free = elim n [ ]
  open_new-added ((k, t) ∷ want) current dev key svc vip works d (here same) p free =
      let q : key ≡ k = ap (λ (e : ℕ × ServiceSnapshot). e.0) same in
      let parsed : parse_addr t.ip_address ≡ some vip =
        ap (λ (e : ℕ × ServiceSnapshot). parse_addr e.1.ip_address) (sym same) ∙ p in
      let free_k : get k current ≡ none = rw q at free in
      rw (free_k, open_new, parsed, works vip dev)
        (open_new-kept want (put k vip current) (add_vip vip dev).1 key vip
          (get-put k key vip current ∙ rw (==_of_eq k key (sym q)) refl))
  open_new-added ((k, t) ∷ want) current dev key svc vip works d (there n) p free =
      elim (Option-cases (get k current)) [
        | inr (old, e) ↦
            rw (e, open_new) (open_new-added want current dev key svc vip works d.1 n p free)
        | inl e ↦ elim (Option-cases (parse_addr t.ip_address)) [
          | inl f ↦
              rw (e, open_new, f) (open_new-added want current dev key svc vip works d.1 n p free)
          | inr (new, f) ↦
              rw (e, open_new, f, works new dev)
                (open_new-added want (put k new current) (add_vip new dev).1 key svc vip works d.1 n
                  p (get-put k key new current ∙ rw (other_key k want n d.0) free))
        ]
      ]

  -- If AddVIP always succeeds: a service of the index that had no listener, and whose address parses,
  -- has one at that address after reconcile.
  pub reconcile-added :
      (want : Map ℕ ServiceSnapshot) (current : Map ℕ Addr) (dev : D) (key : ℕ)
      (svc : ServiceSnapshot) (vip : Addr)
      → ((a : Addr) (d : D) → (add_vip a d).0 ≡ true)
      → Distinct (λ e. e.0) want
      → In (key, svc) want
      → parse_addr svc.ip_address ≡ some vip
      → get key current ≡ none
      → get key (reconcile add_vip remove_vip want current dev).0 ≡ some vip
  unfolding reconcile
  reconcile-added want current dev key svc vip works d n p free =
      open_new-added want _ _ key svc vip works d n p
        (get-close_gone want current dev key ∙ both_none (known key want) (get key current) free)

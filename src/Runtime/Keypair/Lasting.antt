-- ===== src/Runtime/Keypair/Lasting.antt =====
-- The key pair that ensureServerKeypair (daemon/runtime/daemon.go) returned stays that of the server.
use lightscale.Prelude.{
  ◌≡◌, refl, sym, ap, ◌∙◌, String, true, false, Option, none, some, List, [], ◌∷◌, ◌++◌, any, ◌==◌,
  string_eq, find_first, update, arith, Bool-cases, inl, inr, ==_of_eq,
}
use lightscale.Prelude.Result.{Result, ok, err}
use lightscale.Store.{Setting, Store, Error, not_found, with_tx, settle}
use lightscale.Store.Settings.{get_setting, set_setting, upsert}
use lightscale.Runtime.Keypair.{Outcome, kept_pair, on_missing, with_private, ensure_server_keypair}

-- the value of a key among the rows
abbrev setting_of : String → List Setting → Result Error String
setting_of key es = elim (find_first (λ e. e.key == key) es) [
  | none ↦ err not_found
  | some e ↦ ok e.value
]

module _ (key value : String) where
  abbrev replaced : List Setting → List Setting
  replaced es = update (λ e. e.key == key) (λ e. record e { value = value }) es

  abbrev appended : List Setting → List Setting
  appended es = es ++ (record { key = key; value = value }) ∷ []

  of_replaced :
      (es : List Setting)
      → any (λ e. e.key == key) es ≡ true
      → setting_of key (replaced es) ≡ ok value
  unfolding find_first update any
  of_replaced [] h = cc h
  of_replaced (e ∷ es) h = ground (arith, of_replaced es)

  of_appended :
      (es : List Setting)
      → any (λ e. e.key == key) es ≡ false
      → setting_of key (appended es) ≡ ok value
  unfolding find_first any
  of_appended [] h = ground (arith, ==_of_eq key key refl)
  of_appended (e ∷ es) h = ground (arith, of_appended es)

  setting_of-upsert : (es : List Setting) → setting_of key (upsert key value es) ≡ ok value
  unfolding upsert
  setting_of-upsert es = elim (Bool-cases (any (λ e. e.key == key) es)) [
    | inl q ↦ rw q (of_replaced es q)
    | inr q ↦ rw q (of_appended es q)
  ]

  module _ (other : String) (apart : (key == other) ≡ false) where
    other_replaced : (es : List Setting) → setting_of other (replaced es) ≡ setting_of other es
    unfolding find_first update
    other_replaced [] = refl
    other_replaced (e ∷ es) = ground (
      arith,
      other_replaced es,
      string_eq.beq_iff e.key key,
      string_eq.beq_iff e.key other,
      string_eq.beq_iff key other,
    )

    other_appended : (es : List Setting) → setting_of other (appended es) ≡ setting_of other es
    unfolding find_first
    other_appended [] = ground arith
    other_appended (e ∷ es) = ground (arith, other_appended es)

    other-upsert :
        (es : List Setting) → setting_of other (upsert key value es) ≡ setting_of other es
    unfolding upsert
    other-upsert es = elim (Bool-cases (any (λ e. e.key == key) es)) [
      | inl q ↦ rw q (other_replaced es)
      | inr q ↦ rw q (other_appended es)
    ]

  get_setting-set_setting : (s : Store) → get_setting (set_setting key value s).1 key ≡ ok value
  unfolding get_setting set_setting with_tx settle
  get_setting-set_setting s = setting_of-upsert s.db.settings

  get_setting-other :
      (other : String) (s : Store)
      → (key == other) ≡ false
      → get_setting (set_setting key value s).1 other ≡ get_setting s other
  unfolding get_setting set_setting with_tx settle
  get_setting-other other s apart = other-upsert other apart s.db.settings

-- The settings have the pair.
record Has (s : Store) (priv public : String) : Type 0 where
  private_key : get_setting s "server_private_key" ≡ ok priv
  public_key : get_setting s "server_public_key" ≡ ok public

ensure_of-Has :
    (g : Option (String × String)) (s : Store) (priv public : String)
    → Has s priv public
    → ensure_server_keypair g s ≡ (ok (priv, public), s)
unfolding ensure_server_keypair
ensure_of-Has g s priv public h = rw (h.private_key, h.public_key) refl

written : String → String → Store → Store
written priv public s =
    (set_setting "server_public_key" public (set_setting "server_private_key" priv s).1).1

written-Has : (priv public : String) (s : Store) → Has (written priv public s) priv public
unfolding written
written-Has priv public s =
    let first = (set_setting "server_private_key" priv s).1 in
    record {
      private_key =
          get_setting-other "server_public_key" public "server_private_key" first refl
          ∙ get_setting-set_setting "server_private_key" priv s;
      public_key = get_setting-set_setting "server_public_key" public first;
    }

kept_pair_lem : (a b : String) (s : Store) → kept_pair (some (a, b)) s ≡ (ok (a, b), written a b s)
unfolding written set_setting with_tx settle
kept_pair_lem a b s = refl

kept_pair-Has :
    (g : Option (String × String)) (s : Store) (priv public : String)
    → (kept_pair g s).0 ≡ ok (priv, public)
    → Has (kept_pair g s).1 priv public
kept_pair-Has none s priv public h = cc h
kept_pair-Has (some (a, b)) s priv public h =
    let same : ok (a, b) ≡ ok (priv, public) =
      sym (ap (λ (o : Outcome). o.0) (kept_pair_lem a b s)) ∙ h in
    let first : a ≡ priv = cc same in
    let second : b ≡ public = cc same in
    rw (kept_pair_lem a b s, ← first, ← second) (written-Has a b s)

on_missing-Has :
    (e : Error) (g : Option (String × String)) (s : Store) (priv public : String)
    → (on_missing e g s).0 ≡ ok (priv, public)
    → Has (on_missing e g s).1 priv public
on_missing-Has Error.not_found g s priv public h = kept_pair-Has g s priv public h
on_missing-Has Error.name_taken g s priv public h = cc h
on_missing-Has Error.ip_in_use g s priv public h = cc h
on_missing-Has Error.port_conflict g s priv public h = cc h
on_missing-Has Error.invalid_input g s priv public h = cc h
on_missing-Has Error.constraint g s priv public h = cc h

with_private-Has :
    (o p : Result Error String) (g : Option (String × String)) (s : Store) (priv public : String)
    → get_setting s "server_private_key" ≡ o
    → get_setting s "server_public_key" ≡ p
    → (with_private o p g s).0 ≡ ok (priv, public)
    → Has (with_private o p g s).1 priv public
with_private-Has (err e) p g s priv public a b h = on_missing-Has e g s priv public h
with_private-Has (ok x) (err e) g s priv public a b h = on_missing-Has e g s priv public h
with_private-Has (ok x) (ok y) g s priv public a b h = record {
  private_key = a ∙ cc h;
  public_key = b ∙ cc h;
}

-- Once ensureServerKeypair has returned a pair, it returns the same pair at every later start from
-- the settings that it left, makes no new one, and writes nothing.
pub ensure_again :
    (g g' : Option (String × String)) (s : Store) (priv public : String)
    → (ensure_server_keypair g s).0 ≡ ok (priv, public)
    → ensure_server_keypair g' (ensure_server_keypair g s).1
      ≡ (ok (priv, public), (ensure_server_keypair g s).1)
ensure_again g g' s priv public h = ensure_of-Has g' _ priv public (
    unfold ensure_server_keypair in
    with_private-Has (get_setting s "server_private_key") (get_setting s "server_public_key") g s
      priv public refl refl h)

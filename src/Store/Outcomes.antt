-- ===== src/Store/Outcomes.antt =====
-- What holds after a transaction of daemon/store that succeeds, rule by rule along its body.
use lightscale.Prelude.{◌≡◌, refl, ◌⊎◌, inl, inr, Bool, true, false, [], ◌∷◌, ◌++◌, if◌then◌else◌}
use lightscale.Prelude.Result.{Result, ok, err}
use lightscale.Store.{
  Db, Store, Error, ChangeKind, Tx, pure, query, settle, with_tx, continue, ◌>>◌,
}

-- `Q` holds of the result and of the tables, unless there was an error.
abbrev pub Post : {A : Type 0} → (A → Db → Type 0) → Result Error A × Db → Type 0
Post Q (ok a, db) = Q a db
Post Q (err _, _) = Unit

module _ {A B : Type 0} (Q : A → Db → Type 0) (R : B → Db → Type 0) where
  pub Post-continue :
      (x : Result Error A × Db) (f : A → Tx B)
      → Post Q x
      → ((a : A) (db : Db) → Q a db → Post R (f a db))
      → Post R (continue x.0 f x.1)
  Post-continue (ok a, db) f q k = k a db q
  Post-continue (err e, db) f q k = tt

module _ {A B : Type 0} (R : B → Db → Type 0) (db : Db) where
  pub Post-query :
      (r : Result Error A) (f : A → Tx B)
      → ((a : A) → r ≡ ok a → Post R (f a db))
      → Post R (continue r f db)
  Post-query (ok a) f k = k a refl
  Post-query (err e) f k = tt

module _ {B : Type 0} (R : B → Db → Type 0) (db : Db) where
  -- a check that is made only when `c` holds
  pub Post-when :
      (c : Bool) (q : Db → Result Error (Unit {0})) (f : Tx B)
      → ((c ≡ false) ⊎ (q db ≡ ok tt) → Post R (f db))
      → Post R (((if c then query q else pure tt) >> f) db)
  Post-when true q f k = Post-query R db (q db) (λ _. f) (λ u e. k (inr e))
  Post-when false q f k = k (inl refl)

-- `withTx` either changes nothing, or commits what the body wrote and notifies once.
abbrev pub Settled :
    {A : Type 0} → ChangeKind → Store → Result Error A × Db → Result Error A × Store → Type 0
Settled kind s (ok a, db) out = out ≡ (ok a, record { db = db; notified = s.notified ++ kind ∷ [] })
Settled kind s (err e, db) out = out ≡ (err e, s)

settle_lem :
    {A : Type 0} (kind : ChangeKind) (s : Store) (x : Result Error A × Db)
    → Settled kind s x (settle s kind x)
unfolding settle
settle_lem kind s (ok a, db) = refl
settle_lem kind s (err e, db) = refl

pub with_tx_lem :
    {A : Type 0} (kind : ChangeKind) (fn : Tx A) (s : Store)
    → Settled kind s (fn s.db) (with_tx kind fn s)
unfolding with_tx
with_tx_lem kind fn s = settle_lem kind s (fn s.db)

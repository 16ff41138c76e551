-- ===== src/Policy/FlowTable/History.antt =====
-- The flow table (daemon/policy/flowtable.go) over time: the steps that the daemon takes on it.
use lightscale.Prelude.{
  ℕ, ◌%◌, ◌+◌, ◌≤◌, ◌<◌, ◌^◌, ◌≡◌, refl, false, none, some, [], ◌∷◌, arith, if◌then◌else◌, Map, get,
  put, nat_eq, All, All-weaken, All-keep, All-delete, has, Distinct-delete, Distinct-keep,
  delete_absent, get_absent, any, ◌==◌, get-delete, get-keep-none,
}
use lightscale.Policy.{Index}
use lightscale.Policy.FlowTable.{Flow, FlowTable, IsValid, new_flow_table, add, remove, reap, len}
use lightscale.Policy.FlowTable.Laws.{flows-reap}

abbrev u64_mod : ℕ
u64_mod = 2 ^ 64

has_above :
    (n k : ℕ) (flows : Map ℕ Flow)
    → All (λ e. e.0 ≤ n) flows
    → n < k
    → has (λ e. e.0) k flows ≡ false
unfolding has any
has_above n k [] h lt = refl
has_above n k (e ∷ flows) h lt = ground (arith, has_above n k flows h.1)

module _ (t : FlowTable) (v : IsValid t) where
  fresh : has (λ e. e.0) (t.next + 1) t.flows ≡ false
  fresh = has_above t.next (t.next + 1) t.flows v.bounded (omega arith)

  -- While ids are left, `Add` counts up and puts the flow in front.
  add_lem :
      (f : Flow)
      → t.next + 1 < u64_mod
      → add t f ≡ (record { next = t.next + 1; flows = (t.next + 1, f) ∷ t.flows }, t.next + 1)
  unfolding add put
  add_lem f room =
      let small : (t.next + 1) % u64_mod ≡ t.next + 1 = omega arith in
      rw (small, delete_absent (t.next + 1) t.flows fresh)

  added-IsValid :
      (f : Flow) → IsValid (record { next = t.next + 1; flows = (t.next + 1, f) ∷ t.flows })
  added-IsValid f = record {
    distinct = (fresh, v.distinct);
    bounded = (omega arith, All-weaken _ _ t.flows (λ e h. omega arith) v.bounded);
  }

  -- Until 2 ^ 64 ids have been given, Add gives an id that no open flow has, stores the flow under
  -- it, leaves all other flows as they were, and keeps the table valid; it grows by one.
  pub add_fresh :
      (f : Flow)
      → t.next + 1 < u64_mod
      → (get (add t f).1 t.flows ≡ none)
        × ((id : ℕ)
            → get id (add t f).0.flows ≡ (if (add t f).1 == id then some f else get id t.flows))
        × (len (add t f).0 ≡ len t + 1)
        × IsValid (add t f).0
  unfolding len get
  add_fresh f room =
      rw (add_lem f room)
        (get_absent (t.next + 1) t.flows fresh, λ id. refl, omega arith, added-IsValid f)

  pub remove-IsValid : (id : ℕ) → IsValid (remove t id)
  unfolding remove
  remove-IsValid id = record {
    distinct = Distinct-delete id t.flows v.distinct;
    bounded = All-delete _ id t.flows v.bounded;
  }

  next-reap : (idx : Index) → (reap t idx).0.next ≡ t.next
  unfolding reap
  next-reap idx = refl

  pub reap-IsValid : (idx : Index) → IsValid (reap t idx).0
  reap-IsValid idx = record {
    distinct = rw (flows-reap t idx v) (Distinct-keep _ _ t.flows v.distinct);
    bounded = rw (flows-reap t idx v, next-reap idx) (All-keep _ _ t.flows v.bounded);
  }

-- A step of the daemon on its table, while ids are left.
pub data Step (t : FlowTable) : FlowTable → Type 0 where
  added : (f : Flow) → t.next + 1 < u64_mod → Step t (add t f).0
  removed : (id : ℕ) → Step t (remove t id)
  reaped : (idx : Index) → Step t (reap t idx).0

pub data Reach (t : FlowTable) : FlowTable → Type 0 where
  start : Reach t t
  step : {u w : FlowTable} → Reach t u → Step u w → Reach t w

Step-IsValid : {t u : FlowTable} → Step t u → IsValid t → IsValid u
Step-IsValid {t} (added f room) v = (add_fresh t v f room).3
Step-IsValid {t} (removed id) v = remove-IsValid t v id
Step-IsValid {t} (reaped idx) v = reap-IsValid t v idx

Reach-IsValid : {t u : FlowTable} → Reach t u → IsValid t → IsValid u
Reach-IsValid start v = v
Reach-IsValid (step r s) v = Step-IsValid s (Reach-IsValid r v)

-- An id that was given and is not in use.
abbrev pub Retired : ℕ → FlowTable → Type 0
Retired id t = (id ≤ t.next) × (get id t.flows ≡ none)

Step-Retired : {t u : FlowTable} (id : ℕ) → Step t u → IsValid t → Retired id t → Retired id u
Step-Retired {t} id (added f room) v (given, gone) =
    let (_, gets, _, _) = add_fresh t v f room in
    rw (add_lem t v f room) (omega arith, (unfold get in ground arith))
Step-Retired {t} id (removed j) v (given, gone) =
    (unfold remove in (given, ground (arith, get-delete j id t.flows)))
Step-Retired {t} id (reaped idx) v (given, gone) =
    (rw (next-reap t v idx) given, rw (flows-reap t idx v) (get-keep-none id _ t.flows gone))

-- From a valid table, such as the new one, whatever steps follow: the table stays valid, and an id
-- that was given and is no longer in use never names a flow again.
pub Reach-Retired :
    {t u : FlowTable} (id : ℕ) → Reach t u → IsValid t → Retired id t → IsValid u × Retired id u
Reach-Retired id start v h = (v, h)
Reach-Retired id (step r s) v h =
    let (w, k) = Reach-Retired id r v h in (Step-IsValid s w, Step-Retired id s w k)

pub new_flow_table-IsValid : IsValid new_flow_table
unfolding new_flow_table
new_flow_table-IsValid = record { distinct = tt; bounded = tt }

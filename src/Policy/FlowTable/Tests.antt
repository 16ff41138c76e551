-- ===== src/Policy/FlowTable/Tests.antt =====
-- The flow table of daemon/policy/flowtable.go on a small network.
use lightscale.Prelude.{
  ℕ, ◌+◌, ◌≡◌, refl, ◌↔◌, false, none, some, [], ◌∷◌, In, if◌then◌else◌, ◌==◌, string_eq, nat_eq,
  keep, get, has, arith,
}
use lightscale.Policy.Sample.{office}
use lightscale.Policy.FlowTable.{Flow, FlowTable, IsValid, add, reap, allowed, len}
use lightscale.Policy.FlowTable.Laws.{flows-reap, closes-reap_iff}
use lightscale.Policy.FlowTable.History.{start, step, Step, Retired, Reach-Retired, add_fresh}

-- an open flow of the user to the wiki
abbrev flow_of : ℕ → ℕ → Flow
flow_of user_id connection = record {
  src_user_id = user_id;
  object_type = "service";
  object_id = 1;
  port = 443;
  protocol = "tcp";
  src_addr = "10.0.0.9:5000";
  backend_local_addr = "127.0.0.1:6000";
  close = some connection;
}

abbrev busy : FlowTable
busy = record { next = 2; flows = (2, flow_of 2 72) ∷ (1, flow_of 1 71) ∷ [] }

busy-IsValid : IsValid busy
unfolding has
busy-IsValid = record { distinct = (refl, (refl, tt)); bounded = (omega arith, (omega arith, tt)) }

flows-reap_example : (reap busy office).0.flows ≡ keep (λ e. allowed office e.1) busy.flows
flows-reap_example = flows-reap busy office busy-IsValid

closes-reap_iff_example : In 72 (reap busy office).1 ↔ (
    (id : ℕ) × (f : Flow) × In (id, f) busy.flows
    × (allowed office f ≡ false)
    × (f.close ≡ some 72))
closes-reap_iff_example = closes-reap_iff busy office 72

add_fresh_example :
    (get (add busy (flow_of 1 73)).1 busy.flows ≡ none)
    × ((id : ℕ)
        → get id (add busy (flow_of 1 73)).0.flows
          ≡ (if (add busy (flow_of 1 73)).1 == id then some (flow_of 1 73) else get id busy.flows))
    × (len (add busy (flow_of 1 73)).0 ≡ len busy + 1)
    × IsValid (add busy (flow_of 1 73)).0
add_fresh_example = add_fresh busy busy-IsValid (flow_of 1 73) (omega arith)

abbrev after_remove : FlowTable
after_remove = record { next = 2; flows = (2, flow_of 2 72) ∷ [] }

Retired-first : Retired 1 after_remove
unfolding get
Retired-first = (omega arith, refl)

after_remove-IsValid : IsValid after_remove
unfolding has
after_remove-IsValid = record { distinct = (refl, tt); bounded = (omega arith, tt) }

Reach-Retired_example :
    IsValid (add after_remove (flow_of 1 74)).0 × Retired 1 (add after_remove (flow_of 1 74)).0
Reach-Retired_example =
    Reach-Retired 1 (step start (Step.added (flow_of 1 74) (omega arith))) after_remove-IsValid
      Retired-first

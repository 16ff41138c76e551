-- ===== src/Policy/Resolver/Tests.antt =====
-- The decisions of daemon/policy/resolver.go on a small network.
use lightscale.Prelude.{
  ℕ, ◌≡◌, refl, ◌↔◌, ◌⊎◌, true, false, List, [], ◌∷◌, All, if◌then◌else◌, ◌==◌, string_eq, nat_eq,
  get, has, any,
}
use lightscale.Policy.Sample.{office}
use lightscale.Policy.{RuleSnapshot}
use lightscale.Policy.Resolver.{
  deny, allow, Ref, check_service, check_peer, share_lan_group, evaluate_explicit, port_allowed,
  evaluate, pick, consider, matches_any, subject_set, service_object_set, user_object_set, refs,
  lan_member,
}
use lightscale.Policy.Resolver.Evaluate.{rule_matches, Decides, evaluate_explicit-cases}
use lightscale.Policy.Resolver.Access.{ServiceAccess, check_service-allow_iff}
use lightscale.Policy.Resolver.Peers.{
  LanGroup, PeerAccess, share_lan_group_iff, check_peer-allow_iff,
}

program : Unit {0}
unfolding get any check_service check_peer share_lan_group lan_member evaluate_explicit evaluate
    pick consider matches_any subject_set service_object_set user_object_set refs port_allowed
program = tt

decisions :
    ((check_service office "10.0.0.2" "10.1.0.5" 443 "tcp").0 ≡ allow)
    × ((check_service office "10.0.0.2" "10.1.0.5" 80 "tcp").0 ≡ deny)
    × ((check_service office "10.0.0.3" "10.1.0.5" 443 "tcp").0 ≡ deny)
    × ((check_peer office "10.0.0.2" "10.0.0.3").0 ≡ allow)
unfolding program
decisions = (refl, refl, refl, refl)

check_service-allow_iff_example :
    ((check_service office "10.0.0.2" "10.1.0.5" 443 "tcp").0 ≡ allow)
    ↔ ServiceAccess office "10.0.0.2" "10.1.0.5" 443 "tcp"
unfolding has
check_service-allow_iff_example =
    check_service-allow_iff office "10.0.0.2" "10.1.0.5" 443 "tcp" (refl, (refl, tt))

check_peer-allow_iff_example :
    ((check_peer office "10.0.0.2" "10.0.0.3").0 ≡ allow) ↔ PeerAccess office "10.0.0.2" "10.0.0.3"
unfolding has
check_peer-allow_iff_example = check_peer-allow_iff office "10.0.0.2" "10.0.0.3" (refl, (refl, tt))

share_lan_group_iff_example :
    (share_lan_group office 1 2 ≡ true) ↔ ((gid : ℕ) × LanGroup office 1 2 gid)
share_lan_group_iff_example = share_lan_group_iff office 1 2

abbrev bob_refs : List Ref
bob_refs = (record { type = "user"; id = 2 }) ∷ (record { type = "user_group"; id = 1 }) ∷ []

abbrev wiki_refs : List Ref
wiki_refs = (record { type = "service"; id = 1 }) ∷ []

evaluate_explicit-cases_example :
    ((evaluate_explicit office bob_refs wiki_refs ≡ (deny, false))
      × All (λ q. rule_matches bob_refs wiki_refs q ≡ false) office.rules)
    ⊎ ((r : RuleSnapshot) × Decides bob_refs wiki_refs office.rules r
        × (evaluate_explicit office bob_refs wiki_refs
            ≡ (if r.action == "allow" then allow else deny, true)))
evaluate_explicit-cases_example = evaluate_explicit-cases bob_refs wiki_refs office

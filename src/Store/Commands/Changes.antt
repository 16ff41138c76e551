-- ===== src/Store/Commands/Changes.antt =====
-- What one write of daemon/store does: nothing, or some changes and one notification.
use lightscale.Prelude.{
  ◌≡◌, refl, ◌⊎◌, inl, inr, String, Bool, true, false, none, some, [], ◌∷◌, ◌++◌, if◌then◌else◌,
  arith, ◌==◌, string_eq, ◌||◌, not,
}
use lightscale.Prelude.Result.{Result, ok, err}
use lightscale.Origin.{Spec, OriginError, validate}
use lightscale.Store.{Db, Store, Error, invalid_input, ChangeKind, Tx, with_tx}
use lightscale.Store.Users.{create_user, update_user, delete_user}
use lightscale.Store.Groups.{
  create_user_group, update_user_group, delete_user_group, add_user_to_group,
  remove_user_from_group,
}
use lightscale.Store.ServiceGroups.{
  create_service_group, update_service_group, delete_service_group,
}
use lightscale.Store.Services.{create_service, update_service, delete_service}
use lightscale.Store.ServiceMembers.{add_service_to_group, remove_service_from_group}
use lightscale.Store.Policies.{create_policy, delete_policy}
use lightscale.Store.Settings.{set_setting}
use lightscale.Store.Users.{incomplete, create_user_tx, update_user_tx, delete_user_tx}
use lightscale.Store.Groups.{
  create_user_group_tx, update_user_group_tx, delete_user_group_tx, add_user_tx,
}
use lightscale.Store.ServiceGroups.{
  create_service_group_tx, update_service_group_tx, delete_service_group_tx,
}
use lightscale.Store.Services.{create_service_tx, update_service_tx, delete_service_tx}
use lightscale.Store.ServiceMembers.{add_service_tx}
use lightscale.Store.Policies.{create_policy_tx, delete_policy_tx}
use lightscale.Store.Policies.{valid_subject, valid_object, valid_action}
use lightscale.Store.Groups.{is_member}
use lightscale.Store.Outcomes.{Post, Settled, with_tx_lem}
use lightscale.Store.Steps.{Step, Steps, done, and_then, Reached}
use lightscale.Store.Steps.Users.{create_user-Steps, update_user-Steps, delete_user-Steps}
use lightscale.Store.Steps.Groups.{
  create_user_group-Steps, update_user_group-Steps, delete_user_group-Steps, add_user-Steps,
}
use lightscale.Store.Steps.Services.{
  create_service-Steps, update_service-Steps, delete_service-Steps,
}
use lightscale.Store.Steps.ServiceGroups.{
  create_service_group-Steps, update_service_group-Steps, delete_service_group-Steps,
  add_service-Steps,
}
use lightscale.Store.Steps.Policies.{create_policy-Steps, delete_policy-Steps}
use lightscale.Store.Commands.{Command, kind_of, Outcome, outcome, apply}

-- An error leaves the store as it was and tells nobody; a success makes some of the listed changes
-- and tells the listeners once, of the kind.
abbrev pub Atomic : ChangeKind → Store → Outcome → Type 0
Atomic kind s out =
    ((e : Error) × (out ≡ (some e, s)))
    ⊎ ((out.0 ≡ none) × (out.1.notified ≡ s.notified ++ kind ∷ []) × Steps s.db out.1.db)

Settled-Atomic :
    {A : Type 0} (kind : ChangeKind) (s : Store) (x : Result Error A × Db)
    (out : Result Error A × Store)
    → Settled kind s x out
    → Post (Reached s.db) x
    → Atomic kind s (outcome out)
Settled-Atomic kind s (ok a, db) out p steps = rw p (inr (refl, refl, steps))
Settled-Atomic kind s (err e, db) out p steps = inl (e, rw p refl)

module _ {A : Type 0} (kind : ChangeKind) (s : Store) where
  with_tx-Atomic :
      (fn : Tx A) → Post (Reached s.db) (fn s.db) → Atomic kind s (outcome (with_tx kind fn s))
  with_tx-Atomic fn post =
      Settled-Atomic kind s (fn s.db) (with_tx kind fn s) (with_tx_lem kind fn s) post

  -- an early return before the transaction
  guarded :
      (refused : Bool) (out : Result Error A × Store)
      → (refused ≡ false → Atomic kind s (outcome out))
      → Atomic kind s (outcome (if refused then (err invalid_input, s) else out))
  guarded true out h = inl (invalid_input, refl)
  guarded false out h = h refl

  -- an early return for an origin that `origin.Validate` refuses
  validated :
      (r : Result OriginError Spec) (f : Spec → Result Error A × Store)
      → ((spec : Spec) → Atomic kind s (outcome (f spec)))
      → Atomic kind s
          (outcome {A = A} (elim r [ err _ ↦ (err invalid_input, s) | ok spec ↦ f spec ]))
  validated (ok spec) f h = h spec
  validated (err e) f h = inl (invalid_input, refl)

-- Every write of the store is atomic: on an error the tables and the notifications are as before,
-- and a success made only the listed changes and told the listeners exactly once, of its kind.
pub apply-Atomic : (c : Command) (now : String) (s : Store) → Atomic (kind_of c) s (apply c now s)
unfolding apply kind_of create_user update_user delete_user create_user_group update_user_group
    delete_user_group add_user_to_group remove_user_from_group create_service update_service
    delete_service create_service_group update_service_group delete_service_group
    add_service_to_group remove_service_from_group create_policy delete_policy set_setting
apply-Atomic (Command.create_user input) now s =
    guarded ChangeKind.users s (incomplete input) _ (λ h.
      with_tx-Atomic ChangeKind.users s (create_user_tx input now)
        (create_user-Steps s.db input now))
apply-Atomic (Command.update_user id input) now s =
    with_tx-Atomic ChangeKind.users s (update_user_tx id input now)
      (update_user-Steps s.db id input now)
apply-Atomic (Command.delete_user id) now s =
    with_tx-Atomic ChangeKind.users s (delete_user_tx id) (delete_user-Steps s.db id)
apply-Atomic (Command.create_user_group name lan_mode) now s =
    guarded ChangeKind.user_groups s (name == "") _ (λ h.
      with_tx-Atomic ChangeKind.user_groups s (create_user_group_tx name lan_mode now)
        (create_user_group-Steps s.db name lan_mode now))
apply-Atomic (Command.update_user_group id input) now s =
    with_tx-Atomic ChangeKind.user_groups s (update_user_group_tx id input now)
      (update_user_group-Steps s.db id input now)
apply-Atomic (Command.delete_user_group id) now s =
    with_tx-Atomic ChangeKind.user_groups s (delete_user_group_tx id)
      (delete_user_group-Steps s.db id)
apply-Atomic (Command.add_user_to_group group_id user_id) now s =
    with_tx-Atomic ChangeKind.membership s (add_user_tx group_id user_id)
      (add_user-Steps s.db group_id user_id)
apply-Atomic (Command.remove_user_from_group group_id user_id) now s =
    with_tx-Atomic ChangeKind.membership s _
      (and_then done (Step.users_left (λ m. not (is_member user_id group_id m))))
apply-Atomic (Command.create_service input) now s =
    guarded ChangeKind.services s
      ((input.name == "") || (input.hostname == "") || (input.ip_address == "")) _
      (λ h.
        validated ChangeKind.services s (validate input.origin)
          (λ spec. with_tx ChangeKind.services (create_service_tx input spec now) s)
          (λ spec.
            with_tx-Atomic ChangeKind.services s (create_service_tx input spec now)
              (create_service-Steps s.db input spec now)))
apply-Atomic (Command.update_service id input) now s =
    with_tx-Atomic ChangeKind.services s (update_service_tx id input now)
      (update_service-Steps s.db id input now)
apply-Atomic (Command.delete_service id) now s =
    with_tx-Atomic ChangeKind.services s (delete_service_tx id) (delete_service-Steps s.db id)
apply-Atomic (Command.create_service_group name) now s =
    guarded ChangeKind.service_groups s (name == "") _ (λ h.
      with_tx-Atomic ChangeKind.service_groups s (create_service_group_tx name now)
        (create_service_group-Steps s.db name now))
apply-Atomic (Command.update_service_group id name) now s =
    with_tx-Atomic ChangeKind.service_groups s (update_service_group_tx id name now)
      (update_service_group-Steps s.db id name now)
apply-Atomic (Command.delete_service_group id) now s =
    with_tx-Atomic ChangeKind.service_groups s (delete_service_group_tx id)
      (delete_service_group-Steps s.db id)
apply-Atomic (Command.add_service_to_group group_id service_id) now s =
    with_tx-Atomic ChangeKind.membership s (add_service_tx group_id service_id)
      (add_service-Steps s.db group_id service_id)
apply-Atomic (Command.remove_service_from_group group_id service_id) now s =
    with_tx-Atomic ChangeKind.membership s _
      (and_then done (Step.services_left (λ m. not (is_member service_id group_id m))))
apply-Atomic (Command.create_policy input) now s =
    guarded ChangeKind.policies s
      (not (valid_subject input.subject_type)
        || not (valid_object input.object_type)
        || not (valid_action input.action))
      _
      (λ h.
        with_tx-Atomic ChangeKind.policies s (create_policy_tx input now)
          (create_policy-Steps s.db input now (ground arith)))
apply-Atomic (Command.delete_policy id) now s =
    with_tx-Atomic ChangeKind.policies s (delete_policy_tx id) (delete_policy-Steps s.db id)
apply-Atomic (Command.set_setting key value) now s =
    with_tx-Atomic ChangeKind.settings s _ (and_then done (Step.setting_set key value))

pub apply-Steps : (c : Command) (now : String) (s : Store) → Steps s.db (apply c now s).1.db
apply-Steps c now s = elim (apply-Atomic c now s) [
  | inl (e, p) ↦ rw p done
  | inr (_, _, steps) ↦ steps
]

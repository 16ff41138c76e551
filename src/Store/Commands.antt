-- ===== src/Store/Commands.antt =====
-- Any sequence of writes to daemon/store: one constructor for each method that changes the tables.
pub mod Changes
use lightscale.Prelude.{ℕ, String, Bool, Option, none, some, List, [], ◌∷◌}
use lightscale.Prelude.Result.{Result, ok, err}
use lightscale.Store.{Store, Error, ChangeKind}
use lightscale.Store.Users
use lightscale.Store.Users.{CreateUserInput, UpdateUserInput}
use lightscale.Store.Groups
use lightscale.Store.ServiceGroups
use lightscale.Store.Groups.{UpdateUserGroupInput}
use lightscale.Store.Services
use lightscale.Store.Services.{CreateServiceInput, UpdateServiceInput}
use lightscale.Store.ServiceMembers
use lightscale.Store.Policies
use lightscale.Store.Policies.{CreatePolicyInput}
use lightscale.Store.Settings

pub data Command : Type 0 where
  create_user : CreateUserInput → Command
  update_user : ℕ → UpdateUserInput → Command
  delete_user : ℕ → Command
  create_user_group : String → Bool → Command
  update_user_group : ℕ → UpdateUserGroupInput → Command
  delete_user_group : ℕ → Command
  add_user_to_group : ℕ → ℕ → Command
  remove_user_from_group : ℕ → ℕ → Command
  create_service : CreateServiceInput → Command
  update_service : ℕ → UpdateServiceInput → Command
  delete_service : ℕ → Command
  create_service_group : String → Command
  update_service_group : ℕ → Option String → Command
  delete_service_group : ℕ → Command
  add_service_to_group : ℕ → ℕ → Command
  remove_service_from_group : ℕ → ℕ → Command
  create_policy : CreatePolicyInput → Command
  delete_policy : ℕ → Command
  set_setting : String → String → Command

-- the kind that the listeners are told
pub kind_of : Command → ChangeKind
kind_of (create_user _) = ChangeKind.users
kind_of (update_user _ _) = ChangeKind.users
kind_of (delete_user _) = ChangeKind.users
kind_of (create_user_group _ _) = ChangeKind.user_groups
kind_of (update_user_group _ _) = ChangeKind.user_groups
kind_of (delete_user_group _) = ChangeKind.user_groups
kind_of (add_user_to_group _ _) = ChangeKind.membership
kind_of (remove_user_from_group _ _) = ChangeKind.membership
kind_of (create_service _) = ChangeKind.services
kind_of (update_service _ _) = ChangeKind.services
kind_of (delete_service _) = ChangeKind.services
kind_of (create_service_group _) = ChangeKind.service_groups
kind_of (update_service_group _ _) = ChangeKind.service_groups
kind_of (delete_service_group _) = ChangeKind.service_groups
kind_of (add_service_to_group _ _) = ChangeKind.membership
kind_of (remove_service_from_group _ _) = ChangeKind.membership
kind_of (create_policy _) = ChangeKind.policies
kind_of (delete_policy _) = ChangeKind.policies
kind_of (set_setting _ _) = ChangeKind.settings

-- the error, if there is one, and the store
abbrev pub Outcome : Type 0
Outcome = Option Error × Store

abbrev pub outcome : {A : Type 0} → Result Error A × Store → Outcome
outcome (ok _, s) = (none, s)
outcome (err e, s) = (some e, s)

unfoldable pub apply : Command → String → Store → Outcome
apply (create_user input) now s = outcome (Users.create_user input now s)
apply (update_user id input) now s = outcome (Users.update_user id input now s)
apply (delete_user id) now s = outcome (Users.delete_user id s)
apply (create_user_group name lan_mode) now s =
    outcome (Groups.create_user_group name lan_mode now s)
apply (update_user_group id input) now s = outcome (Groups.update_user_group id input now s)
apply (delete_user_group id) now s = outcome (Groups.delete_user_group id s)
apply (add_user_to_group group_id user_id) now s =
    outcome (Groups.add_user_to_group group_id user_id s)
apply (remove_user_from_group group_id user_id) now s =
    outcome (Groups.remove_user_from_group group_id user_id s)
apply (create_service input) now s = outcome (Services.create_service input now s)
apply (update_service id input) now s = outcome (Services.update_service id input now s)
apply (delete_service id) now s = outcome (Services.delete_service id s)
apply (create_service_group name) now s = outcome (ServiceGroups.create_service_group name now s)
apply (update_service_group id name) now s =
    outcome (ServiceGroups.update_service_group id name now s)
apply (delete_service_group id) now s = outcome (ServiceGroups.delete_service_group id s)
apply (add_service_to_group group_id service_id) now s =
    outcome (ServiceMembers.add_service_to_group group_id service_id s)
apply (remove_service_from_group group_id service_id) now s =
    outcome (ServiceMembers.remove_service_from_group group_id service_id s)
apply (create_policy input) now s = outcome (Policies.create_policy input now s)
apply (delete_policy id) now s = outcome (Policies.delete_policy id s)
apply (set_setting key value) now s = outcome (Settings.set_setting key value s)

-- the commands with the time at which each runs, in order; errors are ignored
unfoldable pub run : List (Command × String) → Store → Store
run [] s = s
run ((c, now) ∷ cs) s = run cs (apply c now s).1

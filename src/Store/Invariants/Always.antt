-- ===== src/Store/Invariants/Always.antt =====
-- The invariants of daemon/store hold after any sequence of writes, whether they succeed or fail.
use lightscale.Prelude.{refl, String, List, [], ◌∷◌, nat_eq, string_eq, has}
use lightscale.Store.{Db, Store, new_store}
use lightscale.Store.Steps.{Step, Steps-induction}
use lightscale.Store.Commands.{Command, apply, run}
use lightscale.Store.Commands.Changes.{apply-Steps}
use lightscale.Store.Invariants.RowIds.{Ids, Step-Ids}
use lightscale.Store.Invariants.Later.{Later, refl-Later, trans-Later, Step-Later}
use lightscale.Store.Invariants.Namespaces.{Names, Step-Names}
use lightscale.Store.Invariants.References.{References}
use lightscale.Store.Invariants.References.Kept.{Step-References}
use lightscale.Store.Invariants.Targets.{Targets, Step-Targets}

-- The ids are distinct, and none is above the last one given; a name is that of one user or user
-- group at most, and of one service or service group at most; an address is that of one user or
-- service at most, and a host name that of one service; rules, memberships and ports refer to rows
-- that are there; and no two rules have the same subject and object.
pub record IsValid (db : Db) : Type 0 where
  pub ids : Ids db
  pub names : Names db
  pub references : References db
  pub targets : Targets db.policy_rules

Step-IsValid : (db db' : Db) → Step db db' → IsValid db → IsValid db'
Step-IsValid db db' s v = record {
  ids = Step-Ids s v.ids;
  names = Step-Names s v.ids v.names;
  references = Step-References s v.references;
  targets = Step-Targets s v.targets;
}

pub apply-IsValid :
    (c : Command) (now : String) (s : Store) → IsValid s.db → IsValid (apply c now s).1.db
apply-IsValid c now s v = Steps-induction IsValid Step-IsValid s.db _ (apply-Steps c now s) v

pub new_store-IsValid : IsValid new_store.db
unfolding has
new_store-IsValid = record {
  ids = ((tt, tt), (tt, tt), (tt, tt), (tt, tt), (tt, tt), (tt, tt));
  names = ((tt, tt, λ k h. refl), (tt, tt, λ k h. refl), (tt, tt, λ k h. refl), tt);
  references = (tt, tt, tt, tt);
  targets = tt;
}

Step-Later_from : (first db db' : Db) → Step db db' → Later first db → Later first db'
Step-Later_from first db db' s l = trans-Later first db db' l (Step-Later s)

apply-Later : (c : Command) (now : String) (s : Store) → Later s.db (apply c now s).1.db
apply-Later c now s =
    Steps-induction (Later s.db) (Step-Later_from s.db) s.db _ (apply-Steps c now s)
      (refl-Later s.db)

-- From a valid store, such as the new one, any sequence of writes, whether each succeeds or fails,
-- leads to a valid store: in each table the ids are distinct, and none is above the last one given;
-- names, host names, addresses, references and rules are as `IsValid` says. And in each table the
-- last id given does not get smaller, and an id that was given before and has no row gets none again.
pub run-IsValid :
    (cs : List (Command × String)) (s : Store)
    → IsValid s.db
    → IsValid (run cs s).db × Later s.db (run cs s).db
unfolding run
run-IsValid [] s v = (v, refl-Later s.db)
run-IsValid ((c, now) ∷ cs) s v =
    let mid = (apply c now s).1 in
    let (valid, later) = run-IsValid cs mid (apply-IsValid c now s v) in
    (valid, trans-Later s.db mid.db (run cs mid).db (apply-Later c now s) later)

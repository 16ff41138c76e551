-- ===== src/Store/Checks/Free.antt =====
-- What the checks of namespace.go and users.go have established when they pass.
use lightscale.Prelude.{
  ℕ, ◌≡◌, refl, String, Bool, true, false, Option, none, some, List, [], ◌∷◌, inl, inr, any, has,
  ◌==◌, nat_eq, string_eq, find_first, arith, any-eq-false_of_none, Bool-cases, All,
}
use lightscale.Prelude.Result.{ok}
use lightscale.Store.{Db}
use lightscale.Store.Checks.{
  principal, object, Table, namespace_tables, id_by_name, name_check, ip_check, free_in, same_table,
  ids, id_by_ip,
}

-- No row of the table has the name.
abbrev pub NameFree : Table → String → Db → Type 0
NameFree Table.users name db = has (λ u. u.name) name db.users ≡ false
NameFree Table.user_groups name db = has (λ g. g.name) name db.user_groups ≡ false
NameFree Table.services name db = has (λ s. s.name) name db.services ≡ false
NameFree Table.service_groups name db = has (λ g. g.name) name db.service_groups ≡ false

-- No row of the table has the address.
abbrev pub AddressFree : Table → String → Db → Type 0
AddressFree Table.users ip db = has (λ u. u.ip_address) ip db.users ≡ false
AddressFree Table.services ip db = has (λ s. s.ip_address) ip db.services ≡ false
AddressFree _ ip db = Unit

abbrev pub HostnameFree : String → Db → Type 0
HostnameFree hostname db = has (λ s. s.hostname) hostname db.services ≡ false

ids_none : {A : Type 0} (id : A → ℕ) (row : Option A) → ids id row ≡ none → row ≡ none
ids_none id none h = refl
ids_none id (some row) h = cc

absent :
    {A : Type 0} (id : A → ℕ) (p : A → Bool) (rows : List A)
    → ids id (find_first p rows) ≡ none
    → any p rows ≡ false
absent id p rows h = any-eq-false_of_none p rows (ids_none id (find_first p rows) h)

name_free :
    (table : Table) (name : String) (db : Db)
    → id_by_name db table name ≡ none
    → NameFree table name db
unfolding id_by_name has
name_free Table.users name db h = absent (λ u. u.id) (λ u. u.name == name) db.users h
name_free Table.user_groups name db h = absent (λ u. u.id) (λ u. u.name == name) db.user_groups h
name_free Table.services name db h = absent (λ u. u.id) (λ u. u.name == name) db.services h
name_free Table.service_groups name db h =
    absent (λ u. u.id) (λ u. u.name == name) db.service_groups h

address_free :
    (table : Table) (ip : String) (db : Db) → id_by_ip db table ip ≡ none → AddressFree table ip db
unfolding id_by_ip has
address_free Table.users ip db h = absent (λ u. u.id) (λ u. u.ip_address == ip) db.users h
address_free Table.services ip db h = absent (λ u. u.id) (λ u. u.ip_address == ip) db.services h
address_free Table.user_groups ip db h = tt
address_free Table.service_groups ip db h = tt

free_of_other :
    (except : Option Table) (id : ℕ) (table : Table) (found : Option ℕ)
    → free_in except id table found ≡ true
    → same_table except table ≡ false
    → found ≡ none
unfolding free_in
free_of_other except id table none h other = refl
free_of_other except id table (some j) h other = ground arith

-- The check of a name passes only when each table of the list, the excepted one apart, has it free.
pub name_check-NameFree :
    (db : Db) (tables : List Table) (name : String) (except : Option Table) (id : ℕ)
    → name_check db tables name except id ≡ ok tt
    → All (λ table. same_table except table ≡ false → NameFree table name db) tables
unfolding name_check
name_check-NameFree db [] name except id h = tt
name_check-NameFree db (table ∷ tables) name except id h =
    elim (Bool-cases (free_in except id table (id_by_name db table name))) [
      | inl e ↦ (
        λ other. name_free table name db (free_of_other except id table _ e other),
        name_check-NameFree db tables name except id (ground arith),
      )
      | inr e ↦ ground arith
    ]

pub ip_check-AddressFree :
    (db : Db) (tables : List Table) (ip : String) (except : Option Table) (id : ℕ)
    → ip_check db tables ip except id ≡ ok tt
    → All (λ table. same_table except table ≡ false → AddressFree table ip db) tables
unfolding ip_check
ip_check-AddressFree db [] ip except id h = tt
ip_check-AddressFree db (table ∷ tables) ip except id h =
    elim (Bool-cases (free_in except id table (id_by_ip db table ip))) [
      | inl e ↦ (
        λ other. address_free table ip db (free_of_other except id table _ e other),
        ip_check-AddressFree db tables ip except id (ground arith),
      )
      | inr e ↦ ground arith
    ]

module _ (db : Db) (name : String) (except : Option Table) (id : ℕ) where
  pub principal_free :
      (u : Unit {0})
      → name_check db (namespace_tables principal) name except id ≡ ok u
      → (same_table except Table.users ≡ false → NameFree Table.users name db)
        × (same_table except Table.user_groups ≡ false → NameFree Table.user_groups name db)
  unfolding namespace_tables
  principal_free u h = let free = name_check-NameFree db _ name except id h in (free.0, free.1.0)

  pub object_free :
      (u : Unit {0})
      → name_check db (namespace_tables object) name except id ≡ ok u
      → (same_table except Table.services ≡ false → NameFree Table.services name db)
        × (same_table except Table.service_groups ≡ false → NameFree Table.service_groups name db)
  unfolding namespace_tables
  object_free u h = let free = name_check-NameFree db _ name except id h in (free.0, free.1.0)

  pub ip_free :
      (u : Unit {0})
      → ip_check db (Table.users ∷ Table.services ∷ []) name except id ≡ ok u
      → (same_table except Table.users ≡ false → AddressFree Table.users name db)
        × (same_table except Table.services ≡ false → AddressFree Table.services name db)
  ip_free u h = let free = ip_check-AddressFree db _ name except id h in (free.0, free.1.0)

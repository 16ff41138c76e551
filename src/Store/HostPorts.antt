-- ===== src/Store/HostPorts.antt =====
-- Services on the daemon's own host (daemon/store/services.go) and their ports: what the API keeps
-- for them, and that the tables of other things do not matter.
pub mod Quiet
pub mod Replaced
pub mod Written
use lightscale.Prelude.{
  ℕ, ◌≡◌, refl, ◌⊎◌, inl, inr, String, Bool, true, false, List, All, any, ◌==◌, nat_eq, string_eq,
}
use lightscale.Prelude.Result.{Result, ok, err}
use lightscale.Store.{ServiceRow, ServicePort, Db, Store, Error, ChangeKind, Tx, settle, with_tx}
use lightscale.Store.Outcomes.{Post}

abbrev pub has_port : ℕ → List ServicePort → Bool
has_port id ports = any (λ p. p.service_id == id) ports

-- The service is on another host, or some port is declared.
abbrev pub Guarded : List ServicePort → ServiceRow → Type 0
Guarded ports row = ((row.origin.kind == "host") ≡ false) ⊎ (has_port row.id ports ≡ true)

abbrev pub HostPorts : Db → Type 0
HostPorts db = All (Guarded db.service_ports) db.services

-- The services and their ports are as they were.
abbrev pub Same : Db → Db → Type 0
Same db db' = (db'.services ≡ db.services) × (db'.service_ports ≡ db.service_ports)

pub HostPorts-Same : (db db' : Db) → Same db db' → HostPorts db → HostPorts db'
HostPorts-Same db db' (e, f) h = rw (e, f) h

settle-keeps :
    {A : Type 0} (Q : Db → Type 0) (kind : ChangeKind) (s : Store) (x : Result Error A × Db)
    → Q s.db
    → Post (λ a db. Q db) x
    → Q (settle s kind x).1.db
unfolding settle
settle-keeps Q kind s (ok a, db) before post = post
settle-keeps Q kind s (err e, db) before post = before

-- What holds before a transaction and after its body holds after it is settled.
pub with_tx-keeps :
    {A : Type 0} (Q : Db → Type 0) (kind : ChangeKind) (fn : Tx A) (s : Store)
    → Q s.db
    → Post (λ a db. Q db) (fn s.db)
    → Q (with_tx kind fn s).1.db
unfolding with_tx
with_tx-keeps Q kind fn s before post = settle-keeps Q kind s (fn s.db) before post

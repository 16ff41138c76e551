-- ===== src/Store/Invariants.antt =====
-- What is true of the tables of daemon/store after any writes.
pub mod RowIds
pub mod Namespaces
pub mod References
pub mod Targets
pub mod Later
pub mod Always

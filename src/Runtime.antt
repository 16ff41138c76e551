-- ===== src/Runtime.antt =====
-- daemon/runtime.
pub mod Listeners
pub mod Keypair

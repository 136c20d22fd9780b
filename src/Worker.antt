-- ===== src/Worker.antt =====
-- internal/accounts/presentation/worker: the relay's loop and the purger's.
pub mod Relay
pub mod Purger

-- ===== src/Postgres.antt =====
-- internal/platform/postgres and internal/accounts/infrastructure/postgres: the transaction
-- boundary, the tables that the SQL of the repository reads and writes, and the repositories.
pub mod Tx
pub mod Db
pub mod RelayOutbox
pub mod Tracker
pub mod Uow
pub mod Purge
pub mod Stats
pub mod Valid

-- ===== src/Lib.antt =====
-- Verification of outboxexpress, a Go service that registers users and publishes their events
-- through a transactional outbox.
--
-- A registration (internal/accounts/application/register_user.go) saves a user and, in the same
-- database transaction, a row of the outbox for each event. A relay (internal/accounts/presentation/
-- worker/relay.go) claims pending rows in passes (application/publish_pending_batch.go), hands each to
-- the broker and marks it; a purger (worker/purger.go, application/purge_published.go) deletes the
-- published rows that are older than a retention.
--
-- - Common: names of the libraries passed on, Boolean tests, lists, signed integers (a duration or an
--   instant is an integer count of nanoseconds), maps as association lists.
-- - Errors: Go's error values: sentinels, driver errors, wrapping, errors.Is and errors.As.
-- - Domain: internal/accounts/domain: Email, DisplayName, User with its recorded events, Register.
-- - Messaging: internal/platform/messaging: the transport message and the CloudEvents envelope.
-- - Envelope: application/envelope.go: domain events become the contents of outbox rows.
-- - Outbox: application/outbox.go: rows, the port OutboxRepository and the laws it promises.
-- - Postgres: internal/platform/postgres (WithTx) and internal/accounts/infrastructure/postgres: the
--   tables of migrations/accounts/00001_init.sql with their constraints, the repositories, the tracker
--   of aggregates, the unit of work, and the statements of the relay and of the purger.
-- - Publish: application/publish_pending_batch.go and topics.go: a pass, over any OutboxRepository.
--   Publish.Fates is its specification: what the broker's answers mean for each claimed row.
-- - Purge: application/purge_published.go, over any OutboxPurger.
-- - Backoff: internal/platform/backoff: the schedule of retries, with int64 doubling.
-- - Worker: presentation/worker: the loop of the relay and that of the purger, over what they meet.
-- - Register: application/register_user.go.
-- - Kafka: internal/accounts/infrastructure/kafka/publisher.go: error classes and record headers.
-- - Http: internal/accounts/presentation/http: the registration endpoint over the use case.
-- - Config: internal/platform/config: what the relay, the API (Config.Load) and the migrations read
--   from their environment, and the checks.
-- - Wakeup: internal/accounts/infrastructure/wakeup: the listener and the notifier; Wakeup.Waiting is
--   the relay that waits on the listener.
-- - Platform: internal/platform/postgres (config.go, NewPool), internal/platform/kafka and
--   internal/platform/admin: settings, their validations, and the operator's endpoints.
-- - Migrations: migrations/embed.go; Migrations.Command is cmd/migrate.
-- - Startup: cmd/relay and cmd/api: what they open, wire, serve and close.
-- - System: registrations, passes and pages of the purge as steps on one database and one broker, the
--   invariant of all its states (Runs) and what a pass without failures achieves (Draining);
--   Process is the relay's loop with its passes, and the purge's loop, as runs of these steps.
-- - Tests: runs at concrete inputs.
--
-- State is passed explicitly: an operation on the database takes the tables and returns an error or
-- a result with the tables after it. What no rollback takes back (the messages that the broker has
-- acknowledged, the readings of the clock, the counters of a result) is passed beside the tables.
-- PostgreSQL is a record Server: the time of the transaction, the statements it fails, and which of the
-- rows of a claim it locks and returns; TxServer says how BEGIN and COMMIT
-- answer and what a ROLLBACK leaves; a COMMIT that returns an error was either not carried out, or
-- carried out and its answer lost. What a JSONB column gives back of a payload is a parameter, not the
-- text that was stored; times are taken at the precision that TIMESTAMPTZ keeps, and the map of headers
-- is the one that was stored. Go's
-- standard library, the UUIDs, the JSON encoding, the broker, the clock and the jitter are parameters.
--
-- The only fuel is that of the purge loop, one for each page: more than the rows of the table is
-- enough when the page size is positive, since every full page removes a row. The relay's and the
-- purger's endless loops are functions of the list of rounds that they meet.
--
-- Not modelled: the HTTP server, the Kafka client and pgx themselves, goose, the Go runtime's signals
-- and goroutines, and the clock, UUIDs and log handlers, which only call libraries. Timeouts are errors
-- that a statement or the broker may return at any point; goroutines appear as what a round meets.
-- Steps of System are whole transactions, one after the other: what concurrent ones see of each other
-- within a transaction is the rows that the server locks for a claim.
pub mod Common
pub mod Errors
pub mod Domain
pub mod Messaging
pub mod Envelope
pub mod Outbox
pub mod Postgres
pub mod Publish
pub mod Kafka
pub mod Purge
pub mod Backoff
pub mod Worker
pub mod Register
pub mod Http
pub mod Config
pub mod Platform
pub mod Migrations
pub mod Wakeup
pub mod Startup
pub mod System
mod Tests

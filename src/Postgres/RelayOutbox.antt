-- ===== src/Postgres/RelayOutbox.antt =====
-- infrastructure/postgres/outbox_relay.go, RelayOutbox: the relay's half of the outbox table inside
-- one transaction.
pub mod Laws
pub mod Marks
use Prim.Native.String.{◌++◌}
use outboxexpress.Common.{
  ℕ, String, Option, none, some, List, [], ◌∷◌, map, ◌==◌, if◌then◌else◌, Bool,
}
use outboxexpress.Common.Int.{ℤ}
use outboxexpress.Domain.Std.{Std}
use outboxexpress.Errors.{Error, Result, ok, err, wrap, opaque}
use outboxexpress.Outbox.{
  OutboxRow, PendingMessage, scan, OutboxRepository, as_published, as_rescheduled, as_failed,
}
use outboxexpress.Outbox.Table.{update_where, affected}
use outboxexpress.Postgres.Db.{
  Db, Server, Statement, claim, mark_published, reschedule, mark_failed, due_rows,
}

module _ (std : Std) (server : Server) where
  unfoldable pub claim_pending : ℕ → Db → Result (List PendingMessage) × Db
  unfolding due_rows
  claim_pending limit db = elim (server.fault (claim limit) db) [
    | some e ↦ (err (wrap "postgres: claim outbox" e), db)
    | none ↦ (ok (map scan (server.grab limit (due_rows server.now db.outbox))), db)
  ]

  -- markOne: an UPDATE by id that must touch exactly one row.
  unfoldable pub mark_one :
      Statement → String → ℕ → (OutboxRow → OutboxRow) → Db → Option Error × Db
  mark_one statement what id write db = elim (server.fault statement db) [
    | some e ↦ (some (wrap (what ++ (" (outbox id " ++ (std.itoa id ++ ")"))) e), db)
    | none ↦
        let changed = record db { outbox = update_where id write db.outbox } in
        if affected id db.outbox == 1 then (none, changed) else (
          some (
              wrap (what ++ (" (outbox id " ++ (std.itoa id ++ ")")))
                (opaque (std.itoa (affected id db.outbox) ++ " rows affected, want 1"))),
          changed,
        )
  ]

  unfoldable pub relay_outbox : OutboxRepository Db
  relay_outbox = record {
    claim_pending = claim_pending;
    mark_published =
        λ id. mark_one (mark_published id) "postgres: mark published" id (as_published server.now);
    reschedule = λ id at reason.
        mark_one (reschedule id at reason) "postgres: reschedule" id (as_rescheduled at reason);
    mark_failed =
        λ id reason. mark_one (mark_failed id reason) "postgres: mark failed" id (as_failed reason);
  }

-- ===== src/Postgres/Stats.antt =====
-- infrastructure/postgres/outbox_relay.go, OutboxStatsReader. The age, which crosses as a float number
-- of seconds in the source, is taken in nanoseconds.
use outboxexpress.Common.{
  ℕ, ◌+◌, ◌≡◌, ◌≤◌, refl, ◌&&◌, Option, none, some, List, [], ◌∷◌, count_if, leb, length, arith,
  if◌then◌else◌,
}
use outboxexpress.Common.Int.{ℤ, pos, ◌-ℤ◌, min_ℤ}
use outboxexpress.Errors.{Result, ok, err, wrap}
use outboxexpress.Outbox.{OutboxRow, OutboxStats, is_pending, is_failed}
use outboxexpress.Postgres.Db.{Db, Server, read_stats}

-- min(occurred_at) of the pending rows, which is NULL of none.
unfoldable pub oldest_pending : List OutboxRow → Option ℤ
oldest_pending [] = none
oldest_pending (r ∷ rs) =
    let rest = oldest_pending rs in
    if is_pending r.status
    then elim rest [ none ↦ some r.occurred_at | some at ↦ some (min_ℤ r.occurred_at at) ]
    else rest

-- The four subqueries.
unfoldable pub stats_of : ℤ → ℕ → List OutboxRow → OutboxStats
unfolding oldest_pending
stats_of now max_attempts rows = record {
  backlog = count_if (λ r. is_pending r.status) rows;
  oldest_pending_age = elim (oldest_pending rows) [ none ↦ pos 0 | some at ↦ now -ℤ at ];
  failed_rows = count_if (λ r. is_failed r.status) rows;
  stuck_rows = count_if (λ r. is_pending r.status && leb max_attempts r.attempts) rows;
}

-- OutboxStatsReader.Read
unfoldable pub read : Server → ℕ → Db → Result OutboxStats
unfolding stats_of
read server max_attempts db = elim (server.fault (read_stats max_attempts) db) [
  | some e ↦ err (wrap "postgres: outbox stats" e)
  | none ↦ ok (stats_of server.now max_attempts db.outbox)
]

counts :
    (max_attempts : ℕ) (rows : List OutboxRow)
    → (count_if (λ r. is_pending r.status && leb max_attempts r.attempts) rows
        ≤ count_if (λ r. is_pending r.status) rows)
      × (count_if (λ r. is_pending r.status) rows + count_if (λ r. is_failed r.status) rows
          ≤ length rows)
counts max_attempts [] = (omega arith, omega arith)
counts max_attempts (r ∷ rs) = ground (arith, counts max_attempts rs)

ageless :
    (rows : List OutboxRow)
    → count_if (λ r. is_pending r.status) rows ≡ 0
    → oldest_pending rows ≡ none
unfolding oldest_pending
ageless [] h = refl
ageless (r ∷ rs) h = ground (arith, ageless rs)

-- The statistics that are read are consistent: stuck rows are part of the backlog, the backlog and the
-- failed rows together are at most the rows of the table, and an empty backlog has age 0.
pub read-consistent :
    (server : Server) (max_attempts : ℕ) (db : Db) (stats : OutboxStats)
    → read server max_attempts db ≡ ok stats
    → (stats.stuck_rows ≤ stats.backlog)
      × (stats.backlog + stats.failed_rows ≤ length db.outbox)
      × (stats.backlog ≡ 0 → stats.oldest_pending_age ≡ pos 0)
unfolding read
read-consistent server max_attempts db stats h =
    let (stuck, total) = counts max_attempts db.outbox in
    ground (arith, stuck, total, ageless db.outbox)

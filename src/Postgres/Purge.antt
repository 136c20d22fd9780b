-- ===== src/Postgres/Purge.antt =====
-- infrastructure/postgres/outbox_relay.go, OutboxPurger: one bounded DELETE, its own transaction. The
-- interval of `make_interval`, a float number of seconds in the source, is taken in nanoseconds.
pub mod Delete
pub mod Laws
use outboxexpress.Common.{
  ℕ, String, Bool, true, false, not, ◌&&◌, ◌||◌, Option, none, some, List, [], ◌∷◌, map, take,
  filter, count_if, sort_by, ◌==◌,
}
use outboxexpress.Common.Int.{ℤ, ◌-ℤ◌, ltb_ℤ}
use outboxexpress.Errors.{Error, Result, ok, err, wrap}
use outboxexpress.Outbox.{OutboxRow, is_published}
use outboxexpress.Purge.{OutboxPurger}
use outboxexpress.Postgres.Db.{Db, Server, purge}

-- `published_at < ...`, which is not true of NULL.
unfoldable pub before : Option ℤ → ℤ → Bool
before none limit = false
before (some at) limit = ltb_ℤ at limit

-- WHERE status = 'published' AND published_at < now() - make_interval(secs => $1)
unfoldable pub is_expired : ℤ → ℤ → OutboxRow → Bool
unfolding before
is_expired now retention r = is_published r.status && before r.published_at (now -ℤ retention)

-- `id IN (...)`
unfoldable pub is_in : ℕ → List ℕ → Bool
is_in id [] = false
is_in id (j ∷ js) = j == id || is_in id js

-- The subquery.
unfoldable pub page_ids : (OutboxRow → Bool) → ℕ → List OutboxRow → List ℕ
page_ids expired limit rows =
    map (λ r. r.id) (take limit (sort_by (λ r. r.id) (filter expired rows)))

module _ (server : Server) where
  unfoldable pub purge_published : ℤ → ℕ → Db → Result ℕ × Db
  unfolding page_ids is_in is_expired
  purge_published retention limit db = elim (server.fault (purge retention limit) db) [
    | some e ↦ (err (wrap "postgres: purge published outbox rows" e), db)
    | none ↦
        let ids = page_ids (is_expired server.now retention) limit db.outbox in
        (
          ok (count_if (λ r. is_in r.id ids) db.outbox),
          record db { outbox = filter (λ r. not (is_in r.id ids)) db.outbox },
        )
  ]

  abbrev pub outbox_purger : OutboxPurger Db
  outbox_purger = record { purge_published = purge_published }

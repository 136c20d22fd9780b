-- ===== src/Postgres/RelayOutbox/Marks.antt =====
-- On a server that fails no statement, the marks of RelayOutbox succeed on the rows of the table.
use outboxexpress.Common.{ℕ, String, ◌≡◌, refl, ◌∙◌, none, List, [], ◌∷◌, arith}
use outboxexpress.Domain.Std.{Std}
use outboxexpress.Outbox.{OutboxRow, as_published, as_rescheduled, as_failed}
use outboxexpress.Outbox.Table.{update_where, affected}
use outboxexpress.Postgres.Db.{Db, Server, Statement}
use outboxexpress.Publish.Progress.{Marks, MarksSucceed}
use outboxexpress.Postgres.RelayOutbox.{mark_one, relay_outbox}

pub affected-update_where :
    (id j : ℕ) (write : OutboxRow → OutboxRow) (rows : List OutboxRow)
    → ((r : OutboxRow) → (write r).id ≡ r.id)
    → affected j (update_where id write rows) ≡ affected j rows
unfolding affected update_where
affected-update_where id j write [] keeps = refl
affected-update_where id j write (r ∷ rs) keeps =
    ground (arith, keeps r, affected-update_where id j write rs keeps)

-- The table has exactly one row with the id.
abbrev pub HasRow : Db → ℕ → Type 0
HasRow db id = affected id db.outbox ≡ 1

module _ (std : Std) (server : Server)
    (served : (statement : Statement) (db : Db) → server.fault statement db ≡ none) where
  mark_one-Marks :
      (statement : Statement) (what : String) (id : ℕ) (write : OutboxRow → OutboxRow)
      → ((r : OutboxRow) → (write r).id ≡ r.id)
      → Marks HasRow id (mark_one std server statement what id write)
  unfolding mark_one
  mark_one-Marks statement what id write keeps s one = (
    record s { outbox = update_where id write s.outbox },
    rw (mark_one, served statement s, one) refl,
    λ j h. affected-update_where id j write s.outbox keeps ∙ h,
  )

  -- On a server that fails no statement, each of the three marks of RelayOutbox succeeds on an id of
  -- which the table has exactly one row, and keeps the ids of the table.
  pub relay_outbox-MarksSucceed : MarksSucceed (relay_outbox std server) HasRow
  unfolding relay_outbox as_published as_rescheduled as_failed
  relay_outbox-MarksSucceed = record {
    published = λ id. mark_one-Marks _ _ id (as_published server.now) (λ r. refl);
    rescheduled = λ id at reason. mark_one-Marks _ _ id (as_rescheduled at reason) (λ r. refl);
    failed = λ id reason. mark_one-Marks _ _ id (as_failed reason) (λ r. refl);
  }

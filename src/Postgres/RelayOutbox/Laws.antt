-- ===== src/Postgres/RelayOutbox/Laws.antt =====
-- RelayOutbox keeps the contract of OutboxRepository.
use outboxexpress.Common.{
  ℕ, String, ◌≡◌, refl, ◌<◌, true, Option, none, some, List, [], ◌∷◌, map, arith, All, Pairs,
  length-map, filter, filter-All, filter-keeps, filter-Pairs, Sublist-All, Sublist-Pairs, All-map,
  Pairs-map, ap, ◌∙◌, sort_by_sorted, sort_by, sort_by-All, sort_by-Pairs, sort_by-Pairs_symm,
  strict_order, ◌≢◌, sym,
}
use outboxexpress.Common.Int.{◌≤ℤ◌}
use outboxexpress.Domain.Std.{Std}
use outboxexpress.Errors.{ok}
use outboxexpress.Outbox.{
  OutboxRow, PendingMessage, pending, scan, RepositoryLaws, Writes, IsDue, as_published,
  as_rescheduled, as_failed,
}
use outboxexpress.Outbox.Table.{
  find, update_where, affected, find-update_where, find-update_where_ne, find_by_key,
}
use outboxexpress.Postgres.Db.{Db, Server, Grabs, Statement, due_rows, is_due}
use outboxexpress.Postgres.RelayOutbox.{claim_pending, mark_one, relay_outbox}

-- The rows as a partial map.
abbrev pub row : Db → ℕ → Option OutboxRow
row db = find db.outbox

-- The primary key of accounts.outbox.
abbrev pub HasKeys : Db → Type 0
HasKeys db = Pairs (λ r q. r.id ≢ q.id) db.outbox

module _ (std : Std) (server : Server) where
  mark_one-eq-none :
      (statement : Statement) (what : String) (id : ℕ) (write : OutboxRow → OutboxRow) (s t : Db)
      → mark_one std server statement what id write s ≡ (none, t)
      → (affected id s.outbox ≡ 1) × (t ≡ record s { outbox = update_where id write s.outbox })
  unfolding mark_one
  mark_one-eq-none statement what id write s t h = ground arith

  mark_one-Writes :
      (statement : Statement) (what : String) (id : ℕ) (write : OutboxRow → OutboxRow)
      → ((r : OutboxRow) → (write r).id ≡ r.id)
      → (s t : Db) → mark_one std server statement what id write s ≡ (none, t)
      → Writes row id write s t
  mark_one-Writes statement what id write keeps s t h =
      let (one, e) = mark_one-eq-none statement what id write s t h in
      let (r, before, after) = find-update_where id write keeps s.outbox one in
      record {
        target = r;
        before = before;
        after = ap (λ (db : Db). row db id) e ∙ after;
        others = λ j ne.
            ap (λ (db : Db). row db j) e ∙ find-update_where_ne id write keeps j s.outbox ne;
      }

  pub due_rows-ordered :
      (rows : List OutboxRow)
      → Pairs (λ r q. r.id < q.id) rows
      → due_rows server.now rows ≡ filter (is_due server.now) rows
  unfolding due_rows
  due_rows-ordered rows h =
      sort_by_sorted (λ r. r.id) (filter (is_due server.now) rows)
        (filter-Pairs (λ r q. r.id < q.id) (is_due server.now) rows h)

  is_due-parts :
      (r : OutboxRow)
      → is_due server.now r ≡ true
      → (r.status ≡ pending) × (r.available_at ≤ℤ server.now)
  is_due-parts r h = ground arith

  due_rows-IsDue :
      (rows : List OutboxRow)
      → Pairs (λ r q. r.id ≢ q.id) rows
      → All (λ r. IsDue (find rows) server.now (scan r)) (due_rows server.now rows)
  unfolding due_rows
  due_rows-IsDue rows h =
      sort_by-All (λ r. r.id) (λ r. IsDue (find rows) server.now (scan r))
        (filter (is_due server.now) rows)
        (both (filter (is_due server.now) rows) (filter-All (is_due server.now) rows) (
          filter-keeps (λ r. find rows r.id ≡ some r) (is_due server.now) rows
            (find_by_key rows h)))
    where
      both :
          (qs : List OutboxRow)
          → All (λ q. is_due server.now q ≡ true) qs
          → All (λ q. find rows q.id ≡ some q) qs
          → All (λ q. IsDue (find rows) server.now (scan q)) qs
      both [] due found = tt
      both (q ∷ qs) due found = (
        record {
          source = q;
          stored = found.0;
          scanned = refl;
          waiting = (is_due-parts q due.0).0;
          due = (is_due-parts q due.0).1;
        },
        both qs due.1 found.1,
      )

  -- ORDER BY id: the rows come in ascending order, in whatever order the table has them.
  due_rows-Pairs :
      (rows : List OutboxRow)
      → Pairs (λ r q. r.id ≢ q.id) rows
      → Pairs (λ r q. r.id < q.id) (due_rows server.now rows)
  unfolding due_rows
  due_rows-Pairs rows h =
      let due = filter (is_due server.now) rows in
      strict_order (λ r. r.id) (sort_by (λ r. r.id) due) (sort_by-Pairs (λ r. r.id) due)
        (sort_by-Pairs_symm (λ r. r.id) (λ r q. r.id ≢ q.id) (λ r q ne e. ne (sym e)) due
          (filter-Pairs (λ r q. r.id ≢ q.id) (is_due server.now) rows h))

  claim_pending-eq-ok :
      (limit : ℕ) (s t : Db) (batch : List PendingMessage)
      → claim_pending std server limit s ≡ (ok batch, t)
      → (t ≡ s) × (batch ≡ map scan (server.grab limit (due_rows server.now s.outbox)))
  unfolding claim_pending
  claim_pending-eq-ok limit s t batch h = ground arith

  -- RelayOutbox keeps the contract of OutboxRepository: a claim on a table with a
  -- primary key, in whatever order its rows are, reads at most `limit` rows that are pending and due,
  -- in ascending order of their ids, and changes nothing; a
  -- mark that reports no error has written exactly the row with its id and left every other row.
  pub relay_outbox-RepositoryLaws :
      Grabs server → RepositoryLaws (relay_outbox std server) row HasKeys server.now
  unfolding relay_outbox as_published as_rescheduled as_failed
  relay_outbox-RepositoryLaws grabs = record {
    claim_reads = λ limit s t batch valid h.
        let (same, e) = claim_pending-eq-ok limit s t batch h in
        let sub = grabs.grab_sublist limit (due_rows server.now s.outbox) in
        let ordered : Pairs (λ r q. r.id < q.id) (due_rows server.now s.outbox) =
          due_rows-Pairs s.outbox valid in
        (
          same,
          rw (e, length-map scan (server.grab limit (due_rows server.now s.outbox)))
              (grabs.grab_limit limit (due_rows server.now s.outbox)),
          rw e (
              Pairs-map (λ p q. p.id < q.id) scan (server.grab limit (due_rows server.now s.outbox))
                (Sublist-Pairs (λ r q. r.id < q.id) sub ordered)),
          rw e (
              All-map (IsDue (row s) server.now) scan
                (server.grab limit (due_rows server.now s.outbox))
                (Sublist-All (λ r. IsDue (row s) server.now (scan r)) sub
                  (due_rows-IsDue s.outbox valid))),
        );
    mark_published_writes =
        λ id s t h. mark_one-Writes _ _ id (as_published server.now) (λ r. refl) s t h;
    reschedule_writes =
        λ id at reason s t h. mark_one-Writes _ _ id (as_rescheduled at reason) (λ r. refl) s t h;
    mark_failed_writes =
        λ id reason s t h. mark_one-Writes _ _ id (as_failed reason) (λ r. refl) s t h;
  }

-- ===== src/Postgres/Db.antt =====
-- The schema of migrations/accounts/00001_init.sql and the statements of the repositories. A
-- statement is data, so that a server can fail it; what the tables' constraints refuse is computed.
use outboxexpress.Common.{
  ℕ, suc, ◌<◌, ◌≢◌, String, Bool, false, ◌||◌, ◌&&◌, Option, none, some, List, [], ◌∷◌, ◌++◌, ◌==◌,
  str_eq, if◌then◌else◌, All, Pairs, length, ◌≤◌, filter, sort_by,
}
use mathlib.Core.List.{Sublistᴰ}
use outboxexpress.Common.Int.{ℤ, leb_ℤ}
use outboxexpress.Domain.Std.{Std}
use outboxexpress.Errors.{Error, pg}
use outboxexpress.Envelope.{Envelope}
use outboxexpress.Outbox.{pending, OutboxRow, is_pending}

-- accounts.users
pub record UserRow : Type 0 where
  pub id : ℕ
  pub email : String
  pub display_name : String
  pub version : ℕ
  pub created_at : ℤ

pub record Db : Type 0 where
  pub users : List UserRow
  pub outbox : List OutboxRow
  -- the next value of the sequence of outbox.id, which no rollback takes back
  pub next_id : ℕ

pub data Statement : Type 0 where
  claim : ℕ → Statement
  mark_published : ℕ → Statement
  reschedule : ℕ → ℤ → String → Statement
  mark_failed : ℕ → String → Statement
  insert_user : UserRow → Statement
  insert_outbox : Envelope → Statement
  purge : ℤ → ℕ → Statement
  read_stats : ℕ → Statement

-- What the server decides: its time, which statements it fails, and which of the rows that a
-- claim selects it locks and returns (`LIMIT n FOR UPDATE SKIP LOCKED`).
pub record Server : Type 0 where
  pub now : ℤ
  pub fault : Statement → Db → Option Error
  pub grab : ℕ → List OutboxRow → List OutboxRow

-- Documented of PostgreSQL: at most n of the rows, in their order.
pub record Grabs (server : Server) : Type 0 where
  pub grab_sublist : (n : ℕ) (rows : List OutboxRow) → Sublistᴰ (server.grab n rows) rows
  pub grab_limit : (n : ℕ) (rows : List OutboxRow) → length (server.grab n rows) ≤ n

-- What holds of the tables between statements: the primary keys, the unique constraints, and that
-- the sequence is ahead of every id that it gave.
pub record IsValid (db : Db) : Type 0 where
  pub fresh : All (λ r. r.id < db.next_id) db.outbox
  pub ordered : Pairs (λ r q. r.id < q.id) db.outbox
  pub event_ids : Pairs (λ r q. r.envelope.event_id ≢ q.envelope.event_id) db.outbox
  pub user_ids : Pairs (λ u v. u.id ≢ v.id) db.users
  pub emails : Pairs (λ u v. u.email ≢ v.email) db.users

unfoldable pub has_user_id : ℕ → List UserRow → Bool
has_user_id id [] = false
has_user_id id (u ∷ us) = u.id == id || has_user_id id us

unfoldable pub has_email : String → List UserRow → Bool
has_email email [] = false
has_email email (u ∷ us) = str_eq u.email email || has_email email us

unfoldable pub has_event_id : ℕ → List OutboxRow → Bool
has_event_id id [] = false
has_event_id id (r ∷ rs) = r.envelope.event_id == id || has_event_id id rs

unfoldable pub violation : String → Error
violation constraint = pg (record {
  code = "23505";
  constraint_name = constraint;
  message = "duplicate key value violates unique constraint";
})

-- INSERT INTO accounts.users. The constraints have the names that PostgreSQL gives to an unnamed UNIQUE.
unfoldable pub add_user : UserRow → Db → Option Error × Db
unfolding has_user_id has_email violation
add_user u db =
    if has_user_id u.id db.users
    then (some (violation "users_pkey"), db)
    else if has_email u.email db.users
    then (some (violation "users_email_key"), db)
    else (none, record db { users = db.users ++ u ∷ [] })

-- What the columns of accounts.outbox give back of an envelope: the payload is JSONB. The headers are a
-- JSON object too, which is the map that it was made from.
abbrev pub as_stored : Std → Envelope → Envelope
as_stored std e = record e { payload = std.jsonb e.payload }

-- The row that INSERT INTO accounts.outbox makes: the columns given, and the defaults.
unfoldable pub new_row : ℕ → ℤ → Envelope → OutboxRow
new_row id now e = record {
  id = id;
  envelope = e;
  status = pending;
  attempts = 0;
  available_at = now;
  last_error = none;
  published_at = none;
}

-- INSERT INTO accounts.outbox. A refused insert has used up a value of the sequence.
unfoldable pub add_outbox : ℤ → Envelope → Db → Option Error × Db
unfolding has_event_id violation new_row
add_outbox now e db =
    if has_event_id e.event_id db.outbox
    then (some (violation "outbox_event_id_key"), record db { next_id = suc db.next_id })
    else (
      none,
      record db { outbox = db.outbox ++ new_row db.next_id now e ∷ []; next_id = suc db.next_id },
    )

-- `WHERE status = 'pending' AND available_at <= now()`
abbrev pub is_due : ℤ → OutboxRow → Bool
is_due now r = is_pending r.status && leb_ℤ r.available_at now

-- claimPending without LIMIT and FOR UPDATE
unfoldable pub due_rows : ℤ → List OutboxRow → List OutboxRow
due_rows now rows = sort_by (λ r. r.id) (filter (is_due now) rows)

-- A rollback restores the tables and keeps the sequence.
abbrev pub rollback : Db → Db → Db
rollback old new = record old { next_id = new.next_id }

-- ===== src/Outbox.antt =====
-- internal/accounts/application/outbox.go, with the rows of accounts.outbox that it is about
-- (migrations/accounts/00001_init.sql). The interface OutboxRepository is a record of operations on
-- a state `S`, and `RepositoryLaws` is what its doc comments promise, which the relay's pass uses.
pub mod Table
use outboxexpress.Common.{
  ℕ, ◌+◌, ◌≡◌, ◌≢◌, ◌≤◌, String, Bool, true, false, Option, none, some, List, length, All, Pairs,
  ◌<◌,
}
use outboxexpress.Common.Int.{ℤ, ◌≤ℤ◌}
use outboxexpress.Errors.{Error, Result, ok}
use outboxexpress.Messaging.{Headers}
use outboxexpress.Envelope.{Envelope}

-- CHECK (status IN ('pending', 'published', 'failed'))
pub data Status : Type 0 where
  pending published failed : Status

abbrev pub is_pending : Status → Bool
is_pending pending = true
is_pending published = false
is_pending failed = false

abbrev pub is_published : Status → Bool
is_published pending = false
is_published published = true
is_published failed = false

abbrev pub is_failed : Status → Bool
is_failed pending = false
is_failed published = false
is_failed failed = true

pub record OutboxRow : Type 0 where
  pub id : ℕ
  pub envelope : Envelope
  pub open envelope use *
  pub status : Status
  pub attempts : ℕ
  pub available_at : ℤ
  pub last_error : Option String
  pub published_at : Option ℤ

-- One claimed row as the relay sees it.
pub record PendingMessage : Type 0 where
  pub envelope : Envelope
  pub open envelope use *
  pub id : ℕ
  pub attempts : ℕ

-- The columns that ClaimPending scans.
abbrev pub scan : OutboxRow → PendingMessage
scan r = record { envelope = r.envelope; id = r.id; attempts = r.attempts }

pub record OutboxStats : Type 0 where
  pub backlog : ℕ
  pub oldest_pending_age : ℤ
  pub failed_rows : ℕ
  pub stuck_rows : ℕ

-- The three marks, as what they write into a row: the SET clauses of markPublished, rescheduleRow
-- and markFailed in infrastructure/postgres/outbox_relay.go. `now` is the transaction's time.
unfoldable pub as_published : ℤ → OutboxRow → OutboxRow
as_published now r = record r { status = published; published_at = some now; last_error = none }

unfoldable pub as_rescheduled : ℤ → String → OutboxRow → OutboxRow
as_rescheduled at reason r = record r {
  attempts = r.attempts + 1;
  available_at = at;
  last_error = some reason;
}

unfoldable pub as_failed : String → OutboxRow → OutboxRow
as_failed reason r = record r { status = failed; last_error = some reason }

pub record OutboxRepository (S : Type 0) : Type 0 where
  pub claim_pending : ℕ → S → Result (List PendingMessage) × S
  pub mark_published : ℕ → S → Option Error × S
  pub reschedule : ℕ → ℤ → String → S → Option Error × S
  pub mark_failed : ℕ → String → S → Option Error × S

-- What a mark that reports no error has done: exactly one row, the one with the given id, was
-- written by the given function.
pub record Writes {S : Type 0} (row : S → ℕ → Option OutboxRow) (id : ℕ)
    (write : OutboxRow → OutboxRow) (s t : S) : Type 0 where
  pub target : OutboxRow
  pub before : row s id ≡ some target
  pub after : row t id ≡ some (write target)
  pub others : (j : ℕ) → j ≢ id → row t j ≡ row s j

-- A claimed row is the pending row of its id, and due.
pub record IsDue (row : ℕ → Option OutboxRow) (now : ℤ) (p : PendingMessage) : Type 0 where
  pub source : OutboxRow
  pub stored : row p.id ≡ some source
  pub scanned : p ≡ scan source
  pub waiting : source.status ≡ pending
  pub due : source.available_at ≤ℤ now

-- The contract, over a view `row` of the state as a partial map from ids to rows. A claim promises
-- its batch on a state that is `valid`.
pub record RepositoryLaws {S : Type 0} (repo : OutboxRepository S) (row : S → ℕ → Option OutboxRow)
    (valid : S → Type 0) (now : ℤ) : Type 0 where
  pub claim_reads :
      (limit : ℕ) (s t : S) (batch : List PendingMessage)
      → valid s
      → repo.claim_pending limit s ≡ (ok batch, t)
      → (t ≡ s)
        × (length batch ≤ limit)
        × Pairs (λ p q. p.id < q.id) batch
        × All (λ p. IsDue (row s) now p) batch
  pub mark_published_writes :
      (id : ℕ) (s t : S)
      → repo.mark_published id s ≡ (none, t)
      → Writes row id (as_published now) s t
  pub reschedule_writes :
      (id : ℕ) (at : ℤ) (reason : String) (s t : S)
      → repo.reschedule id at reason s ≡ (none, t)
      → Writes row id (as_rescheduled at reason) s t
  pub mark_failed_writes :
      (id : ℕ) (reason : String) (s t : S)
      → repo.mark_failed id reason s ≡ (none, t)
      → Writes row id (as_failed reason) s t

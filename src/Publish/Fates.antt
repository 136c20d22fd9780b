-- ===== src/Publish/Fates.antt =====
-- What a pass should do, without its loop: the fate of each claimed row, and what the fates mean for
-- the rows, the broker and the result. publish_pending_batch.go states this in its comments: an ack
-- publishes a row, a permanent failure parks it, a transient one puts it off and ends the batch.
use mathlib.Core.Option
use outboxexpress.Common.{ℕ, Option, none, some, List, [], ◌∷◌, ◌++◌, ◌==◌, if◌then◌else◌}
use outboxexpress.Common.Int.{ℤ, ◌+ℤ◌}
use outboxexpress.Domain.Std.{Std}
use outboxexpress.Errors.{Error, ok, err, is, text, permanent, transient}
use outboxexpress.Messaging.{Message}
use outboxexpress.Outbox.{OutboxRow, PendingMessage, as_published, as_rescheduled, as_failed}
use outboxexpress.Publish.{PublishPendingBatch, Failure, failure_of, message, topic_for}

pub data Fate : Type 0 where
  delivered : Message → Fate
  parked : Error → Fate
  deferred : Error → Fate
  unclassified : Error → Fate

unfoldable pub failed_as : Error → Fate
failed_as e =
    if is e permanent then parked e else if is e transient then deferred e else unclassified e

module _ (std : Std) {S : Type 0} (uc : PublishPendingBatch S) where
  unfoldable pub answer : Message → List Message → Fate
  unfolding failed_as
  answer m acked = elim (uc.broker m acked) [ none ↦ delivered m | some e ↦ failed_as e ]

  unfoldable pub fate_of : PendingMessage → List Message → Fate
  unfolding answer failed_as topic_for
  fate_of pending acked = elim (topic_for std uc.topics pending.aggregate_type) [
    | err e ↦ failed_as e
    | ok topic ↦ answer (message std topic pending) acked
  ]

  unfoldable pub go_on :
      PendingMessage
      → Fate
      → (List Message → List (PendingMessage × Fate))
      → List Message
      → List (PendingMessage × Fate)
  go_on p (delivered m) rest acked = (p, delivered m) ∷ rest (acked ++ m ∷ [])
  go_on p (parked e) rest acked = (p, parked e) ∷ rest acked
  go_on p (deferred e) rest acked = (p, deferred e) ∷ []
  go_on p (unclassified e) rest acked = (p, unclassified e) ∷ []

  -- The rows that a pass comes to, each with its fate.
  unfoldable pub fates : List PendingMessage → List Message → List (PendingMessage × Fate)
  unfolding go_on
  fates [] acked = []
  fates (p ∷ ps) acked = go_on p (fate_of p acked) (fates ps) acked

-- The messages that the broker takes, in order.
unfoldable pub messages : List (PendingMessage × Fate) → List Message
messages [] = []
messages ((p, delivered m) ∷ fs) = m ∷ messages fs
messages ((p, parked e) ∷ fs) = messages fs
messages ((p, deferred e) ∷ fs) = messages fs
messages ((p, unclassified e) ∷ fs) = messages fs

unfoldable pub parked_failures : List (PendingMessage × Fate) → List Failure
parked_failures [] = []
parked_failures ((p, delivered m) ∷ fs) = parked_failures fs
parked_failures ((p, parked e) ∷ fs) = failure_of p e ∷ parked_failures fs
parked_failures ((p, deferred e) ∷ fs) = parked_failures fs
parked_failures ((p, unclassified e) ∷ fs) = parked_failures fs

unfoldable pub deferred_failures : List (PendingMessage × Fate) → List Failure
deferred_failures [] = []
deferred_failures ((p, delivered m) ∷ fs) = deferred_failures fs
deferred_failures ((p, parked e) ∷ fs) = deferred_failures fs
deferred_failures ((p, deferred e) ∷ fs) = failure_of p e ∷ deferred_failures fs
deferred_failures ((p, unclassified e) ∷ fs) = deferred_failures fs

abbrev pub RowMap : Type 0
RowMap = ℕ → Option OutboxRow

-- What a fate writes into its row: `now` is the transaction's time, `clock` that of the failure.
unfoldable pub write_of : ℤ → (ℕ → ℤ) → ℤ → PendingMessage → Fate → OutboxRow → OutboxRow
write_of now after clock p (delivered m) r = as_published now r
write_of now after clock p (parked e) r = as_failed (text e) r
write_of now after clock p (deferred e) r = as_rescheduled (clock +ℤ after p.attempts) (text e) r
write_of now after clock p (unclassified e) r = r

unfoldable pub write_at : ℕ → (OutboxRow → OutboxRow) → RowMap → RowMap
write_at id write rows j = if j == id then Option.map write (rows j) else rows j

-- The rows after the fates.
unfoldable pub rows_after : ℤ → (ℕ → ℤ) → ℤ → List (PendingMessage × Fate) → RowMap → RowMap
unfolding write_at write_of
rows_after now after clock [] rows = rows
rows_after now after clock ((p, fate) ∷ fs) rows =
    rows_after now after clock fs (write_at p.id (write_of now after clock p fate) rows)

-- No row's failure was left unclassified.
abbrev pub AllClassified : List (PendingMessage × Fate) → Type 0
AllClassified [] = Unit
AllClassified ((p, delivered m) ∷ fs) = AllClassified fs
AllClassified ((p, parked e) ∷ fs) = AllClassified fs
AllClassified ((p, deferred e) ∷ fs) = AllClassified fs
AllClassified ((p, unclassified e) ∷ fs) = ⊥

-- ===== src/Publish/Progress.antt =====
-- A pass is not held up: when the marks succeed and every failure has a class, the loop returns no
-- error, whatever the broker answers.
use outboxexpress.Common.{ℕ, String, ◌≡◌, refl, Option, none, List, [], ◌∷◌, All}
use outboxexpress.Common.Int.{ℤ, ◌+ℤ◌}
use outboxexpress.Domain.Std.{Std}
use outboxexpress.Errors.{Error, text}
use outboxexpress.Messaging.{Message}
use outboxexpress.Outbox.{PendingMessage, OutboxRepository}
use outboxexpress.Publish.{
  PublishPendingBatch, Pass, publish, on_ack, on_permanent, on_transient, settle_row, publish_batch,
  failure_of,
}
use outboxexpress.Publish.Fates.{
  Fate, delivered, parked, deferred, unclassified, fate_of, go_on, fates, AllClassified,
}
use outboxexpress.Publish.Shows.{Shows, publish-Shows}

-- A mark of a row that the table has succeeds, and the table still has what it had.
abbrev pub Marks : {S : Type 0} → (S → ℕ → Type 0) → ℕ → (S → Option Error × S) → Type 0
Marks has id mark =
    (s : _) → has s id → (t : _) × (mark s ≡ (none, t)) × ((j : ℕ) → has s j → has t j)

pub record MarksSucceed {S : Type 0} (repo : OutboxRepository S) (has : S → ℕ → Type 0)
    : Type 0 where
  pub published : (id : ℕ) → Marks has id (repo.mark_published id)
  pub rescheduled :
      (id : ℕ) (at : ℤ) (reason : String) → Marks has id (repo.reschedule id at reason)
  pub failed : (id : ℕ) (reason : String) → Marks has id (repo.mark_failed id reason)

module _ (std : Std) {S : Type 0} (uc : PublishPendingBatch S) (has : S → ℕ → Type 0)
    (marks : MarksSucceed uc.outbox has) where
  -- A loop over rows that the table has ends without an error.
  abbrev Ends : List PendingMessage → (S → Pass → Option Error × S × Pass) → Pass → Type 0
  Ends batch loop w = (s : S) → All (λ p. has s p.id) batch → (loop s w).0 ≡ none

  All-has :
      (s t : S) (batch : List PendingMessage)
      → ((j : ℕ) → has s j → has t j)
      → All (λ p. has s p.id) batch
      → All (λ p. has t p.id) batch
  All-has s t [] kept h = tt
  All-has s t (p ∷ ps) kept h = (kept p.id h.0, All-has s t ps kept h.1)

  settle_row-Ends :
      (p : PendingMessage) (ps : List PendingMessage) (f : Fate) (w : Pass)
      → (out : Option Error × List Message) → Shows f w.acked out
      → AllClassified (go_on std uc p f (fates std uc ps) w.acked)
      → ((v : Pass) → AllClassified (fates std uc ps v.acked) → Ends ps (publish_batch std uc ps) v)
      → Ends (p ∷ ps) (settle_row std uc p out (publish_batch std uc ps)) w
  unfolding settle_row on_ack on_permanent on_transient go_on failure_of
  settle_row-Ends p ps (delivered m) w out shows c ih s h =
      let (t, marked, kept) = marks.published p.id s h.0 in
      rw (shows, marked) (ih _ c t (All-has s t ps kept h.1))
  settle_row-Ends p ps (parked e) w out (shows, perm) c ih s h =
      let (t, marked, kept) = marks.failed p.id (text e) s h.0 in
      rw (shows, perm, marked) (ih _ c t (All-has s t ps kept h.1))
  settle_row-Ends p ps (deferred e) w out (shows, perm, tran) c ih s h =
      let (t, marked, kept) =
        marks.rescheduled p.id (uc.clock w.readings +ℤ uc.policy.after p.attempts) (text e) s h.0 in
      rw (shows, perm, tran, marked) refl
  settle_row-Ends p ps (unclassified e) w out shows c ih s h = elim c [ ]

  -- When the marks succeed on the rows that the table has, and every failure of the batch is permanent
  -- or transient, publishBatch returns no error, whatever the broker answers.
  pub publish_batch_ends :
      (batch : List PendingMessage) (w : Pass) (s : S)
      → AllClassified (fates std uc batch w.acked)
      → All (λ p. has s p.id) batch
      → (publish_batch std uc batch s w).0 ≡ none
  unfolding publish_batch fates
  publish_batch_ends [] w s c h = refl
  publish_batch_ends (p ∷ ps) w s c h =
      settle_row-Ends p ps (fate_of std uc p w.acked) w (publish std uc p w.acked)
        (publish-Shows std uc p w.acked) c (λ v c' s' h'. publish_batch_ends ps v s' c' h') s h

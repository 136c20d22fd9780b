-- ===== src/Publish/Keeps.antt =====
-- A relation between the state and the acknowledged messages that each mark keeps, with the
-- acknowledgement before it, is kept by a pass, whether it succeeds or fails.
use outboxexpress.Common.{
  ℕ, ◌+◌, ◌≡◌, refl, sym, subst, ◌⊎◌, inl, inr, String, Option, none, some, List, [], ◌∷◌, ◌++◌,
  All, Bool-cases, length,
}
use outboxexpress.Common.Int.{ℤ, ◌+ℤ◌}
use outboxexpress.Domain.Std.{Std}
use outboxexpress.Errors.{Error, Result, ok, err, is, permanent, transient}
use outboxexpress.Messaging.{Message}
use outboxexpress.Outbox.{PendingMessage}
use outboxexpress.Postgres.Tx.{with_tx, with_tx-cases}
use outboxexpress.Publish.{
  PublishPendingBatch, Pass, produce, publish, message, topic_for, on_ack, on_permanent,
  on_transient, settle_row, publish_batch, claim_and_publish, finish, execute, new_result, observe,
  unless_err, failure_of,
}

module _ (std : Std) {S : Type 0} (uc : PublishPendingBatch S) where
  -- publish acknowledges the message of the row on some topic, or returns an error.
  publish-sends :
      (p : PendingMessage) (acked : List Message)
      → ((topic : String) × (publish std uc p acked ≡ (none, acked ++ message std topic p ∷ [])))
        ⊎ ((e : Error) × (publish std uc p acked ≡ (some e, acked)))
  unfolding publish
  publish-sends p acked = routed (topic_for std uc.topics p.aggregate_type)
    where
      asked :
          (topic : String) (b : Option Error)
          → ((topic' : String) × (◌≡◌ {A = Option Error × List Message}
                (elim b [
                  | none ↦ (none, acked ++ message std topic p ∷ [])
                  | some e ↦ (some e, acked)
                ])
                (none, acked ++ message std topic' p ∷ [])))
            ⊎ ((e : Error) × (◌≡◌ {A = Option Error × List Message}
                  (elim b [
                    | none ↦ (none, acked ++ message std topic p ∷ [])
                    | some e ↦ (some e, acked)
                  ])
                  (some e, acked)))
      asked topic none = inl (topic, refl)
      asked topic (some e) = inr (e, refl)

      routed :
          (r : Result String)
          → ((topic : String) × (◌≡◌ {A = Option Error × List Message}
                (elim r [
                  | err e ↦ (some e, acked)
                  | ok topic ↦ produce std uc (message std topic p) acked
                ])
                (none, acked ++ message std topic p ∷ [])))
            ⊎ ((e : Error) × (◌≡◌ {A = Option Error × List Message}
                  (elim r [
                    | err e ↦ (some e, acked)
                    | ok topic ↦ produce std uc (message std topic p) acked
                  ])
                  (some e, acked)))
      routed (err e) = inr (e, refl)
      routed (ok topic) = asked topic (uc.broker (message std topic p) acked)

  -- `I` is kept by every mark of a claimed row; one is marked published when its message has just
  -- been acknowledged.
  pub record IsKept (I : S → List Message → Type 0) (Own : PendingMessage → Type 0) : Type 0 where
    pub published :
        (p : PendingMessage) (topic : String) (s : S) (a : List Message)
        → Own p
        → I s a
        → I (uc.outbox.mark_published p.id s).1 (a ++ message std topic p ∷ [])
    pub rescheduled :
        (id : ℕ) (at : ℤ) (reason : String) (s : S) (a : List Message)
        → I s a
        → I (uc.outbox.reschedule id at reason s).1 a
    pub failed :
        (id : ℕ) (reason : String) (s : S) (a : List Message)
        → I s a
        → I (uc.outbox.mark_failed id reason s).1 a

  module _ (I : S → List Message → Type 0) (Own : PendingMessage → Type 0)
      (kept : IsKept I Own) where
    -- A step of the loop ends with `I`.
    abbrev Holds : Option Error × S × Pass → Type 0
    Holds (e, s, w) = I s w.acked

    unless_err-Holds :
        (r : Option Error × S) (w : Pass) (next : S → Pass → Option Error × S × Pass)
        → I r.1 w.acked
        → ((u : S) → I u w.acked → Holds (next u w))
        → Holds (unless_err r w next)
    unless_err-Holds (some e, u) w next now later = now
    unless_err-Holds (none, u) w next now later = later u now

    on_transient-Holds :
        (p : PendingMessage) (e : Error) (s : S) (w : Pass)
        → I s w.acked
        → Holds (on_transient std uc p e s w)
    unfolding on_transient
    on_transient-Holds p e s w h =
        let at = uc.clock w.readings +ℤ uc.policy.after p.attempts in
        let reason = (failure_of p e).reason in
        unless_err-Holds (uc.outbox.reschedule p.id at reason s)
          (record w { readings = w.readings + 1 })
          (λ u v. (
            none,
            u,
            record v {
              result = record v.result { transient = v.result.transient ++ failure_of p e ∷ [] };
            },
          ))
          (kept.rescheduled p.id at reason s w.acked h) (λ u k. k)

    settle_row-Holds :
        (p : PendingMessage) (next : S → Pass → Option Error × S × Pass) (s : S) (w : Pass)
        → Own p
        → ((u : S) (v : Pass) → I u v.acked → Holds (next u v))
        → ((topic : String) × (publish std uc p w.acked
              ≡ (none, w.acked ++ message std topic p ∷ [])))
          ⊎ ((e : Error) × (publish std uc p w.acked ≡ (some e, w.acked)))
        → I s w.acked
        → Holds (settle_row std uc p (publish std uc p w.acked) next s w)
    unfolding settle_row on_ack on_permanent
    settle_row-Holds p next s w own ih (inl (topic, e)) h = rw e (
        unless_err-Holds (uc.outbox.mark_published p.id s) _ next
          (kept.published p topic s w.acked own h) (λ u. ih u _))
    settle_row-Holds p next s w own ih (inr (x, e)) h = rw e (elim (Bool-cases (is x permanent)) [
      | inl perm ↦ rw perm (
          unless_err-Holds (uc.outbox.mark_failed p.id (failure_of p x).reason s) w _
            (kept.failed p.id (failure_of p x).reason s w.acked h) (λ u. ih u _))
      | inr hard ↦ rw hard (elim (Bool-cases (is x transient)) [
        | inl tran ↦ rw tran (on_transient-Holds p x s w h)
        | inr other ↦ rw other h
      ])
    ])

    publish_batch-Holds :
        (batch : List PendingMessage) (s : S) (w : Pass)
        → All Own batch
        → I s w.acked
        → Holds (publish_batch std uc batch s w)
    unfolding publish_batch
    publish_batch-Holds [] s w own h = h
    publish_batch-Holds (p ∷ ps) s w own h =
        settle_row-Holds p (publish_batch std uc ps) s w own.0
          (λ u v. publish_batch-Holds ps u v own.1) (publish-sends p w.acked) h

    claim_and_publish-Holds :
        (s : S) (w : Pass)
        → ((batch : List PendingMessage)
            → (uc.outbox.claim_pending uc.policy.batch_size s).0 ≡ ok batch
            → All Own batch)
        → I (uc.outbox.claim_pending uc.policy.batch_size s).1 w.acked
        → Holds (claim_and_publish std uc s w)
    unfolding claim_and_publish
    claim_and_publish-Holds s w own h = go (uc.outbox.claim_pending uc.policy.batch_size s) own h
      where
        go :
            (c : Result (List PendingMessage) × S)
            → ((batch : List PendingMessage) → c.0 ≡ ok batch → All Own batch)
            → I c.1 w.acked
            → Holds (elim c.0 [
              | err e ↦ (some e, c.1, w)
              | ok batch ↦
                  publish_batch std uc batch c.1
                    (record w { result = record w.result { claimed = length batch } })
            ])
        go (err e, t) own h = h
        go (ok batch, t) own h = publish_batch-Holds batch t _ (own batch refl) h

    finish-Holds :
        (started : ℤ) (out : Option Error × S × Pass)
        → Holds out
        → Holds (finish std uc started out)
    unfolding finish observe
    finish-Holds started (none, s, w) h = h
    finish-Holds started (some e, s, w) h = h

    -- A pass keeps what its marks, its acknowledgements, its claim and its rollback keep.
    pub execute-keeps :
        (before : List Message) (readings : ℕ) (s : S)
        → ((batch : List PendingMessage)
            → (uc.outbox.claim_pending uc.policy.batch_size s).0 ≡ ok batch
            → All Own batch)
        → I (uc.outbox.claim_pending uc.policy.batch_size s).1 before
        → I s before
        → ((t : S) (a : List Message) → I t a → I (uc.uow.rollback s t) a)
        → let out = execute std uc before readings s in I out.1 (out.2).acked
    unfolding execute
    execute-keeps before readings s own claimed now back =
        finish-Holds (uc.clock readings) out (ended (with_tx-cases uc.uow work s first))
      where
        work : S → Pass → Option Error × S × Pass
        work = claim_and_publish std uc

        first : Pass
        first = record { acked = before; readings = readings + 1; result = new_result std uc }

        out : Option Error × S × Pass
        out = with_tx uc.uow work s first

        worked : Holds (work s first)
        worked = claim_and_publish-Holds s first own claimed

        there : (t : S) (w : Pass) → out.1 ≡ t → out.2 ≡ w → I t w.acked → Holds out
        there t w et ew h =
            subst (λ (x : S × Pass). I x.0 (x.1).acked) (λ i. (sym et i, sym ew i)) h

        ended :
            ((out.1 ≡ s) × (out.2 ≡ first))
              ⊎ (((out.1 ≡ (work s first).1) ⊎ (out.1 ≡ uc.uow.rollback s (work s first).1))
                  × (out.2 ≡ (work s first).2))
            → Holds out
        ended (inl (et, ew)) = there s first et ew now
        ended (inr (inl et, ew)) = there (work s first).1 (work s first).2 et ew worked
        ended (inr (inr et, ew)) =
            there (uc.uow.rollback s (work s first).1) (work s first).2 et ew
              (back (work s first).1 ((work s first).2).acked worked)

-- ===== src/Publish/Refines.antt =====
-- publishBatch does what the fates say: whenever it returns no error, the rows, the broker and the
-- result are what the fates of the batch make of them.
use mathlib.Core.Path.{fun_ext}
use mathlib.Core.List.{append_assoc, append-nil}
use outboxexpress.Common.{
  ℕ, ◌+◌, ◌≡◌, refl, sym, ap, ◌∙◌, subst, Option, none, some, List, [], ◌∷◌, ◌++◌, length, arith,
}
use outboxexpress.Common.Int.{ℤ, ◌+ℤ◌}
use outboxexpress.Domain.Std.{Std}
use outboxexpress.Errors.{Error, text}
use outboxexpress.Messaging.{Message}
use outboxexpress.Outbox.{
  OutboxRow, PendingMessage, RepositoryLaws, Writes, as_published, as_rescheduled, as_failed,
}
use outboxexpress.Publish.{
  PublishPendingBatch, Pass, failure_of, publish, on_ack, on_permanent, on_transient, settle_row,
  publish_batch, unless_err,
}
use outboxexpress.Publish.Fates.{
  Fate, delivered, parked, deferred, unclassified, fate_of, fates, go_on, messages, parked_failures,
  deferred_failures, RowMap, write_of, write_at, rows_after, AllClassified,
}
use outboxexpress.Publish.Shows.{Shows, publish-Shows}

unless_err-eq-none :
    {S W : Type 0} (r : Option Error × S) (w : W) (next : S → W → Option Error × S × W) {t : S}
    {w' : W}
    → unless_err r w next ≡ (none, t, w')
    → (r ≡ (none, r.1)) × (next r.1 w ≡ (none, t, w'))
unless_err-eq-none (some e, s) w next h = cc
unless_err-eq-none (none, s) w next h = (refl, h)

module _ (std : Std) {S : Type 0} (uc : PublishPendingBatch S) (row : S → RowMap) (now : ℤ) where
  -- The rows, the broker and the result after the fates, from those before.
  pub record Does (fs : List (PendingMessage × Fate)) (s t : S) (w w' : Pass) : Type 0 where
    pub rows : row t ≡ rows_after now uc.policy.after (uc.clock w.readings) fs (row s)
    pub acked : w'.acked ≡ w.acked ++ messages fs
    pub published : w'.result.published ≡ w.result.published + length (messages fs)
    pub permanent : w'.result.permanent ≡ w.result.permanent ++ parked_failures fs
    pub transient : w'.result.transient ≡ w.result.transient ++ deferred_failures fs
    pub claimed : w'.result.claimed ≡ w.result.claimed
    pub batch_size : w'.result.batch_size ≡ w.result.batch_size
    pub classified : AllClassified fs

  Writes-path :
      (id : ℕ) (write : OutboxRow → OutboxRow) (s t : S)
      → Writes row id write s t
      → row t ≡ write_at id write (row s)
  unfolding write_at
  Writes-path id write s t h = fun_ext λ j. go j
    where
      go : (j : ℕ) → row t j ≡ write_at id write (row s) j
      go j = ground (
        arith,
        h.before,
        h.after,
        h.others j,
        ap (row t) {x = j} {y = id},
        ap (row s) {x = j} {y = id},
      )

  Does-nil : (s : S) (w : Pass) → Does [] s s w w
  unfolding rows_after messages parked_failures deferred_failures
  Does-nil s w = record {
    rows = refl;
    acked = sym (append-nil w.acked);
    published = omega arith;
    permanent = sym (append-nil w.result.permanent);
    transient = sym (append-nil w.result.transient);
    claimed = refl;
    batch_size = refl;
    classified = tt;
  }

  -- One step of the loop in front of the rest of it.
  Does-delivered :
      (p : PendingMessage) (m : Message) (fs : List (PendingMessage × Fate)) (s u t : S)
      (w w' : Pass)
      → Writes row p.id (as_published now) s u
      → Does fs u t
          (record w {
            acked = w.acked ++ m ∷ [];
            result = record w.result { published = w.result.published + 1 };
          })
          w'
      → Does ((p, delivered m) ∷ fs) s t w w'
  unfolding rows_after write_of messages parked_failures deferred_failures
  Does-delivered p m fs s u t w w' h d = record {
    rows =
        d.rows
        ∙ ap (rows_after now uc.policy.after (uc.clock w.readings) fs)
            (Writes-path p.id (as_published now) s u h);
    acked = d.acked ∙ append_assoc w.acked (m ∷ []) (messages fs);
    published = omega (arith, d.published);
    permanent = d.permanent;
    transient = d.transient;
    claimed = d.claimed;
    batch_size = d.batch_size;
    classified = d.classified;
  }

  Does-parked :
      (p : PendingMessage) (e : Error) (fs : List (PendingMessage × Fate)) (s u t : S) (w w' : Pass)
      → Writes row p.id (as_failed (text e)) s u
      → Does fs u t
          (record w {
            result = record w.result { permanent = w.result.permanent ++ failure_of p e ∷ [] };
          })
          w'
      → Does ((p, parked e) ∷ fs) s t w w'
  unfolding rows_after write_of messages parked_failures deferred_failures
  Does-parked p e fs s u t w w' h d = record {
    rows =
        d.rows
        ∙ ap (rows_after now uc.policy.after (uc.clock w.readings) fs)
            (Writes-path p.id (as_failed (text e)) s u h);
    acked = d.acked;
    published = d.published;
    permanent =
        d.permanent ∙ append_assoc w.result.permanent (failure_of p e ∷ []) (parked_failures fs);
    transient = d.transient;
    claimed = d.claimed;
    batch_size = d.batch_size;
    classified = d.classified;
  }

  Does-deferred :
      (p : PendingMessage) (e : Error) (s t : S) (w : Pass)
      → Writes row p.id
          (as_rescheduled (uc.clock w.readings +ℤ uc.policy.after p.attempts) (text e))
          s
          t
      → Does ((p, deferred e) ∷ []) s t w (record w {
        readings = w.readings + 1;
        result = record w.result { transient = w.result.transient ++ failure_of p e ∷ [] };
      })
  unfolding rows_after write_of messages parked_failures deferred_failures
  Does-deferred p e s t w h = record {
    rows = Writes-path p.id _ s t h;
    acked = sym (append-nil w.acked);
    published = omega arith;
    permanent = sym (append-nil w.result.permanent);
    transient = refl;
    claimed = refl;
    batch_size = refl;
    classified = tt;
  }

  module _ (valid : S → Type 0) (laws : RepositoryLaws uc.outbox row valid now) where
    settle_row-Does :
        (p : PendingMessage) (next : S → Pass → Option Error × S × Pass)
        → (rest : List Message → List (PendingMessage × Fate)) (s t : S) (w w' : Pass)
        → ((u : S) (v : Pass) → next u v ≡ (none, t, w') → Does (rest v.acked) u t v w')
        → (f : Fate) (out : Option Error × List Message) → Shows f w.acked out
        → settle_row std uc p out next s w ≡ (none, t, w')
        → Does (go_on std uc p f rest w.acked) s t w w'
    unfolding go_on settle_row failure_of
    settle_row-Does p next rest s t w w' ih (delivered m) out shows h =
        let acked = w.acked ++ m ∷ [] in
        let counted : Pass = record w {
          acked = acked;
          result = record w.result { published = w.result.published + 1 };
        } in
        let h' : on_ack std uc p acked next s w ≡ (none, t, w') =
          subst (λ o. settle_row std uc p o next s w ≡ (none, t, w')) shows h in
        let (marked, more) = unless_err-eq-none (uc.outbox.mark_published p.id s) counted next h' in
        Does-delivered p m (rest acked) s _ t w w' (laws.mark_published_writes p.id s _ marked)
          (ih _ counted more)
    settle_row-Does p next rest s t w w' ih (parked e) out (shows, perm) h =
        let h' : on_permanent std uc p e next s w ≡ (none, t, w') =
          rw perm at (subst (λ o. settle_row std uc p o next s w ≡ (none, t, w')) shows h) in
        let (marked, more) =
          unless_err-eq-none (uc.outbox.mark_failed p.id (text e) s) w
            (λ u v. next u (record v {
              result = record v.result { permanent = v.result.permanent ++ failure_of p e ∷ [] };
            }))
            h' in
        Does-parked p e (rest w.acked) s _ t w w' (laws.mark_failed_writes p.id (text e) s _ marked)
          (ih _ _ more)
    settle_row-Does p next rest s t w w' ih (deferred e) out (shows, perm, tran) h =
        let h' : on_transient std uc p e s w ≡ (none, t, w') =
          rw tran at
            (rw perm at (subst (λ o. settle_row std uc p o next s w ≡ (none, t, w')) shows h)) in
        let at = uc.clock w.readings +ℤ uc.policy.after p.attempts in
        let read : Pass = record w { readings = w.readings + 1 } in
        let (marked, more) =
          unless_err-eq-none (uc.outbox.reschedule p.id at (text e) s) read
            (λ u v. (
              none,
              u,
              record v {
                result = record v.result { transient = v.result.transient ++ failure_of p e ∷ [] };
              },
            ))
            h' in
        subst (λ (x : S × Pass). Does ((p, deferred e) ∷ []) s x.0 w x.1)
          (ap (λ (o : Option Error × S × Pass). (o.1, o.2)) more)
          (Does-deferred p e s _ w (laws.reschedule_writes p.id at (text e) s _ marked))
    settle_row-Does p next rest s t w w' ih (unclassified e) out (shows, perm, tran) h =
        let h' : ◌≡◌ {A = Option Error × S × Pass} (some e, s, w) (none, t, w') =
          rw tran at
            (rw perm at (subst (λ o. settle_row std uc p o next s w ≡ (none, t, w')) shows h)) in
        cc

    -- Whenever publishBatch returns no error, the rows, the broker's acknowledged messages and the
    -- result are what the fates of the batch make of them: an acknowledged row is published, a
    -- permanent failure is parked, the first transient failure is put off by the backoff from the
    -- time of the failure, the rows behind it are not touched, and nothing was unclassified.
    pub publish_batch-Does :
        (batch : List PendingMessage) (s t : S) (w w' : Pass)
        → publish_batch std uc batch s w ≡ (none, t, w')
        → Does (fates std uc batch w.acked) s t w w'
    unfolding publish_batch fates
    publish_batch-Does [] s t w w' h =
        subst (λ (x : S × Pass). Does [] s x.0 w x.1)
          (ap (λ (o : Option Error × S × Pass). (o.1, o.2)) h) (Does-nil s w)
    publish_batch-Does (p ∷ ps) s t w w' h =
        settle_row-Does p (publish_batch std uc ps) (fates std uc ps) s t w w'
          (λ u v. publish_batch-Does ps u t v w') (fate_of std uc p w.acked)
          (publish std uc p w.acked) (publish-Shows std uc p w.acked) h

-- ===== src/Publish/Safety.antt =====
-- What a pass may do to a row, whatever the broker answers.

use mathlib.Core.List.{Memᴰ}
use outboxexpress.Common.{
  ℕ, ◌+◌, ◌≡◌, refl, sym, ap, ◌∙◌, ◌≢◌, subst, true, Option, none, some, List, [], ◌∷◌, ◌++◌, map,
  All,
}
use outboxexpress.Common.Int.{ℤ, ◌+ℤ◌}
use outboxexpress.Domain.Std.{Std}
use outboxexpress.Errors.{Error, is, text, permanent, transient}
use outboxexpress.Messaging.{Message}
use outboxexpress.Outbox.{
  OutboxRow, PendingMessage, pending, published, failed, RepositoryLaws, IsDue, scan, as_published,
  as_rescheduled, as_failed,
}
use outboxexpress.Publish.{PublishPendingBatch, Pass, message, execute}
use outboxexpress.Publish.Fates.{Fate, delivered, parked, deferred, unclassified, fates, RowMap}
use outboxexpress.Publish.Rows.{fate_at, row_by, rows_after-fate_at}
use outboxexpress.Publish.Outcome.{Passed, execute-Passed, fates-ids, fates-prefix}
use outboxexpress.Publish.Given.{
  fate_at-All, Given, fates-Given, fate_of-delivered, fate_of-parked, fate_of-deferred,
  Memᴰ-append-right, messages-mem,
}

module _ (std : Std) {S : Type 0} (uc : PublishPendingBatch S) (row : S → RowMap)
    (valid : S → Type 0) (now : ℤ) (laws : RepositoryLaws uc.outbox row valid now) where
  -- What one pass from `s` to `t`, `w` has done with the row `r`, and why.
  pub data RowFate (readings : ℕ) (t : S) (w : Pass) (r : OutboxRow) : Type 0 where
    untouched : row t r.id ≡ some r → RowFate readings t w r
    acked :
        (m : Message)
        → r.status ≡ pending
        → Memᴰ m w.acked
        → m.event_id ≡ std.uuid_string r.event_id
        → m.key ≡ r.aggregate_id
        → m.payload ≡ r.payload
        → row t r.id
          ≡ some (record r { status = published; published_at = some now; last_error = none })
        → RowFate readings t w r
    refused :
        (e : Error)
        → r.status ≡ pending
        → is e permanent ≡ true
        → row t r.id ≡ some (record r { status = failed; last_error = some (text e) })
        → RowFate readings t w r
    put_off :
        (e : Error)
        → r.status ≡ pending
        → is e transient ≡ true
        → row t r.id
          ≡ some (record r {
            attempts = r.attempts + 1;
            available_at = uc.clock (readings + 1) +ℤ uc.policy.after r.attempts;
            last_error = some (text e);
          })
        → RowFate readings t w r

  fates-IsDue :
      (s : S) (xs : List (PendingMessage × Fate)) (rest : List PendingMessage)
      → All (IsDue (row s) now) (map (λ x. x.0) xs ++ rest)
      → All (λ x. IsDue (row s) now (x.0)) xs
  fates-IsDue s [] rest h = tt
  fates-IsDue s (x ∷ xs) rest h = (h.0, fates-IsDue s xs rest h.1)

  Passed-RowFate :
      (before : List Message) (readings : ℕ) (s t : S) (w : Pass)
      → Passed std uc row valid now laws before readings s t w
      → (r : OutboxRow) → row s r.id ≡ some r
      → RowFate readings t w r
  unfolding row_by message as_published as_failed as_rescheduled
  Passed-RowFate before readings s t w passed r stored = go (fate_at fs r.id) refl
    where
      open passed use {batch, ordered, due, does}

      fs : List (PendingMessage × Fate)
      fs = fates std uc batch before

      changed :
          row t r.id
          ≡ row_by now uc.policy.after (uc.clock (readings + 1)) (fate_at fs r.id) (some r)
      changed =
          ap (λ (f : RowMap). f r.id) does.rows
          ∙ rows_after-fate_at now uc.policy.after (uc.clock (readings + 1)) fs (row s) r.id
              (fates-ids std uc batch before ordered)
          ∙ ap (row_by now uc.policy.after (uc.clock (readings + 1)) (fate_at fs r.id)) stored

      claimed :
          (x : PendingMessage × Fate)
          → fate_at fs r.id ≡ some x
          → IsDue (row s) now (x.0) × ((x.0).id ≡ r.id)
      claimed x e =
          let (rest, prefix) = fates-prefix std uc batch before in
          fate_at-All (λ y. IsDue (row s) now (y.0)) fs r.id x
            (fates-IsDue s fs rest (subst (All (IsDue (row s) now)) (sym prefix) due)) e

      own :
          (p : PendingMessage)
          → IsDue (row s) now p
          → p.id ≡ r.id
          → (p ≡ scan r) × (r.status ≡ pending)
      own p d e =
          let at : some d.source ≡ some r = sym d.stored ∙ ap (row s) e ∙ stored in
          (cc (d.scanned), cc (d.waiting))

      ended :
          (o : Option (PendingMessage × Fate))
          → fate_at fs r.id ≡ o
          → row t r.id ≡ row_by now uc.policy.after (uc.clock (readings + 1)) o (some r)
      ended o e =
          changed ∙ ap (λ x. row_by now uc.policy.after (uc.clock (readings + 1)) x (some r)) e

      given : (x : PendingMessage × Fate) → fate_at fs r.id ≡ some x → Given std uc x
      given x e = (fate_at-All (Given std uc) fs r.id x (fates-Given std uc batch before) e).0

      go : (o : Option (PendingMessage × Fate)) → fate_at fs r.id ≡ o → RowFate readings t w r
      go none e = untouched (ended none e)
      go (some (p, delivered m)) e =
          let (d, same) = claimed (p, delivered m) e in
          let (read, waiting) = own p d same in
          let (history, f) = given (p, delivered m) e in
          let (topic, routed, made) = fate_of-delivered std uc p history m f in
          acked m waiting
            (subst (Memᴰ m) (sym does.acked)
              (Memᴰ-append-right before (messages-mem fs r.id p m e)))
            (ap (λ (x : Message). x.event_id) made
              ∙ ap (λ (q : PendingMessage). std.uuid_string q.event_id) read)
            (ap (λ (x : Message). x.key) made ∙ ap (λ (q : PendingMessage). q.aggregate_id) read)
            (ap (λ (x : Message). x.payload) made ∙ ap (λ (q : PendingMessage). q.payload) read)
            (ended (some (p, delivered m)) e)
      go (some (p, parked x)) e =
          let (d, same) = claimed (p, parked x) e in
          let (history, f) = given (p, parked x) e in
          refused x (own p d same).1 (fate_of-parked std uc p history x f)
            (ended (some (p, parked x)) e)
      go (some (p, deferred x)) e =
          let (d, same) = claimed (p, deferred x) e in
          let (read, waiting) = own p d same in
          let (history, f) = given (p, deferred x) e in
          put_off x waiting (fate_of-deferred std uc p history x f) (
            ended (some (p, deferred x)) e
            ∙ ap
                (λ (q : PendingMessage). some (
                  as_rescheduled (uc.clock (readings + 1) +ℤ uc.policy.after q.attempts) (text x)
                    r))
                read)
      go (some (p, unclassified x)) e = untouched (ended (some (p, unclassified x)) e)

  -- Each row that was in the table before a pass that returned no error was left alone, or was
  -- pending and was published with its own message acknowledged, or was pending and parked for a
  -- permanent error, or was pending and put off for a transient one, and stays pending then.
  pub execute-RowFate :
      (before : List Message) (readings : ℕ) (s t : S) (w : Pass)
      → valid s
      → execute std uc before readings s ≡ (none, t, w)
      → (r : OutboxRow) → row s r.id ≡ some r
      → RowFate readings t w r
  execute-RowFate before readings s t w ready ran =
      Passed-RowFate before readings s t w
        (execute-Passed std uc row valid now laws before readings s t w ready ran)

  -- A row that a pass has published was acknowledged by the broker in that pass or before, under the
  -- row's own event id and with the row's own payload.
  pub published_was_acked :
      (before : List Message) (readings : ℕ) (s t : S) (w : Pass)
      → Passed std uc row valid now laws before readings s t w
      → (r r' : OutboxRow) → row s r.id ≡ some r
      → row t r.id ≡ some r'
      → r.status ≢ published
      → r'.status ≡ published
      → (m : Message) × Memᴰ m w.acked
        × (m.event_id ≡ std.uuid_string r.event_id)
        × (m.payload ≡ r.payload)
  unfolding as_failed as_rescheduled
  published_was_acked before readings s t w passed r r' stored after was is_now =
      go (Passed-RowFate before readings s t w passed r stored)
    where
      go :
          RowFate readings t w r
          → (m : Message) × Memᴰ m w.acked
            × (m.event_id ≡ std.uuid_string r.event_id)
            × (m.payload ≡ r.payload)
      go (untouched e) = absurd (was (cc (sym e ∙ after)))
      go (acked m waiting mem i k p e) = (m, mem, i, p)
      go (refused x waiting perm e) = absurd (cc (sym e ∙ after))
      go (put_off x waiting tran e) = absurd (cc (sym e ∙ after))

  -- A transient failure never parks a row: a row that a pass has parked met a permanent error, which
  -- is its last_error.
  pub parked_was_permanent :
      (before : List Message) (readings : ℕ) (s t : S) (w : Pass)
      → Passed std uc row valid now laws before readings s t w
      → (r r' : OutboxRow) → row s r.id ≡ some r
      → row t r.id ≡ some r'
      → r.status ≢ failed
      → r'.status ≡ failed
      → (e : Error) × (is e permanent ≡ true) × (r'.last_error ≡ some (text e))
  unfolding as_failed as_rescheduled as_published
  parked_was_permanent before readings s t w passed r r' stored after was is_now =
      go (Passed-RowFate before readings s t w passed r stored)
    where
      go :
          RowFate readings t w r
          → (e : Error) × (is e permanent ≡ true) × (r'.last_error ≡ some (text e))
      go (untouched e) = absurd (was (cc (sym e ∙ after)))
      go (acked m waiting mem i k p e) = absurd (cc (sym e ∙ after))
      go (refused x waiting perm e) = (x, perm, cc (sym e ∙ after))
      go (put_off x waiting tran e) = absurd (cc (sym e ∙ after))

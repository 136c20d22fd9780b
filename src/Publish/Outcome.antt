-- ===== src/Publish/Outcome.antt =====
-- Execute as a whole: what a pass that returns no error has done, and what one that fails leaves.

use outboxexpress.Common.{
  ℕ, ◌+◌, ◌≤◌, ◌<◌, ◌≡◌, refl, sym, ap, ◌∙◌, ◌≢◌, subst, Option, none, some, List, [], ◌∷◌, ◌++◌,
  map, arith, All, Pairs, length,
}
use outboxexpress.Common.Int.{ℤ}
use outboxexpress.Domain.Std.{Std}
use outboxexpress.Errors.{Error, Result, ok, err}
use outboxexpress.Messaging.{Message}
use outboxexpress.Outbox.{PendingMessage, RepositoryLaws, IsDue}
use outboxexpress.Postgres.Tx.{with_tx, with_tx-eq-none}
use outboxexpress.Publish.{
  PublishPendingBatch, Pass, publish_batch, claim_and_publish, finish, execute, new_result, observe,
}
use outboxexpress.Publish.Fates.{
  Fate, delivered, parked, deferred, unclassified, fate_of, fates, go_on, RowMap,
}
use outboxexpress.Publish.Refines.{Does, publish_batch-Does}
use outboxexpress.Publish.Rows.{ids}

module _ (std : Std) {S : Type 0} (uc : PublishPendingBatch S) where
  go_on-prefix :
      (p : PendingMessage) (ps : List PendingMessage) (acked : List Message)
      → ((a : List Message)
          → (rest : List PendingMessage) × (map (λ x. x.0) (fates std uc ps a) ++ rest ≡ ps))
      → (f : Fate)
      → (rest : List PendingMessage) × (map (λ x. x.0) (go_on std uc p f (fates std uc ps) acked)
            ++ rest
          ≡ p ∷ ps)
  unfolding go_on
  go_on-prefix p ps acked ih (delivered m) =
      let (rest, e) = ih (acked ++ m ∷ []) in (rest, ap (◌∷◌ p) e)
  go_on-prefix p ps acked ih (parked x) = let (rest, e) = ih acked in (rest, ap (◌∷◌ p) e)
  go_on-prefix p ps acked ih (deferred x) = (ps, refl)
  go_on-prefix p ps acked ih (unclassified x) = (ps, refl)

  -- The rows with a fate are the first ones of the batch, in its order.
  pub fates-prefix :
      (batch : List PendingMessage) (acked : List Message)
      → (rest : List PendingMessage) × (map (λ x. x.0) (fates std uc batch acked) ++ rest ≡ batch)
  unfolding fates
  fates-prefix [] acked = ([], refl)
  fates-prefix (p ∷ ps) acked = go_on-prefix p ps acked (fates-prefix ps) (fate_of std uc p acked)

  prefix-Pairs :
      (xs : List (PendingMessage × Fate)) (rest : List PendingMessage)
      → Pairs (λ p q. p.id < q.id) (map (λ x. x.0) xs ++ rest)
      → Pairs (λ a b. a ≢ b) (ids xs)
  prefix-Pairs [] rest h = tt
  prefix-Pairs (x ∷ xs) rest h = (apart xs h.0, prefix-Pairs xs rest h.1)
    where
      apart :
          (ys : List (PendingMessage × Fate))
          → All (λ q. (x.0).id < q.id) (map (λ y. y.0) ys ++ rest)
          → All (λ b. (x.0).id ≢ b) (ids ys)
      apart [] k = tt
      apart (y ∷ ys) k = (λ e. absurd (omega (arith, k.0)), apart ys k.1)

  pub fates-ids :
      (batch : List PendingMessage) (acked : List Message)
      → Pairs (λ p q. p.id < q.id) batch
      → Pairs (λ a b. a ≢ b) (ids (fates std uc batch acked))
  fates-ids batch acked h =
      let (rest, e) = fates-prefix batch acked in
      prefix-Pairs (fates std uc batch acked) rest (subst (Pairs (λ p q. p.id < q.id)) (sym e) h)

  finish-eq-none :
      (started : ℤ) (out : Option Error × S × Pass) (t : S) (w : Pass)
      → finish std uc started out ≡ (none, t, w)
      → (out.0 ≡ none)
        × (out.1 ≡ t)
        × (w.acked ≡ (out.2).acked)
        × (w.result.claimed ≡ (out.2).result.claimed)
        × (w.result.published ≡ (out.2).result.published)
        × (w.result.permanent ≡ (out.2).result.permanent)
        × (w.result.transient ≡ (out.2).result.transient)
        × (w.result.batch_size ≡ (out.2).result.batch_size)
  unfolding finish observe
  finish-eq-none started (none, s, v) t w h = ground arith
  finish-eq-none started (some e, s, v) t w h = cc

  module _ (row : S → RowMap) (valid : S → Type 0) (now : ℤ)
      (laws : RepositoryLaws uc.outbox row valid now) where
    -- A pass from the state `s`, after `acked`, that ended in `t` and `w`.
    pub record Passed (acked : List Message) (readings : ℕ) (s t : S) (w : Pass) : Type 0 where
      pub batch : List PendingMessage
      pub claimed : (uc.outbox.claim_pending uc.policy.batch_size s).0 ≡ ok batch
      pub bounded : length batch ≤ uc.policy.batch_size
      pub ordered : Pairs (λ p q. p.id < q.id) batch
      pub due : All (IsDue (row s) now) batch
      pub does :
          Does std uc row now
            (fates std uc batch acked)
            s
            t
            (record {
              acked = acked;
              readings = readings + 1;
              result = record (new_result std uc) { claimed = length batch };
            })
            w

    claim_and_publish-Passed :
        (readings : ℕ) (s t : S) (v w : Pass)
        → valid s
        → claim_and_publish std uc s v ≡ (none, t, w)
        → (batch : List PendingMessage) × ((uc.outbox.claim_pending uc.policy.batch_size s).0
            ≡ ok batch)
          × (length batch ≤ uc.policy.batch_size)
          × Pairs (λ p q. p.id < q.id) batch
          × All (IsDue (row s) now) batch
          × Does std uc row now
              (fates std uc batch v.acked)
              s
              t
              (record v { result = record v.result { claimed = length batch } })
              w
    unfolding claim_and_publish
    claim_and_publish-Passed readings s t v w ready h =
        go (uc.outbox.claim_pending uc.policy.batch_size s) refl h
      where
        go :
            (c : Result (List PendingMessage) × S)
            → uc.outbox.claim_pending uc.policy.batch_size s ≡ c
            → elim (c.0) [
              | err e ↦ (some e, c.1, v)
              | ok batch ↦
                  publish_batch std uc batch c.1
                    (record v { result = record v.result { claimed = length batch } })
            ]
              ≡ (none, t, w)
            → (batch : List PendingMessage) × (c.0 ≡ ok batch)
              × (length batch ≤ uc.policy.batch_size)
              × Pairs (λ p q. p.id < q.id) batch
              × All (IsDue (row s) now) batch
              × Does std uc row now
                  (fates std uc batch v.acked)
                  s
                  t
                  (record v { result = record v.result { claimed = length batch } })
                  w
        go (err e, u) eq k = cc
        go (ok batch, u) eq k =
            let (same, short, ordered, due) =
              laws.claim_reads uc.policy.batch_size s u batch ready eq in
            (
              batch,
              refl,
              short,
              ordered,
              due,
              subst
                  (λ x.
                    Does std uc row now (fates std uc batch v.acked) x t
                      (record v { result = record v.result { claimed = length batch } }) w)
                  same
                  (publish_batch-Does std uc row now valid laws batch u t
                    (record v { result = record v.result { claimed = length batch } }) w k),
            )

    -- A pass that returns no error has claimed, in ascending order of their ids, at most as many rows
    -- as the batch size, each pending and due; and the rows, the acknowledged messages and the counts
    -- of its result are what the fates of that batch make of them.
    pub execute-Passed :
        (acked : List Message) (readings : ℕ) (s t : S) (w : Pass)
        → valid s
        → execute std uc acked readings s ≡ (none, t, w)
        → Passed acked readings s t w
    unfolding execute
    execute-Passed acked readings s t w ready h =
        let first : Pass = record {
          acked = acked;
          readings = readings + 1;
          result = new_result std uc;
        } in
        let out = with_tx uc.uow (claim_and_publish std uc) s first in
        let (fine, ended, a, c, n, p, r, b) = finish-eq-none (uc.clock readings) out t w h in
        let ran : out ≡ (none, out.1, out.2) = λ i. (fine i, out.1, out.2) in
        let worked =
          (with_tx-eq-none uc.uow (claim_and_publish std uc) s (out.1) first (out.2) ran).0 in
        let (batch, claimed, bounded, ordered, due, d) =
          claim_and_publish-Passed readings s (out.1) first (out.2) ready worked in
        record {
          batch = batch;
          claimed = claimed;
          bounded = bounded;
          ordered = ordered;
          due = due;
          does = record {
            rows = sym (ap row ended) ∙ d.rows;
            acked = a ∙ d.acked;
            published = n ∙ d.published;
            permanent = p ∙ d.permanent;
            transient = r ∙ d.transient;
            claimed = c ∙ d.claimed;
            batch_size = b ∙ d.batch_size;
            classified = d.classified;
          };
        }

-- ===== src/System/Batches.antt =====
-- A batch whose messages are all acknowledged leaves no row pending.
use mathlib.Core.List.{Memᴰ}
use mathlib.Core.List.Memᴰ.{not-nil, cases_cons}
use outboxexpress.Common.{
  ℕ, ◌+◌, ◌≡◌, ◌≢◌, refl, sym, ap, ◌∙◌, subst, ◌⊎◌, inl, inr, ◌<◌, String, Bool, true, none, some,
  Option, List, [], ◌∷◌, ◌++◌, All, All-imp, Pairs, map, filter, Bool-cases, ◌==◌, arith,
}
use outboxexpress.Domain.Std.{Std}
use outboxexpress.Domain.User.{aggregate_type_user}
use outboxexpress.Errors.{Error, Result, ok, err}
use outboxexpress.Messaging.{Message}
use outboxexpress.Outbox.{OutboxRow, PendingMessage, pending, as_published}
use outboxexpress.Outbox.Table.{affected, update_where}
use outboxexpress.Postgres.Db.{Db, Server, Statement}
use outboxexpress.Postgres.RelayOutbox.{mark_one, relay_outbox}
use outboxexpress.Postgres.RelayOutbox.Marks.{HasRow, affected-update_where}
use outboxexpress.Publish.{
  PublishPendingBatch, Pass, produce, message, topic_for, publish, on_ack, settle_row,
  publish_batch,
}

affected_later : (id : ℕ) (rows : List OutboxRow) → All (λ r. id < r.id) rows → affected id rows ≡ 0
unfolding affected
affected_later id [] h = refl
affected_later id (r ∷ rs) h = ground (arith, h.0, affected_later id rs h.1)

-- By the primary key each row is the only one with its id.
pub affected_self :
    (rows : List OutboxRow)
    → Pairs (λ r q. r.id < q.id) rows
    → All (λ r. affected r.id rows ≡ 1) rows
unfolding affected
affected_self [] h = tt
affected_self (r ∷ rs) h =
    (ground (arith, affected_later r.id rs h.0), later rs h.0 (affected_self rs h.1))
  where
    later :
        (qs : List OutboxRow)
        → All (λ q. r.id < q.id) qs
        → All (λ q. affected q.id rs ≡ 1) qs
        → All (λ q. affected q.id (r ∷ rs) ≡ 1) qs
    later [] above one = tt
    later (q ∷ qs) above one = (ground (arith, above.0, one.0), later qs above.1 one.1)

pub filter-Memᴰ :
    (p : OutboxRow → Bool) {r : OutboxRow} {rows : List OutboxRow}
    → Memᴰ r rows
    → p r ≡ true
    → Memᴰ r (filter p rows)
filter-Memᴰ p (Memᴰ.head {x} e) h =
    let kept : p x ≡ true = sym (ap p e) ∙ h in rw kept (Memᴰ.head e)
filter-Memᴰ p (Memᴰ.tail {x} m) h = elim (Bool-cases (p x)) [
  | inl kept ↦ rw kept (Memᴰ.tail (filter-Memᴰ p m h))
  | inr gone ↦ rw gone (filter-Memᴰ p m h)
]

-- A write of the rows with an id, of which the others are known to hold.
All-update_where_ne :
    (P : OutboxRow → Type 0) (id : ℕ) (f : OutboxRow → OutboxRow) (rows : List OutboxRow)
    → ((r : OutboxRow) → P (f r))
    → All (λ r. r.id ≢ id → P r) rows
    → All P (update_where id f rows)
unfolding update_where
All-update_where_ne P id f [] written h = tt
All-update_where_ne P id f (r ∷ rs) written h = elim (Bool-cases (r.id == id)) [
  | inl e ↦ rw e (written r, All-update_where_ne P id f rs written h.1)
  | inr e ↦ rw e (h.0 (ground arith), All-update_where_ne P id f rs written h.1)
]

-- The ids of a batch.
abbrev pub batch_ids : List PendingMessage → List ℕ
batch_ids = map (λ p. p.id)

-- Only rows of the batch are pending.
abbrev pub OnlyPending : List PendingMessage → Db → Type 0
OnlyPending batch s = All (λ r. r.status ≡ pending → Memᴰ r.id (batch_ids batch)) s.outbox

-- The use case over the relay's repository on a server.
abbrev pub on_server : Std → Server → PublishPendingBatch Db → PublishPendingBatch Db
on_server std server uc = record uc { outbox = relay_outbox std server }

module _ (std : Std) (server : Server) (uc : PublishPendingBatch Db) (topic : String)
    (served : (statement : Statement) (db : Db) → server.fault statement db ≡ none)
    (acks : (m : Message) (acked : List Message) → uc.broker m acked ≡ none)
    (routed : topic_for std uc.topics aggregate_type_user ≡ ok topic) where
  publish-none :
      (p : PendingMessage) (acked : List Message)
      → p.aggregate_type ≡ aggregate_type_user
      → (publish std (on_server std server uc) p acked).0 ≡ none
  unfolding publish
  publish-none p acked user =
      go (topic_for std uc.topics p.aggregate_type) (ap (topic_for std uc.topics) user ∙ routed)
    where
      asked :
          (m : Message) (b : Option Error)
          → b ≡ none
          → ◌≡◌ {A = Option Error}
              (elim b as (λ x. Option Error × List Message) [
                | none ↦ (none, acked ++ m ∷ [])
                | some e ↦ (some e, acked)
              ]).0
              none
      asked m none h = refl
      asked m (some e) h = cc

      go :
          (r : Result String)
          → r ≡ ok topic
          → ◌≡◌ {A = Option Error}
              (elim r as (λ x. Option Error × List Message) [
                | err e ↦ (some e, acked)
                | ok t ↦ produce std (on_server std server uc) (message std t p) acked
              ]).0
              none
      go (err e) h = cc
      go (ok t) h = asked (message std t p) (uc.broker (message std t p) acked) (acks _ acked)

  mark-none :
      (id : ℕ) (s : Db)
      → HasRow s id
      → (relay_outbox std server).mark_published id s
        ≡ (none, record s { outbox = update_where id (as_published server.now) s.outbox })
  unfolding relay_outbox mark_one
  mark-none id s one = rw (mark_one, served, one) refl

  OnlyPending-mark :
      (p : PendingMessage) (ps : List PendingMessage) (s : Db)
      → OnlyPending (p ∷ ps) s
      → OnlyPending ps (record s { outbox = update_where p.id (as_published server.now) s.outbox })
  unfolding as_published update_where
  OnlyPending-mark p ps s h =
      All-update_where_ne (λ r. r.status ≡ pending → Memᴰ r.id (batch_ids ps)) p.id
        (as_published server.now) s.outbox (λ r wrong. cc)
        (All-imp (λ r. r.status ≡ pending → Memᴰ r.id (p.id ∷ batch_ids ps))
          (λ r. r.id ≢ p.id → r.status ≡ pending → Memᴰ r.id (batch_ids ps))
          (λ r k ne waiting. behind r ne (cases_cons (k waiting))) s.outbox h)
    where
      behind :
          (r : OutboxRow)
          → r.id ≢ p.id
          → (r.id ≡ p.id) ⊎ Memᴰ r.id (batch_ids ps)
          → Memᴰ r.id (batch_ids ps)
      behind r ne (inl same) = absurd (ne same)
      behind r ne (inr mem) = mem

  HasRow-mark :
      (id j : ℕ) (s : Db)
      → HasRow s j
      → HasRow (record s { outbox = update_where id (as_published server.now) s.outbox }) j
  unfolding as_published
  HasRow-mark id j s h =
      affected-update_where id j (as_published server.now) s.outbox (λ r. refl) ∙ h

  -- An acknowledged row is marked, and the loop goes on.
  settle_row-acked :
      (p : PendingMessage) (out : Option Error × List Message)
      (next : Db → Pass → Option Error × Db × Pass) (s : Db) (w : Pass)
      → out.0 ≡ none
      → HasRow s p.id
      → (v : Pass) × (settle_row std (on_server std server uc) p out next s w
          ≡ next (record s { outbox = update_where p.id (as_published server.now) s.outbox }) v)
  unfolding settle_row on_ack
  settle_row-acked p (none, acked) next s w sent one = (
    record w { acked = acked; result = record w.result { published = w.result.published + 1 } },
    rw (settle_row, on_ack, mark-none p.id s one) refl,
  )
  settle_row-acked p (some e, acked) next s w sent one = cc

  pub publish_batch-drains :
      (batch : List PendingMessage) (s : Db) (w : Pass)
      → All (λ p. p.aggregate_type ≡ aggregate_type_user) batch
      → All (λ p. HasRow s p.id) batch
      → OnlyPending batch s
      → let out = publish_batch std (on_server std server uc) batch s w in
        (out.0 ≡ none) × All (λ r. r.status ≢ pending) out.1.outbox
  unfolding publish_batch settle_row on_ack
  publish_batch-drains [] s w types has only = (
    refl,
    All-imp (λ r. r.status ≡ pending → Memᴰ r.id []) (λ r. r.status ≢ pending)
        (λ r h k. not-nil (h k)) s.outbox only,
  )
  publish_batch-drains (p ∷ ps) s w types has only =
      let marked = record s { outbox = update_where p.id (as_published server.now) s.outbox } in
      let (v, goes_on) =
        settle_row-acked p (publish std (on_server std server uc) p w.acked)
          (publish_batch std (on_server std server uc) ps) s w (publish-none p w.acked types.0)
          has.0 in
      subst
        (λ (out : Option Error × Db × Pass).
          (out.0 ≡ none) × All (λ r. r.status ≢ pending) out.1.outbox)
        (sym goes_on)
        (publish_batch-drains ps marked v types.1
          (All-imp (λ q. HasRow s q.id) (λ q. HasRow marked q.id) (λ q h. HasRow-mark p.id q.id s h)
            ps has.1)
          (OnlyPending-mark p ps s only))

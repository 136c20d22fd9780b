-- ===== src/System/Draining.antt =====
-- A pass that meets no failure leaves no pending row.
use mathlib.Core.List.{Memᴰ}
use mathlib.Core.List.Memᴰ.{map as map_mem}
use outboxexpress.Common.{
  ℕ, ◌+◌, ◌≡◌, ◌≢◌, refl, sym, ap, ◌∙◌, subst, ◌⊎◌, inl, inr, ◌≤◌, String, true, none, some, Option,
  List, All, All-imp, All-map, map, filter, filter-keeps, length, length-filter-le, arith,
}
use outboxexpress.Common.Int.{ℤ, ◌≤ℤ◌}
use outboxexpress.Domain.Std.{Std}
use outboxexpress.Domain.User.{aggregate_type, aggregate_type_user, registration}
use outboxexpress.Errors.{Error, Result, ok, err}
use outboxexpress.Messaging.{Message, Codec}
use outboxexpress.Envelope.{Envelope, UserRegisteredData}
use outboxexpress.Outbox.{OutboxRow, PendingMessage, scan, pending, failed}
use outboxexpress.Postgres.Tx.{committed, TxServer, with_tx, with_tx-eq-done}
use outboxexpress.Postgres.Db.{Db, UserRow, Server, Grabs, Statement, due_rows, is_due, IsValid}
use outboxexpress.Postgres.RelayOutbox.{claim_pending, relay_outbox}
use outboxexpress.Postgres.RelayOutbox.Laws.{due_rows-ordered}
use outboxexpress.Postgres.RelayOutbox.Marks.{HasRow}
use outboxexpress.Publish.{
  PublishPendingBatch, Pass, topic_for, publish_batch, claim_and_publish, finish, execute,
  new_result,
}
use outboxexpress.System.{System, relayed, Restores, Announces, HasUser, IsSent, IsCovered, IsSound}
use outboxexpress.System.Relaying.{relayed-IsSound}
use outboxexpress.System.Runs.{IsAccounted, IsCovered-IsAccounted}
use outboxexpress.System.Sound.{All-mem, All-envelopes, All-from-mem}
use outboxexpress.System.Batches.{
  affected_self, filter-Memᴰ, batch_ids, OnlyPending, on_server, publish_batch-drains,
}

module _ (std : Std) (server : Server) (uc : PublishPendingBatch Db) (topic : String)
    (served : (statement : Statement) (db : Db) → server.fault statement db ≡ none)
    (acks : (m : Message) (acked : List Message) → uc.broker m acked ≡ none)
    (routed : topic_for std uc.topics aggregate_type_user ≡ ok topic) where
  with_tx-state :
      {V : Type 0} (tx : TxServer Db) (fn : Db → V → Option Error × Db × V) (s : Db) (w : V)
      → tx.begin ≡ none
      → ((t : Db) → tx.commit t ≡ committed)
      → (fn s w).0 ≡ none
      → (with_tx tx fn s w).1 ≡ (fn s w).1
  with_tx-state tx fn s w begun commits fine =
      let (_, t, w') = fn s w in
      ap (λ (out : Option Error × Db × _). out.1)
        (with_tx-eq-done tx fn s t w w' begun (λ i. (fine i, t, w')) (commits t))

  finish-state :
      (started : ℤ) (out : Option Error × Db × Pass)
      → (finish std (on_server std server uc) started out).1 ≡ out.1
  unfolding finish
  finish-state started (none, t, w) = refl
  finish-state started (some e, t, w) = refl

  module _ (takes : (n : ℕ) (rows : List OutboxRow) → length rows ≤ n → server.grab n rows ≡ rows)
      (db : Db) (valid : IsValid db)
      (users : All (λ r. r.aggregate_type ≡ aggregate_type_user) db.outbox)
      (room : length db.outbox ≤ uc.policy.batch_size)
      (due : All (λ r. r.status ≡ pending → r.available_at ≤ℤ server.now) db.outbox) where
    abbrev Drained : Option Error × Db × Pass → Type 0
    Drained out = (out.0 ≡ none) × All (λ r. r.status ≢ pending) out.1.outbox

    abbrev claimable : List OutboxRow
    claimable = filter (is_due server.now) db.outbox

    claims : claim_pending std server uc.policy.batch_size db ≡ (ok (map scan claimable), db)
    unfolding claim_pending
    claims = rw (claim_pending, served) (λ i. (ok (map scan (taken i)), db))
      where
        taken : server.grab uc.policy.batch_size (due_rows server.now db.outbox) ≡ claimable
        taken =
            ap (server.grab uc.policy.batch_size)
              (due_rows-ordered std server db.outbox valid.ordered)
            ∙ takes uc.policy.batch_size claimable
                (omega (arith, length-filter-le (is_due server.now) db.outbox, room))

    only_claimable : OnlyPending (map scan claimable) db
    only_claimable =
        All-from-mem (λ r. r.status ≡ pending → Memᴰ r.id (batch_ids (map scan claimable)))
          db.outbox
          λ r mem waiting.
            map_mem (λ (p : PendingMessage). p.id)
              (map_mem scan (
                filter-Memᴰ (is_due server.now) mem (
                  due_now r waiting (
                    All-mem (λ q. q.status ≡ pending → q.available_at ≤ℤ server.now) mem due
                      waiting))))
      where
        due_now :
            (r : OutboxRow)
            → r.status ≡ pending
            → r.available_at ≤ℤ server.now
            → is_due server.now r ≡ true
        due_now r waiting passed = ground (arith, waiting, passed)

    claim_and_publish-drains :
        (w : Pass) → Drained (claim_and_publish std (on_server std server uc) db w)
    unfolding claim_and_publish relay_outbox
    claim_and_publish-drains w =
        subst
          (λ (c : Result (List PendingMessage) × Db).
            Drained (elim c.0 as (λ x. Option Error × Db × Pass) [
              | err e ↦ (some e, c.1, w)
              | ok batch ↦
                  publish_batch std (on_server std server uc) batch c.1
                    (record w { result = record w.result { claimed = length batch } })
            ]))
          (sym claims)
          (publish_batch-drains std server uc topic served acks routed (map scan claimable) db _
            (All-map (λ (p : PendingMessage). p.aggregate_type ≡ aggregate_type_user) scan claimable
              (filter-keeps (λ r. r.aggregate_type ≡ aggregate_type_user) (is_due server.now)
                db.outbox users))
            (All-map (λ (p : PendingMessage). HasRow db p.id) scan claimable
              (filter-keeps (λ r. HasRow db r.id) (is_due server.now) db.outbox
                (affected_self db.outbox valid.ordered)))
            only_claimable)

    execute-drains :
        (acked : List Message) (readings : ℕ)
        → uc.uow.begin ≡ none
        → ((t : Db) → uc.uow.commit t ≡ committed)
        → All
            (λ r. r.status ≢ pending)
            (execute std (on_server std server uc) acked readings db).1.outbox
    unfolding execute
    execute-drains acked readings begun commits =
        let first : Pass = record {
          acked = acked;
          readings = readings + 1;
          result = new_result std (on_server std server uc);
        } in
        let (fine, drained) = claim_and_publish-drains first in
        subst (λ (t : Db). All (λ r. r.status ≢ pending) t.outbox)
          (sym (
            finish-state (uc.clock readings)
              (with_tx uc.uow (claim_and_publish std (on_server std server uc)) db first)
            ∙ with_tx-state uc.uow (claim_and_publish std (on_server std server uc)) db first begun
                commits fine))
          drained

-- In a sound service every row is of the one aggregate type.
row_types :
    (std : Std) (codec : Codec UserRegisteredData) (s : System)
    → IsSound std codec s
    → All (λ r. r.aggregate_type ≡ aggregate_type_user) s.db.outbox
unfolding aggregate_type registration
row_types std codec s sound =
    All-imp (λ r. HasUser std codec s.db.users r.envelope)
      (λ r. r.aggregate_type ≡ aggregate_type_user)
      (λ r (u, mem, announces).
        ap (λ (e : Envelope). e.aggregate_type) announces.kept ∙ (announces.carries).routed)
      s.db.outbox (All-envelopes (HasUser std codec s.db.users) s.db.outbox sound.rows_real)

-- The event of a user is with the broker, or parked.
abbrev pub IsDelivered : Std → Codec UserRegisteredData → System → UserRow → Type 0
IsDelivered std codec s u =
    (e : Envelope) × Announces std codec u e
    × (IsSent std codec s.acked e
        ⊎ ((r : OutboxRow) × Memᴰ r s.db.outbox × (r.envelope ≡ e) × (r.status ≡ failed)))

drained_user :
    (std : Std) (codec : Codec UserRegisteredData) (s : System)
    → All (λ r. r.status ≢ pending) s.db.outbox
    → (u : UserRow) → IsAccounted std codec s u
    → IsDelivered std codec s u
drained_user std codec s none_left u (e, announces, inl sent) = (e, announces, inl sent)
drained_user std codec s none_left u (e, announces, inr (r, mem, same, inl waiting)) =
    absurd (All-mem (λ r. r.status ≢ pending) mem none_left waiting)
drained_user std codec s none_left u (e, announces, inr (r, mem, same, inr parked)) =
    (e, announces, inr (r, mem, same, parked))

-- From a sound state one pass delivers everything that is not parked, when its transaction is opened and
-- committed, the server fails no statement and locks every row that it is asked for, the broker
-- acknowledges every message, users are routed to a topic, the batch has room for the whole outbox, and
-- every pending row is due: no row is pending then, and the event of every user has been acknowledged or
-- is in a failed row.
pub relayed-IsDelivered :
    (std : Std) (codec : Codec UserRegisteredData) (s : System) (server : Server)
    (uc : PublishPendingBatch Db) (topic : String) (readings : ℕ)
    → IsSound std codec s
    → Restores std codec uc.uow
    → Grabs server
    → uc.uow.begin ≡ none
    → ((t : Db) → uc.uow.commit t ≡ committed)
    → ((statement : Statement) (db : Db) → server.fault statement db ≡ none)
    → ((n : ℕ) (rows : List OutboxRow) → length rows ≤ n → server.grab n rows ≡ rows)
    → ((m : Message) (acked : List Message) → uc.broker m acked ≡ none)
    → topic_for std uc.topics aggregate_type_user ≡ ok topic
    → length s.db.outbox ≤ uc.policy.batch_size
    → All (λ r. r.status ≡ pending → r.available_at ≤ℤ server.now) s.db.outbox
    → let t = relayed std codec server uc readings s in
      All (λ r. r.status ≢ pending) t.db.outbox × All (IsDelivered std codec t) t.db.users
unfolding relayed
relayed-IsDelivered std codec s server uc topic readings sound restores grabs begun commits served
      takes acks routed room due =
    let t = relayed std codec server uc readings s in
    let none_left =
      execute-drains std server uc topic served acks routed takes s.db sound.valid
        (row_types std codec s sound) room due s.acked readings begun commits in
    let after = relayed-IsSound std codec s sound server uc readings restores grabs in
    (
      none_left,
      All-imp (IsCovered std codec t) (IsDelivered std codec t)
          (λ u c.
            drained_user std codec t none_left u (IsCovered-IsAccounted std codec t after u c))
          t.db.users after.covered,
    )

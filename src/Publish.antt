-- ===== src/Publish.antt =====
-- internal/accounts/application/publish_pending_batch.go, publishing.go and topics.go: one pass of
-- the relay. The transaction is the state `S` of an OutboxRepository; what no rollback takes back
-- (what the broker has acknowledged, the readings of the clock, the result) is the record Pass.
pub mod Fates
pub mod Shows
pub mod Refines
pub mod Rows
pub mod Outcome
pub mod Given
pub mod Safety
pub mod Accounts
pub mod Derived
pub mod Progress
pub mod Keeps
use outboxexpress.Common.{
  ℕ, suc, ◌+◌, String, Bool, true, false, ◌&&◌, Option, none, some, List, [], ◌∷◌, ◌++◌, length,
  ltb, leb, str_eq, if◌then◌else◌,
}
use outboxexpress.Common.Int.{ℤ, pos, ◌+ℤ◌, ◌-ℤ◌}
use outboxexpress.Common.Dict.{lookup, insert}
use outboxexpress.Domain.Std.{Std}
use outboxexpress.Errors.{
  Error, Result, ok, err, is, text, sentinel, permanent, transient, unmapped_aggregate_type,
  annotate, both,
}
use outboxexpress.Messaging.{
  Message, Headers, header_event_id, header_event_type, header_spec_version, header_schema_version,
  header_content_type, spec_version, data_content_type,
}
use outboxexpress.Outbox.{PendingMessage, OutboxRepository, OutboxStats}
use outboxexpress.Postgres.Tx.{TxServer, with_tx}

-- A map from aggregate types to topics.
abbrev pub Topics : Type 0
Topics = List (String × String)

unfoldable pub unmapped : Std → String → Error
unmapped std aggregate_type =
    annotate (both (sentinel permanent) (sentinel unmapped_aggregate_type))
      (std.quote aggregate_type)

-- Topics.For: a missing entry reads as the empty topic, which is no route either.
unfoldable pub topic_for : Std → Topics → String → Result String
unfolding unmapped
topic_for std topics aggregate_type = elim (lookup aggregate_type topics) [
  | none ↦ err (unmapped std aggregate_type)
  | some topic ↦ if str_eq topic "" then err (unmapped std aggregate_type) else ok topic
]

-- `for key, value := range pending.Headers { headers[key] = value }`
unfoldable pub copy_headers : Headers → Headers → Headers
copy_headers [] target = target
copy_headers ((key, value) ∷ rest) target = copy_headers rest (insert key value target)

unfoldable pub publish_headers : Std → PendingMessage → String → Headers
unfolding copy_headers
publish_headers std pending event_id =
    let stored = copy_headers pending.headers [] in
    let with_id = insert header_event_id event_id stored in
    let with_type = insert header_event_type pending.event_type with_id in
    let with_spec = insert header_spec_version spec_version with_type in
    let with_schema = insert header_schema_version (std.itoa pending.schema_version) with_spec in
    insert header_content_type data_content_type with_schema

unfoldable pub message : Std → String → PendingMessage → Message
message std topic pending =
    let event_id = std.uuid_string pending.event_id in
    record {
      event_id = event_id;
      event_type = pending.event_type;
      schema_version = pending.schema_version;
      key = pending.aggregate_id;
      payload = pending.payload;
      headers = publish_headers std pending event_id;
      topic = topic;
    }

pub record Failure : Type 0 where
  pub outbox_id : ℕ
  pub event_id : ℕ
  pub reason : String

unfoldable pub failure_of : PendingMessage → Error → Failure
failure_of pending e = record {
  outbox_id = pending.id;
  event_id = pending.event_id;
  reason = text e;
}

pub record PublishResult : Type 0 where
  pub claimed : ℕ
  pub published : ℕ
  pub transient : List Failure
  pub permanent : List Failure
  pub duration : ℤ
  pub stats : OutboxStats
  pub stats_err : Option Error
  pub batch_size : ℕ

-- PublishResult.Full
unfoldable pub is_full : PublishResult → Bool
is_full r = ltb 0 r.batch_size && leb r.batch_size r.claimed

pub record PublishPolicy : Type 0 where
  pub batch_size : ℕ
  -- Schedule.After
  pub after : ℕ → ℤ
  pub max_attempts : ℕ

pub record Pass : Type 0 where
  pub acked : List Message
  -- how often the clock has been read
  pub readings : ℕ
  pub result : PublishResult

-- PublishPendingBatch. The broker answers a message by what it has acknowledged so far: `none` is a
-- durable ack. The n-th reading of the clock is `clock n`.
pub record PublishPendingBatch (S : Type 0) : Type 0 where
  pub uow : TxServer S
  pub outbox : OutboxRepository S
  pub broker : Message → List Message → Option Error
  pub stats : ℕ → S → Result OutboxStats
  pub topics : Topics
  pub clock : ℕ → ℤ
  pub policy : PublishPolicy

-- A call that returns an error ends the function with it; otherwise `next` goes on.
abbrev pub unless_err :
    {S W : Type 0} → Option Error × S → W → (S → W → Option Error × S × W) → Option Error × S × W
unless_err (some e, s) w next = (some e, s, w)
unless_err (none, s) w next = next s w

module _ (std : Std) {S : Type 0} (uc : PublishPendingBatch S) where
  -- The broker's answer, and what it has acknowledged then.
  unfoldable pub produce : Message → List Message → Option Error × List Message
  produce m acked = elim (uc.broker m acked) [
    | none ↦ (none, acked ++ m ∷ [])
    | some e ↦ (some e, acked)
  ]

  unfoldable pub publish : PendingMessage → List Message → Option Error × List Message
  unfolding topic_for produce message
  publish pending acked = elim (topic_for std uc.topics pending.aggregate_type) [
    | err e ↦ (some e, acked)
    | ok topic ↦ produce (message std topic pending) acked
  ]

  -- `case err == nil`
  unfoldable pub on_ack :
      PendingMessage
      → List Message
      → (S → Pass → Option Error × S × Pass)
      → S
      → Pass
      → Option Error × S × Pass
  on_ack pending acked next s w =
      let counted = record w.result { published = w.result.published + 1 } in
      unless_err (uc.outbox.mark_published pending.id s)
        (record w { acked = acked; result = counted }) next

  -- `case errors.Is(err, ErrPermanent)`
  unfoldable pub on_permanent :
      PendingMessage
      → Error
      → (S → Pass → Option Error × S × Pass)
      → S
      → Pass
      → Option Error × S × Pass
  unfolding failure_of
  on_permanent pending e next s w =
      let failure = failure_of pending e in
      unless_err (uc.outbox.mark_failed pending.id failure.reason s) w λ t w'. next t (record w' {
        result = record w'.result { permanent = w'.result.permanent ++ failure ∷ [] };
      })

  -- `case errors.Is(err, ErrTransient)`: the batch ends here.
  unfoldable pub on_transient : PendingMessage → Error → S → Pass → Option Error × S × Pass
  unfolding failure_of
  on_transient pending e s w =
      let failure = failure_of pending e in
      let available_at = uc.clock w.readings +ℤ uc.policy.after pending.attempts in
      unless_err (uc.outbox.reschedule pending.id available_at failure.reason s)
        (record w { readings = w.readings + 1 })
        λ t w'. (
          none,
          t,
          record w' {
            result = record w'.result { transient = w'.result.transient ++ failure ∷ [] };
          },
        )

  -- The switch of publishBatch; `next` is the rest of the loop.
  unfoldable pub settle_row :
      PendingMessage
      → Option Error × List Message
      → (S → Pass → Option Error × S × Pass)
      → S
      → Pass
      → Option Error × S × Pass
  unfolding on_ack on_permanent on_transient
  settle_row pending (none, acked) next s w = on_ack pending acked next s w
  settle_row pending (some e, acked) next s w =
      if is e permanent
      then on_permanent pending e next s w
      else if is e transient
      then on_transient pending e s w
      else (some e, s, w)

  unfoldable pub publish_batch : List PendingMessage → S → Pass → Option Error × S × Pass
  publish_batch [] s w = (none, s, w)
  publish_batch (pending ∷ rest) s w =
      settle_row pending (publish pending w.acked) (publish_batch rest) s w

  -- The function that Execute runs in the transaction.
  unfoldable pub claim_and_publish : S → Pass → Option Error × S × Pass
  claim_and_publish s w =
      let (claimed, t) = uc.outbox.claim_pending uc.policy.batch_size s in
      elim claimed [
        | err e ↦ (some e, t, w)
        | ok batch ↦
            publish_batch batch t (record w { result = record w.result { claimed = length batch } })
      ]

  unfoldable pub observe : S → PublishResult → PublishResult
  observe s res = elim (uc.stats uc.policy.max_attempts s) [
    | err e ↦ record res { stats_err = some e }
    | ok stats ↦ record res { stats = stats }
  ]

  abbrev pub new_result : PublishResult
  new_result = record {
    claimed = 0;
    published = 0;
    transient = [];
    permanent = [];
    duration = pos 0;
    stats = record { backlog = 0; oldest_pending_age = pos 0; failed_rows = 0; stuck_rows = 0 };
    stats_err = none;
    batch_size = uc.policy.batch_size;
  }

  -- The end of Execute: the duration is stamped, and a pass that committed reads the statistics.
  unfoldable pub finish : ℤ → Option Error × S × Pass → Option Error × S × Pass
  unfolding observe
  finish started (e, s, w) =
      let timed = record w.result { duration = uc.clock w.readings -ℤ started } in
      let read = record w { readings = w.readings + 1; result = timed } in
      elim e [
        | some x ↦ (some x, s, read)
        | none ↦ (none, s, record read { result = observe s timed })
      ]

  -- Execute, from what the broker has acknowledged and how often the clock was read before.
  unfoldable pub execute : List Message → ℕ → S → Option Error × S × Pass
  unfolding claim_and_publish finish
  execute acked readings s = finish (uc.clock readings) (
      with_tx uc.uow claim_and_publish s
        (record { acked = acked; readings = readings + 1; result = new_result }))

-- ===== src/Kafka.antt =====
-- internal/accounts/infrastructure/kafka/publisher.go. kgo's ProduceSync is the parameter
-- `produce_sync`, which answers a record by the records that it has taken before. The codes of kerr's
-- two unknown-topic errors are parameters.
pub mod Headers
pub mod Classes
use Prim.Native.Nat.{Ordering}
use Prim.Native.String.{compare}
use outboxexpress.Common.{
  ℕ, String, Bool, true, false, not, ◌||◌, ◌==◌, Option, none, some, List, [], ◌∷◌, if◌then◌else◌,
  map,
}
use outboxexpress.Errors.{Error, KafkaError, as_kafka, both, sentinel, permanent, transient}
use outboxexpress.Messaging.{Message, Headers as HeaderMap}

-- kgo.Record
pub record KafkaRecord : Type 0 where
  pub topic : String
  pub key : String
  pub value : String
  pub headers : List (String × String)

-- slices.Sort's order on texts.
abbrev pub at_most : String → String → Bool
at_most a b = elim (compare a b) [ Ordering.gt ↦ false | _ ↦ true ]

unfoldable pub insert_header : String × String → HeaderMap → HeaderMap
insert_header h [] = h ∷ []
insert_header h (g ∷ rest) =
    let behind = insert_header h rest in if at_most h.0 g.0 then h ∷ g ∷ rest else g ∷ behind

-- recordHeaders: the entries in the order of their keys.
unfoldable pub record_headers : HeaderMap → HeaderMap
unfolding insert_header
record_headers [] = []
record_headers (h ∷ rest) = insert_header h (record_headers rest)

-- kerr.UnknownTopicOrPartition.Code and kerr.UnknownTopicID.Code
pub record KerrCodes : Type 0 where
  pub unknown_topic_or_partition : ℕ
  pub unknown_topic_id : ℕ

module _ (codes : KerrCodes) where
  unfoldable pub permanent_codes : ℕ → Bool
  permanent_codes code = code == codes.unknown_topic_or_partition || code == codes.unknown_topic_id

  -- classify of an error that is not nil.
  unfoldable pub classify : Error → Error
  unfolding permanent_codes
  classify e = elim (as_kafka e) [
    | none ↦ both (sentinel transient) e
    | some k ↦
        if permanent_codes k.code || not k.retriable
        then both (sentinel permanent) e
        else both (sentinel transient) e
  ]

  unfoldable pub record_of : Message → KafkaRecord
  unfolding record_headers
  record_of m = record {
    topic = m.topic;
    key = m.key;
    value = m.payload;
    headers = record_headers m.headers;
  }

  -- Publisher.Publish
  unfoldable pub kafka_publish :
      (KafkaRecord → List KafkaRecord → Option Error) → Message → List Message → Option Error
  unfolding classify record_of
  kafka_publish produce_sync m acked = elim (produce_sync (record_of m) (map record_of acked)) [
    | none ↦ none
    | some e ↦ some (classify e)
  ]

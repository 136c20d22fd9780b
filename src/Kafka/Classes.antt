-- ===== src/Kafka/Classes.antt =====
-- The classes of broker errors, and what they mean for a pass: no failure is left unclassified.
use outboxexpress.Common.{
  String, ◌≡◌, refl, sym, subst, ◌⊎◌, inl, inr, Bool, true, false, not, ◌||◌, ◌==◌, Option, none,
  some, List, [], ◌∷◌, ◌++◌, arith, Bool-cases,
}
use outboxexpress.Domain.Std.{Std}
use outboxexpress.Errors.{Error, Result, ok, err, KafkaError, is, as_kafka, permanent, transient}
use outboxexpress.Messaging.{Message}
use outboxexpress.Outbox.{PendingMessage}
use outboxexpress.Publish.{PublishPendingBatch, topic_for, unmapped, message}
use outboxexpress.Publish.Fates.{
  Fate, delivered, parked, deferred, unclassified, failed_as, answer, fate_of, go_on, fates,
  AllClassified,
}
use outboxexpress.Kafka.{KerrCodes, KafkaRecord, permanent_codes, classify, kafka_publish}

-- The broker says that the message, or its topic, will never be taken.
abbrev pub is_hopeless : KerrCodes → Option KafkaError → Bool
is_hopeless codes none = false
is_hopeless codes (some k) =
    k.code == codes.unknown_topic_or_partition
    || (k.code == codes.unknown_topic_id || not k.retriable)

-- An error of the client, which is not one of the application's, is permanent exactly when the broker
-- answered with an unknown topic or with a code that is not retriable, and is transient otherwise.
pub classify_iff :
    (codes : KerrCodes) (e : Error)
    → is e permanent ≡ false
    → is e transient ≡ false
    → (is (classify codes e) permanent ≡ is_hopeless codes (as_kafka e))
      × (is (classify codes e) transient ≡ not (is_hopeless codes (as_kafka e)))
unfolding classify permanent_codes is
classify_iff codes e p t = ground arith

classify-cases :
    (codes : KerrCodes) (e : Error)
    → (is (classify codes e) permanent ≡ true) ⊎ (is (classify codes e) transient ≡ true)
unfolding classify is
classify-cases codes e = ground arith

abbrev Classified : Fate → Type 0
Classified (delivered m) = Unit
Classified (parked e) = Unit
Classified (deferred e) = Unit
Classified (unclassified e) = ⊥

failed_as-Classified :
    (e : Error) → (is e permanent ≡ true) ⊎ (is e transient ≡ true) → Classified (failed_as e)
unfolding failed_as
failed_as-Classified e (inl h) = rw h tt
failed_as-Classified e (inr h) = elim (Bool-cases (is e permanent)) [
  | inl p ↦ rw p tt
  | inr p ↦ rw (p, h) tt
]

module _ (std : Std) {S : Type 0} (uc : PublishPendingBatch S) (codes : KerrCodes)
    (produce_sync : KafkaRecord → List KafkaRecord → Option Error)
    (speaks : uc.broker ≡ kafka_publish codes produce_sync) where
  kafka_publish-Classified :
      (m : Message) (answered : Option Error)
      → Classified
          (elim (elim answered as (λ _. Option Error) [
            | none ↦ none
            | some e ↦ some (classify codes e)
          ])
            as (λ _. Fate) [ none ↦ delivered m | some e ↦ failed_as e ])
  kafka_publish-Classified m none = tt
  kafka_publish-Classified m (some e) =
      failed_as-Classified (classify codes e) (classify-cases codes e)

  answer-Classified : (m : Message) (acked : List Message) → Classified (answer std uc m acked)
  unfolding answer kafka_publish
  answer-Classified m acked =
      subst
        (λ (broker : Message → List Message → Option Error).
          Classified (elim (broker m acked) [ none ↦ delivered m | some e ↦ failed_as e ]))
        (sym speaks) (kafka_publish-Classified m _)

  fate_of-Classified :
      (p : PendingMessage) (acked : List Message) → Classified (fate_of std uc p acked)
  unfolding fate_of topic_for unmapped is
  fate_of-Classified p acked = go (topic_for std uc.topics p.aggregate_type) refl
    where
      go :
          (r : Result String)
          → topic_for std uc.topics p.aggregate_type ≡ r
          → Classified (elim r [
            | err e ↦ failed_as e
            | ok topic ↦ answer std uc (message std topic p) acked
          ])
      go (ok topic) eq = answer-Classified (message std topic p) acked
      go (err e) eq = failed_as-Classified e (inl (ground arith))

  go_on-AllClassified :
      (p : PendingMessage) (f : Fate) (rest : List Message → List (PendingMessage × Fate))
      → (acked : List Message) → Classified f
      → ((a : List Message) → AllClassified (rest a))
      → AllClassified (go_on std uc p f rest acked)
  unfolding go_on
  go_on-AllClassified p (delivered m) rest acked c h = h (acked ++ m ∷ [])
  go_on-AllClassified p (parked e) rest acked c h = h acked
  go_on-AllClassified p (deferred e) rest acked c h = tt
  go_on-AllClassified p (unclassified e) rest acked c h = elim c [ ]

  -- With the Kafka publisher as the broker, whatever the client answers, every failure of a pass is
  -- permanent or transient: the default branch of publishBatch is never taken.
  pub fates-AllClassified :
      (batch : List PendingMessage) (acked : List Message)
      → AllClassified (fates std uc batch acked)
  unfolding fates
  fates-AllClassified [] acked = tt
  fates-AllClassified (p ∷ ps) acked =
      go_on-AllClassified p (fate_of std uc p acked) (fates std uc ps) acked
        (fate_of-Classified p acked) (fates-AllClassified ps)

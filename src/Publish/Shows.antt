-- ===== src/Publish/Shows.antt =====
-- What publish returns for a row, by its fate.
use outboxexpress.Common.{
  String, ◌≡◌, refl, Bool, true, false, Option, none, some, List, [], ◌∷◌, ◌++◌, if◌then◌else◌,
}
use outboxexpress.Domain.Std.{Std}
use outboxexpress.Errors.{Error, Result, ok, err, is, permanent, transient}
use outboxexpress.Messaging.{Message}
use outboxexpress.Outbox.{PendingMessage}
use outboxexpress.Publish.{PublishPendingBatch, message, topic_for, produce, publish}
use outboxexpress.Publish.Fates.{
  Fate, delivered, parked, deferred, unclassified, failed_as, answer, fate_of,
}

-- What publish returns, by the fate.
abbrev pub Shows : Fate → List Message → Option Error × List Message → Type 0
Shows (delivered m) acked out = out ≡ (none, acked ++ m ∷ [])
Shows (parked e) acked out = (out ≡ (some e, acked)) × (is e permanent ≡ true)
Shows (deferred e) acked out =
    (out ≡ (some e, acked)) × (is e permanent ≡ false) × (is e transient ≡ true)
Shows (unclassified e) acked out =
    (out ≡ (some e, acked)) × (is e permanent ≡ false) × (is e transient ≡ false)

failed_as-Shows : (e : Error) (acked : List Message) → Shows (failed_as e) acked (some e, acked)
unfolding failed_as
failed_as-Shows e acked = go (is e permanent) (is e transient) refl refl
  where
    go :
        (p q : Bool)
        → is e permanent ≡ p
        → is e transient ≡ q
        → Shows
            (if p then parked e else if q then deferred e else unclassified e)
            acked
            (some e, acked)
    go true q ep eq = (refl, ep)
    go false true ep eq = (refl, ep, eq)
    go false false ep eq = (refl, ep, eq)

module _ (std : Std) {S : Type 0} (uc : PublishPendingBatch S) where
  pub publish-Shows :
      (p : PendingMessage) (acked : List Message)
      → Shows (fate_of std uc p acked) acked (publish std uc p acked)
  unfolding fate_of publish
  publish-Shows p acked = go (topic_for std uc.topics p.aggregate_type)
    where
      broker :
          (m : Message) (b : Option Error)
          → Shows
              (elim b [ none ↦ delivered m | some e ↦ failed_as e ])
              acked
              (elim b [ none ↦ (none, acked ++ m ∷ []) | some e ↦ (some e, acked) ])
      broker m none = refl
      broker m (some e) = failed_as-Shows e acked

      go :
          (r : Result String)
          → Shows
              (elim r [
                | err e ↦ failed_as e
                | ok topic ↦ answer std uc (message std topic p) acked
              ])
              acked
              (elim r [
                | err e ↦ (some e, acked)
                | ok topic ↦ produce std uc (message std topic p) acked
              ])
      go (err e) = failed_as-Shows e acked
      go (ok topic) = broker (message std topic p) (uc.broker (message std topic p) acked)

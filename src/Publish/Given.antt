-- ===== src/Publish/Given.antt =====
-- Where the fate of a row comes from.
use mathlib.Core.List.{Memᴰ}
use outboxexpress.Common.{
  ℕ, String, ◌≡◌, refl, sym, ap, ◌∙◌, ◌≢◌, subst, inl, inr, true, Option, none, some, List, [], ◌∷◌,
  ◌++◌, arith, All, Bool-cases, ◌==◌,
}
use outboxexpress.Domain.Std.{Std}
use outboxexpress.Errors.{Error, Result, ok, err, is, permanent, transient}
use outboxexpress.Messaging.{Message}
use outboxexpress.Outbox.{PendingMessage}
use outboxexpress.Publish.{PublishPendingBatch, message, topic_for, publish}
use outboxexpress.Publish.Fates.{
  Fate, delivered, parked, deferred, unclassified, failed_as, answer, fate_of, fates, go_on,
  messages,
}
use outboxexpress.Publish.Shows.{Shows, publish-Shows}
use outboxexpress.Publish.Rows.{fate_at}

pub fate_at-All {κ} :
    (P : PendingMessage × Fate → Type κ) (fs : List (PendingMessage × Fate)) (j : ℕ)
    → (x : PendingMessage × Fate) → All P fs
    → fate_at fs j ≡ some x
    → P x × ((x.0).id ≡ j)
unfolding fate_at
fate_at-All P [] j x h e = cc
fate_at-All P ((p, f) ∷ fs) j x h e = elim (Bool-cases (p.id == j)) [
  | inl here ↦
      let same : ◌≡◌ {A = Option (PendingMessage × Fate)} (some (p, f)) (some x) = rw here at e in
      let same' : (p, f) ≡ x = cc in
      (subst P same' h.0, ap (λ (y : PendingMessage × Fate). (y.0).id) (sym same') ∙ ground arith)
  | inr later ↦ fate_at-All P fs j x h.1 (rw later at e)
]

failed_as-ne-delivered : (e : Error) (m : Message) → failed_as e ≢ delivered m
unfolding failed_as
failed_as-ne-delivered e m h = ground arith

-- A fate that the broker or the routing has given to a row at some point of the pass.
abbrev pub Given : {S : Type 0} → Std → PublishPendingBatch S → PendingMessage × Fate → Type 0
Given std uc (p, f) = (history : List Message) × (fate_of std uc p history ≡ f)

module _ (std : Std) {S : Type 0} (uc : PublishPendingBatch S) where
  go_on-Given :
      (p : PendingMessage) (rest : List Message → List (PendingMessage × Fate))
      (acked : List Message)
      → ((a : List Message) → All (Given std uc) (rest a))
      → (f : Fate) → fate_of std uc p acked ≡ f
      → All (Given std uc) (go_on std uc p f rest acked)
  unfolding go_on
  go_on-Given p rest acked ih (delivered m) e = ((acked, e), ih (acked ++ m ∷ []))
  go_on-Given p rest acked ih (parked x) e = ((acked, e), ih acked)
  go_on-Given p rest acked ih (deferred x) e = ((acked, e), tt)
  go_on-Given p rest acked ih (unclassified x) e = ((acked, e), tt)

  pub fates-Given :
      (batch : List PendingMessage) (acked : List Message)
      → All (Given std uc) (fates std uc batch acked)
  unfolding fates
  fates-Given [] acked = tt
  fates-Given (p ∷ ps) acked =
      go_on-Given p (fates std uc ps) acked (fates-Given ps) (fate_of std uc p acked) refl

  -- A delivered row's message is made of the row, and of a topic of the routing table.
  pub fate_of-delivered :
      (p : PendingMessage) (history : List Message) (m : Message)
      → fate_of std uc p history ≡ delivered m
      → (topic : String) × (topic_for std uc.topics p.aggregate_type ≡ ok topic)
        × (m ≡ message std topic p)
  unfolding fate_of
  fate_of-delivered p history m h = go (topic_for std uc.topics p.aggregate_type) refl h
    where
      asked :
          (sent : Message) (b : Option Error)
          → ◌≡◌ {A = Fate} (elim b [ none ↦ delivered sent | some e ↦ failed_as e ]) (delivered m)
          → m ≡ sent
      asked sent none k = cc
      asked sent (some e) k = absurd (failed_as-ne-delivered e m k)

      go :
          (r : Result String)
          → topic_for std uc.topics p.aggregate_type ≡ r
          → ◌≡◌ {A = Fate}
              (elim r [
                | err e ↦ failed_as e
                | ok topic ↦ answer std uc (message std topic p) history
              ])
              (delivered m)
          → (topic : String) × (topic_for std uc.topics p.aggregate_type ≡ ok topic)
            × (m ≡ message std topic p)
      go (err e) eq k = absurd (failed_as-ne-delivered e m k)
      go (ok topic) eq k =
          (topic, eq, asked (message std topic p) (uc.broker (message std topic p) history) k)

  -- A parked row's error is permanent.
  pub fate_of-parked :
      (p : PendingMessage) (history : List Message) (e : Error)
      → fate_of std uc p history ≡ parked e
      → is e permanent ≡ true
  fate_of-parked p history e h =
      (subst (λ f. Shows f history (publish std uc p history)) h (publish-Shows std uc p history)).1

  -- A deferred row's error is transient.
  pub fate_of-deferred :
      (p : PendingMessage) (history : List Message) (e : Error)
      → fate_of std uc p history ≡ deferred e
      → is e transient ≡ true
  fate_of-deferred p history e h =
      (subst (λ f. Shows f history (publish std uc p history)) h (publish-Shows std uc p history)).2

pub Memᴰ-append-right {ℓ} :
    {A : Type ℓ} {a : A} (xs : List A) {ys : List A} → Memᴰ a ys → Memᴰ a (xs ++ ys)
Memᴰ-append-right [] h = h
Memᴰ-append-right (x ∷ xs) h = Memᴰ.tail (Memᴰ-append-right xs h)

pub messages-mem :
    (fs : List (PendingMessage × Fate)) (j : ℕ) (p : PendingMessage) (m : Message)
    → fate_at fs j ≡ some (p, delivered m)
    → Memᴰ m (messages fs)
unfolding fate_at messages
messages-mem [] j p m e = cc
messages-mem ((q, f) ∷ fs) j p m e = elim (Bool-cases (q.id == j)) [
  | inl here ↦
      let same : ◌≡◌ {A = Option (PendingMessage × Fate)} (some (q, f)) (some (p, delivered m)) =
        rw here at e in
      let same' : f ≡ delivered m = cc in
      subst (λ g. Memᴰ m (messages ((q, g) ∷ fs))) (sym same') (Memᴰ.head refl)
  | inr later ↦ behind f (messages-mem fs j p m (rw later at e))
]
  where
    behind : (g : Fate) → Memᴰ m (messages fs) → Memᴰ m (messages ((q, g) ∷ fs))
    behind (delivered n) k = Memᴰ.tail k
    behind (parked x) k = k
    behind (deferred x) k = k
    behind (unclassified x) k = k

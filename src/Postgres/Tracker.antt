-- ===== src/Postgres/Tracker.antt =====
-- infrastructure/postgres/tracker.go. Aggregates are shared objects: the tracker holds addresses of
-- a heap of users, and draining an aggregate empties it wherever it is held.
use outboxexpress.Common.{
  ℕ, ◌≡◌, refl, ap, inl, inr, Bool, true, false, ◌||◌, List, [], ◌∷◌, ◌++◌, ◌==◌, if◌then◌else◌,
  arith, Bool-cases,
}
use outboxexpress.Domain.User.{User, Event, pull_events}

abbrev pub Heap : Type 0
Heap = ℕ → User

abbrev pub store : Heap → ℕ → User → Heap
store heap a u b = if a == b then u else heap b

-- tracker.track
unfoldable pub track : List ℕ → ℕ → List ℕ
track tracked a = tracked ++ a ∷ []

-- tracker.drain: the events in the order of the tracking, and the emptied aggregates.
unfoldable pub drain : List ℕ → Heap → List Event × Heap
unfolding pull_events
drain [] heap = ([], heap)
drain (a ∷ tracked) heap =
    let (events, u) = pull_events (heap a) in
    let (more, heap') = drain tracked (store heap a u) in (events ++ more, heap')

abbrev member : ℕ → List ℕ → Bool
member a [] = false
member a (b ∷ bs) = b == a || member a bs

-- Each aggregate's events once, where it is tracked first; `seen` were drained already.
unfoldable pub events_once : Heap → List ℕ → List ℕ → List Event
events_once heap seen [] = []
events_once heap seen (a ∷ tracked) =
    if member a seen
    then events_once heap seen tracked
    else (heap a).events ++ events_once heap (a ∷ seen) tracked

-- A heap in which the aggregates of `seen` are empty, and the others are as in `old`.
record Drained (old heap : Heap) (seen : List ℕ) : Type 0 where
  emptied : (a : ℕ) → member a seen ≡ true → (heap a).events ≡ []
  kept : (a : ℕ) → member a seen ≡ false → heap a ≡ old a

drain-events_once-from :
    (old heap : Heap) (seen tracked : List ℕ)
    → Drained old heap seen
    → (drain tracked heap).0 ≡ events_once old seen tracked
unfolding drain events_once
drain-events_once-from old heap seen [] d = refl
drain-events_once-from old heap seen (a ∷ tracked) d = elim (Bool-cases (member a seen)) [
  | inl again ↦
      rw (again, d.emptied a again)
        (drain-events_once-from old (store heap a (record (heap a) { events = [] })) seen tracked
          (record {
            emptied = λ b h. ground (arith, d.emptied b h);
            kept = λ b h. ground (arith, d.kept b h, d.emptied a again);
          }))
  | inr fresh ↦
      rw (fresh, d.kept a fresh)
        (ap (λ (es : List Event). (old a).events ++ es)
          (drain-events_once-from old (store heap a (record (old a) { events = [] })) (a ∷ seen)
            tracked
            (record {
              emptied = λ b h. ground (arith, d.emptied b);
              kept = λ b h. ground (arith, d.kept b);
            })))
]

-- Draining yields each tracked aggregate's events exactly once, in the order in which the aggregates
-- were first tracked, however often one was tracked.
pub drain-events_once :
    (heap : Heap) (tracked : List ℕ) → (drain tracked heap).0 ≡ events_once heap [] tracked
drain-events_once heap tracked =
    drain-events_once-from heap heap [] tracked (record { emptied = λ a h. cc; kept = λ a h. refl })

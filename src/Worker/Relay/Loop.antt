-- ===== src/Worker/Relay/Loop.antt =====
-- The loop of Run: when it ends, what it executes, and what it reports of the passes that failed.
use mathlib.Core.Path.{ap₂}
use outboxexpress.Common.{
  ℕ, suc, ◌+◌, ◌≡◌, refl, ◌⊎◌, inl, inr, Bool, true, false, ◌&&◌, ◌||◌, Option, none, some, List,
  [], ◌∷◌, ◌++◌, map, arith, if◌then◌else◌, Bool-cases, ◌∙◌,
}
use outboxexpress.Common.Int.{ℤ}
use outboxexpress.Errors.{Error}
use outboxexpress.Publish.{PublishResult, Failure}
use outboxexpress.Worker.Relay.{
  Relay, Round, Waking, Action, executed, logged, waited, slept, pass_rolled_back, row_parked,
  row_retried, next_wait, wait, stopping, log_failed_pass, log_pass, warn_usage, warn_stuck,
  after_pass, one_round, run_rounds, run,
}

-- The passes that the actions execute.
abbrev pub passes : List Action → ℕ
passes [] = 0
passes (executed ∷ acts) = suc (passes acts)
passes (logged l ∷ acts) = passes acts
passes (waited d ∷ acts) = passes acts
passes (slept d ∷ acts) = passes acts

-- The messages that the log says will be published a second time.
abbrev pub republished : List Action → ℕ
republished [] = 0
republished (executed ∷ acts) = republished acts
republished (logged (pass_rolled_back e c n d) ∷ acts) = n + republished acts
republished (logged _ ∷ acts) = republished acts
republished (waited d ∷ acts) = republished acts
republished (slept d ∷ acts) = republished acts

abbrev pub failed : Option Error → Bool
failed none = false
failed (some e) = true

-- The round is the loop's last one.
abbrev pub ends : Round → Bool
ends round = round.ended_before || (failed round.err && round.ended_after)

-- The rounds up to the last one.
abbrev pub met : List Round → List Round
met [] = []
met (round ∷ rounds) = if ends round then round ∷ [] else round ∷ met rounds

-- The passes of the rounds: every round but one that finds the context ended.
abbrev pub runs : List Round → ℕ
runs [] = 0
runs (round ∷ rounds) = (if round.ended_before then 0 else 1) + runs rounds

-- What the passes that fail had published.
abbrev pub lost_marks : List Round → ℕ
lost_marks [] = 0
lost_marks (round ∷ rounds) =
    (if round.ended_before then 0 else if failed round.err then round.res.published else 0)
    + lost_marks rounds

passes-append : (acts bs : List Action) → passes (acts ++ bs) ≡ passes acts + passes bs
passes-append [] bs = omega arith
passes-append (executed ∷ acts) bs = omega (arith, passes-append acts bs)
passes-append (logged l ∷ acts) bs = passes-append acts bs
passes-append (waited d ∷ acts) bs = passes-append acts bs
passes-append (slept d ∷ acts) bs = passes-append acts bs

republished-append :
    (acts bs : List Action) → republished (acts ++ bs) ≡ republished acts + republished bs
republished-append [] bs = omega arith
republished-append (executed ∷ acts) bs = republished-append acts bs
republished-append (logged (pass_rolled_back e c n d) ∷ acts) bs =
    omega (arith, republished-append acts bs)
republished-append (logged _ ∷ acts) bs = republished-append acts bs
republished-append (waited d ∷ acts) bs = republished-append acts bs
republished-append (slept d ∷ acts) bs = republished-append acts bs

-- Actions that execute nothing and report no rollback.
abbrev Quiet : List Action → Type 0
Quiet acts = (passes acts ≡ 0) × (republished acts ≡ 0)

Quiet-append : (acts bs : List Action) → Quiet acts → Quiet bs → Quiet (acts ++ bs)
Quiet-append acts bs h k = (
  omega (arith, passes-append acts bs, h.0, k.0),
  omega (arith, republished-append acts bs, h.1, k.1),
)

wait-Quiet : (r : Relay) (d : ℤ) (waking : Waking) → Quiet (wait r d waking).1
unfolding wait
wait-Quiet r d waking = ground arith

parked-Quiet : (fs : List Failure) → Quiet (map (λ f. logged (row_parked f)) fs)
parked-Quiet [] = (refl, refl)
parked-Quiet (f ∷ fs) = parked-Quiet fs

retried-Quiet : (fs : List Failure) → Quiet (map (λ f. logged (row_retried f)) fs)
retried-Quiet [] = (refl, refl)
retried-Quiet (f ∷ fs) = retried-Quiet fs

warn_usage-Quiet : (usage : Option ℕ) → Quiet (warn_usage usage)
unfolding warn_usage
warn_usage-Quiet none = (refl, refl)
warn_usage-Quiet (some n) = ground arith

warn_stuck-Quiet : (n : ℕ) → Quiet (warn_stuck n)
unfolding warn_stuck
warn_stuck-Quiet n = ground arith

log_pass-Quiet : (r : Relay) (res : PublishResult) (usage : Option ℕ) → Quiet (log_pass r res usage)
unfolding log_pass
log_pass-Quiet r res usage =
    Quiet-append (warn_usage (if r.has_waiter then usage else none)) _
      (warn_usage-Quiet (if r.has_waiter then usage else none))
      (Quiet-append (map (λ f. logged (row_parked f)) res.permanent) _ (parked-Quiet res.permanent)
        (Quiet-append (map (λ f. logged (row_retried f)) res.transient) _
          (retried-Quiet res.transient) (warn_stuck-Quiet res.stats.stuck_rows)))

stopping-Quiet : (r : Relay) (b : Bool) → Quiet (stopping r b ∷ [])
unfolding stopping
stopping-Quiet r b = ground arith

-- What one round executes and reports.
abbrev Bills : Round → List Action → Type 0
Bills round acts =
    (passes acts ≡ (if round.ended_before then 0 else 1))
    × (republished acts
        ≡ (if round.ended_before then 0 else if failed round.err then round.res.published else 0))

one_round-Bills : (r : Relay) (round : Round) → Bills round (one_round r round).1
unfolding one_round after_pass log_failed_pass
one_round-Bills r round = elim (Bool-cases round.ended_before) [
  | inl e ↦ rw e (stopping-Quiet r round.grace_expired)
  | inr e ↦ rw e (go round.err)
]
  where
    go :
        (err : Option Error)
        → (suc (passes (after_pass r round err).1) ≡ 1)
          × (republished (after_pass r round err).1
              ≡ (if failed err then round.res.published else 0))
    go none =
        let (p, n) =
          Quiet-append (log_pass r round.res round.usage) _ (log_pass-Quiet r round.res round.usage)
            (wait-Quiet (next_wait r round.res).0 (next_wait r round.res).1 round.waking) in
        (omega (arith, p), n)
    go (some x) = elim (Bool-cases round.ended_after) [
      | inl e ↦ rw e (
        omega (arith, stopping-Quiet r round.grace_expired),
        omega (arith, stopping-Quiet r round.grace_expired),
      )
      | inr e ↦ rw e (
        omega (arith, wait-Quiet r r.policy.idle_max round.waking),
        omega (arith, wait-Quiet r r.policy.idle_max round.waking),
      )
    ]

-- The loop goes on exactly when the round is not its last.
one_round-next :
    (r : Relay) (round : Round)
    → ((ends round ≡ true) × ((one_round r round).0 ≡ none))
      ⊎ ((ends round ≡ false) × ((r' : Relay) × ((one_round r round).0 ≡ some r')))
unfolding one_round after_pass
one_round-next r round = elim (Bool-cases round.ended_before) [
  | inl e ↦ inl (rw e refl, rw e refl)
  | inr e ↦ rw e (go round.err)
]
  where
    go :
        (err : Option Error)
        → (((failed err && round.ended_after) ≡ true) × ((after_pass r round err).0 ≡ none))
          ⊎ (((failed err && round.ended_after) ≡ false)
              × ((r' : Relay) × ((after_pass r round err).0 ≡ some r')))
    go none = inr (refl, (_, refl))
    go (some x) = elim (Bool-cases round.ended_after) [
      | inl e ↦ rw e (inl (refl, refl))
      | inr e ↦ rw e (inr (refl, (_, refl)))
    ]

-- Some round ends the loop.
abbrev pub has_end : List Round → Bool
has_end [] = false
has_end (round ∷ rounds) = ends round || has_end rounds

abbrev Meets : List Round → List Action × Bool → Type 0
Meets rounds (acts, returned) =
    (passes acts ≡ runs (met rounds))
    × (republished acts ≡ lost_marks (met rounds))
    × (returned ≡ has_end rounds)

run_rounds-last :
    (r : Relay) (round : Round) (rounds : List Round)
    → (one_round r round).0 ≡ none
    → run_rounds r (round ∷ rounds) ≡ ((one_round r round).1, true)
unfolding run_rounds
run_rounds-last r round rounds e = ground arith

run_rounds-goes :
    (r r' : Relay) (round : Round) (rounds : List Round)
    → (one_round r round).0 ≡ some r'
    → run_rounds r (round ∷ rounds)
      ≡ ((one_round r round).1 ++ (run_rounds r' rounds).0, (run_rounds r' rounds).1)
unfolding run_rounds
run_rounds-goes r r' round rounds e = ground arith

run_rounds-Meets : (r : Relay) (rounds : List Round) → Meets rounds (run_rounds r rounds)
unfolding run_rounds
run_rounds-Meets r [] = (refl, refl, refl)
run_rounds-Meets r (round ∷ rounds) = elim (one_round-next r round) [
  | inl (last, over) ↦
      let (once, bill) = one_round-Bills r round in
      rw (run_rounds-last r round rounds over, last)
        (omega (arith, once), omega (arith, bill), refl)
  | inr (more, (r', on)) ↦
      let (once, bill) = one_round-Bills r round in
      let (p, n, b) = run_rounds-Meets r' rounds in
      rw (run_rounds-goes r r' round rounds on, more)
        (
          passes-append (one_round r round).1 (run_rounds r' rounds).0 ∙ ap₂ ◌+◌ once p,
          republished-append (one_round r round).1 (run_rounds r' rounds).0 ∙ ap₂ ◌+◌ bill n,
          b,
        )
]

-- The loop returns at the first round that finds the context ended, or whose pass fails and finds
-- it ended then, and runs on through any other. Until then it executes one pass in each round that
-- it meets, but for the last one if that found the context ended already; and its log reports as
-- republished exactly what the passes that failed had published.
pub run-met :
    (r : Relay) (rounds : List Round)
    → (passes (run r rounds).0 ≡ runs (met rounds))
      × (republished (run r rounds).0 ≡ lost_marks (met rounds))
      × ((run r rounds).1 ≡ has_end rounds)
unfolding run
run-met r rounds = run_rounds-Meets r rounds

-- ===== src/Worker/Relay.antt =====
-- presentation/worker/relay.go. What the loop meets in one round (whether its context has ended, what
-- the pass returns, how the wakeup answers) is a record Round; what it does is a list of actions.
-- A queue usage, a float between 0 and 1 in the source, is a number of millionths.
pub mod Idle
pub mod Loop
use outboxexpress.Common.{
  ℕ, suc, ◌+◌, String, Bool, true, false, not, ◌&&◌, Option, none, some, List, [], ◌∷◌, ◌++◌, map,
  ltb, leb, if◌then◌else◌,
}
use outboxexpress.Common.Int.{ℤ, pos, leb_ℤ, min_ℤ, double64}
use outboxexpress.Errors.{Error}
use outboxexpress.Outbox.{OutboxStats}
use outboxexpress.Publish.{PublishResult, Failure, is_full}

pub record RelayPolicy : Type 0 where
  pub idle_min : ℤ
  pub idle_max : ℤ
  pub drain_grace : ℤ

-- slog's levels, as far as this file uses them.
pub data Level : Type 0 where
  debug info warn error : Level

-- The backlog fields of the pass line, or the reason that there are none.
pub data Backlog : Type 0 where
  stats_error : Error → Backlog
  stats : OutboxStats → Backlog

pub data Line : Type 0 where
  relay_started : RelayPolicy → Bool → Line
  pass_rolled_back : Error → (claimed republish_on_retry : ℕ) → (duration : ℤ) → Line
  relay_pass :
      Level
      → (claimed published transient_failures permanent_failures : ℕ) → (duration : ℤ) → Backlog
      → (notify_queue_usage : Option ℕ) → Line
  notify_queue_filling : (usage : ℕ) → Line
  row_parked : Failure → Line
  row_retried : Failure → Line
  rows_stuck : ℕ → Line
  wakeup_unavailable : Error → Line
  stopped : Line
  stopped_grace_expired : ℤ → Line

pub data Action : Type 0 where
  executed : Action
  logged : Line → Action
  -- the waiter was asked to wait so long
  waited : ℤ → Action
  -- the timer slept so long
  slept : ℤ → Action

-- Waiter.Wait: a notification, the timeout (or the end of the context), or an error at once.
pub data Waking : Type 0 where
  woken : Waking
  timed_out : Waking
  unavailable : Error → Waking

pub record Round : Type 0 where
  -- ctx.Err() != nil at the top of the loop, and after a failed pass
  pub ended_before : Bool
  pub ended_after : Bool
  -- pass.Err() != nil when the loop stops
  pub grace_expired : Bool
  pub res : PublishResult
  pub err : Option Error
  pub waking : Waking
  pub usage : Option ℕ

pub record Relay : Type 0 where
  pub policy : RelayPolicy
  -- wake != nil
  pub has_waiter : Bool
  -- time.Duration(float64(d) * r.jitter())
  pub jittered : ℤ → ℤ
  pub idle : ℤ

unfoldable pub new_relay : RelayPolicy → Bool → (ℤ → ℤ) → Relay
new_relay policy has_waiter jittered = record {
  policy = policy;
  has_waiter = has_waiter;
  jittered = jittered;
  idle = policy.idle_min;
}

abbrev pub some_transient : List Failure → Bool
some_transient [] = false
some_transient (f ∷ fs) = true

unfoldable pub next_wait : Relay → PublishResult → Relay × ℤ
unfolding is_full
next_wait r res =
    if is_full res
    then (record r { idle = r.policy.idle_min }, pos 0)
    else if some_transient res.transient
    then (record r { idle = r.policy.idle_min }, r.policy.idle_max)
    else if ltb 0 res.claimed
    then (record r { idle = r.policy.idle_min }, r.policy.idle_min)
    else (record r { idle = min_ℤ (double64 r.idle) r.policy.idle_max }, r.idle)

-- wait after the jitter, with a waiter.
unfoldable pub ask_waiter : Relay → ℤ → Waking → Relay × List Action
ask_waiter r d woken = (record r { idle = r.policy.idle_min }, waited d ∷ [])
ask_waiter r d timed_out = (r, waited d ∷ [])
ask_waiter r d (unavailable e) = (r, waited d ∷ logged (wakeup_unavailable e) ∷ slept d ∷ [])

unfoldable pub wait : Relay → ℤ → Waking → Relay × List Action
unfolding ask_waiter
wait r d waking =
    if leb_ℤ d (pos 0)
    then (r, [])
    else if r.has_waiter
    then ask_waiter r (r.jittered d) waking
    else (r, slept (r.jittered d) ∷ [])

unfoldable pub stopping : Relay → Bool → Action
stopping r grace_expired =
    if grace_expired then logged (stopped_grace_expired r.policy.drain_grace) else logged stopped

unfoldable pub log_failed_pass : PublishResult → Error → Action
log_failed_pass res e = logged (pass_rolled_back e res.claimed res.published res.duration)

-- 0.25 of the queue
abbrev pub notify_queue_warn_at : ℕ
notify_queue_warn_at = 250000

abbrev pub count_failures : List Failure → ℕ
count_failures [] = 0
count_failures (f ∷ fs) = suc (count_failures fs)

unfoldable pub backlog_of : PublishResult → Backlog
backlog_of res = elim res.stats_err [ none ↦ stats res.stats | some e ↦ stats_error e ]

unfoldable pub pass_line : PublishResult → Option ℕ → Line
unfolding backlog_of
pass_line res usage =
    relay_pass (if ltb 0 res.claimed then info else debug) res.claimed res.published
      (count_failures res.transient) (count_failures res.permanent) res.duration (backlog_of res)
      usage

unfoldable pub warn_usage : Option ℕ → List Action
warn_usage none = []
warn_usage (some usage) =
    if ltb notify_queue_warn_at usage then logged (notify_queue_filling usage) ∷ [] else []

unfoldable pub warn_stuck : ℕ → List Action
warn_stuck n = if ltb 0 n then logged (rows_stuck n) ∷ [] else []

-- logPass; `usage` is what Waiter.Usage reports, if there is a waiter and a number.
unfoldable pub log_pass : Relay → PublishResult → Option ℕ → List Action
unfolding pass_line warn_usage warn_stuck
log_pass r res usage =
    let have = if r.has_waiter then usage else none in
    logged (pass_line res have)
    ∷ (warn_usage have
        ++ (map (λ f. logged (row_parked f)) res.permanent
            ++ (map (λ f. logged (row_retried f)) res.transient
                ++ warn_stuck res.stats.stuck_rows)))

-- What one round does, and the relay that goes on, if the loop does.
unfoldable pub after_pass : Relay → Round → Option Error → Option Relay × List Action
unfolding log_failed_pass stopping log_pass
after_pass r round (some e) =
    if round.ended_after
    then (none, log_failed_pass round.res e ∷ stopping r round.grace_expired ∷ [])
    else let (r', acts) = wait r r.policy.idle_max round.waking in
      (some r', log_failed_pass round.res e ∷ acts)
after_pass r round none =
    let (r', d) = next_wait r round.res in
    let (r'', acts) = wait r' d round.waking in (some r'', log_pass r round.res round.usage ++ acts)

unfoldable pub one_round : Relay → Round → Option Relay × List Action
unfolding after_pass
one_round r round =
    if round.ended_before
    then (none, stopping r round.grace_expired ∷ [])
    else let (next, acts) = after_pass r round round.err in (next, executed ∷ acts)

-- Run over the rounds that it meets; the flag says whether it has returned.
unfoldable pub run_rounds : Relay → List Round → List Action × Bool
run_rounds r [] = ([], false)
run_rounds r (round ∷ rounds) = elim ((one_round r round).0) [
  | none ↦ ((one_round r round).1, true)
  | some r' ↦
      let (acts, returned) = run_rounds r' rounds in ((one_round r round).1 ++ acts, returned)
]

unfoldable pub run : Relay → List Round → List Action × Bool
unfolding run_rounds
run r rounds =
    let (acts, returned) = run_rounds r rounds in
    (logged (relay_started r.policy r.has_waiter) ∷ acts, returned)

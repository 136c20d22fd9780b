-- ===== src/Worker/Purger.antt =====
-- internal/accounts/presentation/worker/purger.go: one tick of the purge loop. The ticker and the
-- select on it are the Go runtime's: a run is given as what happens at each tick.
use outboxexpress.Common.{
  ℕ, ◌+◌, ◌≡◌, refl, Bool, false, Option, none, some, List, [], ◌∷◌, ltb, if◌then◌else◌, arith,
  ◌++◌,
}
use outboxexpress.Errors.{Error}
use outboxexpress.Purge.{PurgeResult}

-- What the purger logs.
pub data Line : Type 0 where
  purger_started : Line
  purge_failed : Error → PurgeResult → Line
  outbox_purged : PurgeResult → Line
  found_nothing : PurgeResult → Line
  purger_stopped : Line

-- One tick: what Execute returned, whether ctx had ended by then, and whether it has ended when the
-- select is reached.
pub record Tick : Type 0 where
  pub result : PurgeResult
  pub failure : Option Error
  pub ended : Bool
  pub done : Bool

unfoldable pub run_once : Tick → List Line
run_once tick = elim tick.failure [
  | some e ↦ if tick.ended then [] else purge_failed e tick.result ∷ []
  | none ↦
      if ltb 0 tick.result.deleted
      then outbox_purged tick.result ∷ []
      else found_nothing tick.result ∷ []
]

-- The loop over the ticks that are given; it returns at the first after which ctx has ended.
unfoldable pub ticks : List Tick → List Line
unfolding run_once
ticks [] = []
ticks (tick ∷ rest) =
    let after = ticks rest in run_once tick ++ (if tick.done then purger_stopped ∷ [] else after)

unfoldable pub run : List Tick → List Line
unfolding ticks
run schedule = purger_started ∷ ticks schedule

abbrev pub deleted_in : Line → ℕ
deleted_in purger_started = 0
deleted_in (purge_failed e res) = res.deleted
deleted_in (outbox_purged res) = res.deleted
deleted_in (found_nothing res) = res.deleted
deleted_in purger_stopped = 0

abbrev pub deleted_logged : List Line → ℕ
deleted_logged [] = 0
deleted_logged (line ∷ lines) = deleted_in line + deleted_logged lines

-- A tick that a shutdown interrupted.
abbrev pub is_interrupted : Tick → Bool
is_interrupted tick = elim tick.failure [ some e ↦ tick.ended | none ↦ false ]

-- The rows deleted by the ticks that are run and that no shutdown interrupts.
abbrev pub deleted_by : List Tick → ℕ
deleted_by [] = 0
deleted_by (tick ∷ rest) =
    let here = if is_interrupted tick then 0 else tick.result.deleted in
    let after = deleted_by rest in here + (if tick.done then 0 else after)

deleted-run_once :
    (tick : Tick) (lines : List Line)
    → deleted_logged (run_once tick ++ lines)
      ≡ (if is_interrupted tick then 0 else tick.result.deleted) + deleted_logged lines
unfolding run_once
deleted-run_once tick lines = ground arith

deleted-ticks : (schedule : List Tick) → deleted_logged (ticks schedule) ≡ deleted_by schedule
unfolding ticks
deleted-ticks [] = refl
deleted-ticks (tick ∷ rest) = ground (
  arith,
  deleted-ticks rest,
  deleted-run_once tick (ticks rest),
  deleted-run_once tick (purger_stopped ∷ []),
)

-- The log accounts for every deleted row: the lines that a run logs report, in sum, the rows that its
-- ticks deleted, up to the tick at which it stops, but for a tick that the shutdown interrupted.
pub deleted-run : (schedule : List Tick) → deleted_logged (run schedule) ≡ deleted_by schedule
unfolding run
deleted-run schedule = omega (arith, deleted-ticks schedule)

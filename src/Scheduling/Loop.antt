-- ===== src/Scheduling/Loop.antt =====
-- `_run_loop` of server/common/scheduling.py: one pass is a function of the loop's variables and of
-- what the environment answers in that pass; a run is a list of passes.
use trader_joe.Base.{
  ℕ, ◌-◌, Bool, false, ◌&&◌, not, Option, none, some, List, [], ◌∷◌, ltb, if◌then◌else◌,
}
use trader_joe.Base.Raised.{Exn, Raised, ok, raise}
use trader_joe.Calendar.{DateTime, aware, require_aware}

-- Asked with a random draw, the time and the last run.
abbrev pub Schedule : Type 0
Schedule = ℕ → DateTime → Option DateTime → Raised (Option ℕ)

-- The loop's variables. `wake` is none where no event was given, else whether it is set.
pub record Loop : Type 0 where
  pub last_run : Option ℕ
  pub wake : Option Bool

-- What one pass meets: the clock at its top, the draw, the clock as the job starts, whether the job
-- raised, and whether the wake was set during the job. A wake during the sleep ends the sleep early
-- and is cleared as the job starts, so it shows only in the clock.
pub record Pass : Type 0 where
  pub now : DateTime
  pub draw : ℕ
  pub started : DateTime
  pub job_raises : Bool
  pub set_in_job : Bool

pub data Report : Type 0 where
  -- The schedule failed: the wait before it is asked again.
  retried : ℕ → Report
  -- The sleep that was asked for, the start of the job, and whether the job's failure was logged.
  ran : Option ℕ → ℕ → Bool → Report

pub data Outcome : Type 0 where
  finished : Outcome
  crashed : Exn → Outcome
  again : Loop → Report → Outcome

abbrev pub is_set : Option Bool → Bool
is_set none = false
is_set (some b) = b

-- `wake.clear()`, then what the rest of the pass sets.
abbrev pub cleared : Option Bool → Bool → Option Bool
cleared none b = none
cleared (some _) b = some b

abbrev pub aware_run : Option ℕ → Option DateTime
aware_run none = none
aware_run (some t) = some (aware t)

run_job : Loop → Pass → Option ℕ → Raised ℕ → Outcome
run_job l p slept (raise e) = crashed e
run_job l p slept (ok at) =
    again (record { last_run = some at; wake = cleared l.wake p.set_in_job })
      (ran slept at p.job_raises)

-- The pass after the schedule has answered.
answered : ℕ → Loop → Pass → ℕ → Raised (Option ℕ) → Outcome
unfolding run_job require_aware
answered retry_delay l p now (raise e) =
    again (record l { wake = cleared l.wake false }) (retried retry_delay)
answered retry_delay l p now (ok none) = finished
answered retry_delay l p now (ok (some fire)) =
    run_job l p (if ltb now fire && not (is_set l.wake) then some (fire - now) else none)
      (require_aware p.started)

from_clock : Schedule → ℕ → Loop → Pass → Raised ℕ → Outcome
unfolding answered
from_clock ask retry_delay l p (raise e) = crashed e
from_clock ask retry_delay l p (ok now) =
    answered retry_delay l p now (ask p.draw p.now (aware_run l.last_run))

unfoldable pub run_pass : Schedule → ℕ → Loop → Pass → Outcome
unfolding from_clock require_aware
run_pass ask retry_delay l p = from_clock ask retry_delay l p (require_aware p.now)

-- The reports of the passes made, until the loop ends.
unfoldable pub run_loop : Schedule → ℕ → Loop → List Pass → List Report
run_loop ask retry_delay l [] = []
run_loop ask retry_delay l (p ∷ ps) = elim (run_pass ask retry_delay l p) [
  | finished ↦ []
  | crashed e ↦ []
  | again l' report ↦ report ∷ run_loop ask retry_delay l' ps
]

-- The loop begins with no run.
abbrev pub loop_start : Option Bool → Loop
loop_start wake = record { last_run = none; wake = wake }

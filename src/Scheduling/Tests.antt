-- ===== src/Scheduling/Tests.antt =====
-- The schedules at a calendar of three sessions, and short runs of the loop.
use trader_joe.Base.{
  ℕ, ◌+◌, ◌-◌, ◌*◌, ◌≤◌, ◌≡◌, ◌≢◌, refl, Bool, true, false, none, some, List, [], ◌∷◌, max, arith,
  length, mem,
}
use trader_joe.Base.Raised.{ok, raise, runtime_error, naive_datetime}
use trader_joe.Base.Delta.{pos, negsuc, shift, shift_back}
use trader_joe.Calendar.{naive, aware, utc_date, day_us}
use trader_joe.Calendar.Adapter.{adapter, next_session, last_completed_session, trading_calendar}
use trader_joe.Calendar.Following.{trading_calendar-SessionLaws}
use trader_joe.Calendar.Tests.{utc, utc-ZoneLaws, three, three-ExchangeLaws, sample}
use trader_joe.Scheduling.{
  Every, base_of, every_next_fire, rng_steps, AfterTradingEvent, open_event, close_event,
  event_next_fire, fire_after, scan, first_candidate, instant,
}
use trader_joe.Scheduling.Earliest.{
  IsEarliest, event_next_fire-IsEarliest, event_next_fire-ne_runtime_error,
}
use trader_joe.Scheduling.Interval.{every_next_fire_bounds}
use trader_joe.Scheduling.Loop.{Schedule, Loop, Pass, ran, again, run_pass, run_loop, loop_start}
use trader_joe.Scheduling.Spacing.{length-run_loop, run_loop-IsSpaced, IsSpaced, ArePatient, starts}

-- Half an hour before the open, and half an hour after the close.
abbrev before_open : AfterTradingEvent
before_open = record {
  calendar = (trading_calendar sample).schedule;
  event = open_event;
  offset = negsuc 1799999999;
}

abbrev after_close : AfterTradingEvent
after_close = record {
  calendar = (trading_calendar sample).schedule;
  event = close_event;
  offset = pos 1800000000;
}

program : Unit {0}
unfolding event_next_fire fire_after scan instant shift shift_back first_candidate trading_calendar
    next_session last_completed_session adapter
program = tt

-- From noon of day 11 the next fire is after that day's close; from the evening, after day 14's.
noon :
    event_next_fire after_close (aware (10 * day_us + 43200000000)) none
    ≡ ok (some (10 * day_us + 77400000000))
unfolding program
noon = refl

over_the_weekend :
    event_next_fire before_open (aware (10 * day_us + 80000000000)) none
    ≡ ok (some (13 * day_us + 50400000000))
unfolding program
over_the_weekend = refl

naive_now : event_next_fire after_close (naive 3) none ≡ raise naive_datetime
unfolding program
naive_now = refl

dated :
    (d : ℕ)
    → mem d (10 ∷ 11 ∷ 14 ∷ []) ≡ true
    → utc_date ((trading_calendar sample).session_close d) ≤ d
unfolding utc_date trading_calendar adapter
dated d m = ground arith

event_next_fire-IsEarliest_example :
    IsEarliest after_close
      (λ t. mem t (10 ∷ 11 ∷ 14 ∷ []))
      (10 * day_us + 43200000000)
      (10 * day_us + 77400000000)
event_next_fire-IsEarliest_example =
    event_next_fire-IsEarliest after_close (λ t. mem t (10 ∷ 11 ∷ 14 ∷ []))
      (trading_calendar-SessionLaws three utc utc-ZoneLaws three-ExchangeLaws 5) dated
      (10 * day_us + 43200000000) (10 * day_us + 77400000000) none noon

next_quiet : (x : ℕ) → after_close.calendar.next_session x ≢ raise runtime_error
unfolding next_session adapter trading_calendar
next_quiet x h = ground arith

completed_quiet : (x : ℕ) → after_close.calendar.last_completed_session x ≢ raise runtime_error
unfolding last_completed_session adapter trading_calendar
completed_quiet x h = ground arith

event_next_fire-ne_runtime_error_example :
    event_next_fire after_close (aware (10 * day_us)) (some (aware 7)) ≢ raise runtime_error
event_next_fire-ne_runtime_error_example =
    event_next_fire-ne_runtime_error after_close (λ t. mem t (10 ∷ 11 ∷ 14 ∷ []))
      (trading_calendar-SessionLaws three utc utc-ZoneLaws three-ExchangeLaws 5) dated (10 * day_us)
      (some 7) next_quiet completed_quiet

abbrev hourly : Every
hourly = record { interval = 3600; first = none; jitter = 10 }

every_next_fire_bounds_example :
    (fire : ℕ) × (every_next_fire hourly 5 (aware 9000) (some (aware 1000)) ≡ ok (some fire))
    × (max (base_of hourly 9000 (some 1000)) 9000 ≤ fire)
    × (fire ≤ max (base_of hourly 9000 (some 1000)) 9000 + 10)
every_next_fire_bounds_example = every_next_fire_bounds hourly 5 9000 (some 1000) (omega arith)

-- The jitter itself can be drawn: one microsecond of it rounds up.
jitter_reached :
    every_next_fire (record hourly { jitter = 1 }) (rng_steps - 1) (aware 0) none ≡ ok (some 1)
unfolding every_next_fire
jitter_reached = refl

abbrev pass : ℕ → ℕ → Bool → Pass
pass now started set = record {
  now = aware now;
  draw = 0;
  started = aware started;
  job_raises = true;
  set_in_job = set;
}

abbrev passes : List Pass
passes = pass 100 100 false ∷ pass 150 3700 false ∷ pass 9000 9000 false ∷ []

run_loop_run :
    run_loop (every_next_fire hourly) 300 (loop_start none) passes
    ≡ ran none 100 true ∷ ran (some 3550) 3700 true ∷ ran none 9000 true ∷ []
unfolding run_loop run_pass every_next_fire
run_loop_run = refl

run_loop-IsSpaced_example :
    IsSpaced 3600 none (starts (run_loop (every_next_fire hourly) 300 (loop_start none) passes))
    × (length (starts (run_loop (every_next_fire hourly) 300 (loop_start none) passes)) ≡ 3)
run_loop-IsSpaced_example = run_loop-IsSpaced hourly 300 (loop_start none) passes refl patient
  where
    patient : ArePatient (every_next_fire hourly) 300 passes (loop_start none)
    patient =
        unfold run_pass every_next_fire in
        (
          (100, 100, refl, refl, omega arith, omega arith),
          (
            (150, 3700, refl, refl, omega arith, omega arith),
            ((9000, 9000, refl, refl, omega arith, omega arith), tt),
          ),
        )

-- A schedule that fails at every pass.
abbrev failing : Schedule
failing _ _ _ = raise runtime_error

length-run_loop_example : length (run_loop failing 300 (loop_start (some true)) passes) ≡ 3
length-run_loop_example =
    length-run_loop failing 300 (loop_start (some true)) passes
      ((100, 100, refl, refl), ((150, 3700, refl, refl), ((9000, 9000, refl, refl), tt)))
      (λ draw now last h. cc)

abbrev woken : Loop
woken = record { last_run = some 100; wake = some true }

first_run :
    run_pass (every_next_fire hourly) 300 (loop_start (some false)) (pass 100 100 true)
    ≡ again woken (ran none 100 true)
unfolding run_pass every_next_fire
first_run = refl

fire_named : every_next_fire hourly 0 (aware 160) (some (aware 100)) ≡ ok (some 3700)
unfolding every_next_fire
fire_named = refl

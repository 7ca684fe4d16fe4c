-- ===== src/Scheduling.antt =====
-- server/common/scheduling.py: the three schedule kinds. A schedule is asked for its next fire,
-- given now and the last run.
pub mod Earliest
pub mod Interval
pub mod Loop
pub mod Spacing
mod Tests
use trader_joe.Base.{
  ℕ, zero, suc, ◌+◌, ◌-◌, ◌*◌, ◌/◌, ◌%◌, ◌^◌, ◌≤◌, Bool, Option, none, some, max, ltb, leb, ◌==◌,
  if◌then◌else◌,
}
use trader_joe.Base.Raised.{Raised, ok, raise, overflow, value_error, runtime_error, ◌>>=◌, ◌>>◌}
use trader_joe.Base.Delta.{ℤ, pos, negsuc, shift, shift_back}
use trader_joe.Calendar.{DateTime, aware, require_aware, require_aware?, utc_date, SessionCalendar}

-- `Once`: the instant is checked as it is built.
pub record Once : Type 0 where
  pub at : ℕ

unfoldable pub once : DateTime → Raised Once
unfolding require_aware
once at = do t ← require_aware at; ok (record { at = t })

unfoldable pub once_after : ℤ → DateTime → Raised Once
unfolding require_aware shift
once_after delay now = do t ← require_aware now; at ← shift t delay; ok (record { at = at })

unfoldable pub once_next_fire : Once → DateTime → Option DateTime → Raised (Option ℕ)
unfolding require_aware
once_next_fire o now none = do t ← require_aware now; ok (some (max o.at t))
once_next_fire o now (some last_run) = do t ← require_aware now; l ← require_aware last_run; ok none

pub data TradingEvent : Type 0 where
  open_event : TradingEvent
  close_event : TradingEvent

-- `AfterTradingEvent`: a session's open or close plus an offset.
pub record AfterTradingEvent : Type 0 where
  pub calendar : SessionCalendar
  pub event : TradingEvent
  pub offset : ℤ

abbrev pub event_of : SessionCalendar → TradingEvent → ℕ → ℕ
event_of c open_event session = c.session_open session
event_of c close_event session = c.session_close session

unfoldable pub instant : AfterTradingEvent → ℕ → Raised ℕ
instant s session = shift (event_of s.calendar s.event session) s.offset

abbrev pub max_sessions_scanned : ℕ
max_sessions_scanned = 8

-- The bounded walk over the sessions.
unfoldable pub scan : ℕ → AfterTradingEvent → ℕ → ℕ → Raised ℕ
scan zero s floor session = raise runtime_error
scan (suc rounds) s floor session = do
  fire ← instant s session
  if ltb floor fire
      then ok fire
      else do next ← s.calendar.next_session session; scan rounds s floor next

-- The date before: there is none before `date.min`.
unfoldable pub day_before : ℕ → Raised ℕ
day_before d = if leb d 1 then raise overflow else ok (d - 1)

-- The first session whose close is after the target.
unfoldable pub first_candidate : SessionCalendar → ℕ → Option ℕ → Raised ℕ
unfolding day_before
first_candidate c target none = do d ← day_before (utc_date target); c.next_session d
first_candidate c target (some last) = c.next_session last

abbrev pub later_of : ℕ → Option ℕ → ℕ
later_of now none = now
later_of now (some last_run) = max now last_run

-- From the floor on.
unfoldable pub fire_after : AfterTradingEvent → ℕ → Raised (Option ℕ)
fire_after s floor = do
  target ← shift_back floor s.offset
  last ← s.calendar.last_completed_session target
  session ← first_candidate s.calendar target last
  fire ← scan max_sessions_scanned s floor session
  ok (some fire)

unfoldable pub event_next_fire : AfterTradingEvent → DateTime → Option DateTime → Raised (Option ℕ)
unfolding require_aware require_aware?
event_next_fire s now last_run = do
  t ← require_aware now
  l ← require_aware? last_run
  fire_after s (later_of t l)

-- `Every`: a fixed interval with jitter. Both are positive, or not negative, once it is built.
pub record Every : Type 0 where
  pub interval : ℕ
  pub first : Option ℕ
  pub jitter : ℕ

-- `__post_init__`, in its order.
unfoldable pub every : ℤ → Option DateTime → ℤ → Raised Every
unfolding require_aware?
every (negsuc _) first jitter = raise value_error
every (pos zero) first jitter = raise value_error
every (pos (suc interval)) first (negsuc _) = raise value_error
every (pos (suc interval)) first (pos jitter) = do
  f ← require_aware? first
  ok (record { interval = suc interval; first = f; jitter = jitter })

-- `a / b` rounded to the nearest, a tie to the even: how `timedelta * float` rounds.
unfoldable pub divide_and_round : ℕ → ℕ → ℕ
divide_and_round a b =
    let q = a / b in
    let r = a % b in if ltb (2 * r) b then q else if ltb b (2 * r) then q + 1 else q + q % 2

-- `random.random()` draws a multiple of 1 / 2^53.
abbrev pub rng_steps : ℕ
rng_steps = 2 ^ 53

abbrev pub base_of : Every → ℕ → Option ℕ → ℕ
base_of e now none = elim e.first [ none ↦ now | some first ↦ first ]
base_of e now (some last_run) = last_run + e.interval

-- `draw` is the number of steps that the random source answered.
unfoldable pub every_next_fire : Every → ℕ → DateTime → Option DateTime → Raised (Option ℕ)
unfolding require_aware require_aware? divide_and_round
every_next_fire e draw now last_run = do
  t ← require_aware now
  l ← require_aware? last_run
  let fire = max (base_of e t l) t
  ok (some (if ltb 0 e.jitter then fire + divide_and_round (e.jitter * draw) rng_steps else fire))

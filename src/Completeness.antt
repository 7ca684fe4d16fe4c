-- ===== src/Completeness.antt =====
-- server/data/store/app/completeness.py: which sessions of a range are expected, and which of them
-- hold no bar. A collection of dates is a list, read through `mem`.
pub mod Periods
pub mod Runs
pub mod Gaps
pub mod Buckets
pub mod Tiled
pub mod Tiling
mod Tests
use trader_joe.Base.{
  ℕ, zero, suc, ◌+◌, ◌-◌, ◌*◌, ◌/◌, ◌%◌, ◌≤◌, ◌<◌, Bool, true, false, ◌&&◌, not, Option, none, some,
  List, [], ◌∷◌, ◌++◌, map, min, ltb, leb, ◌==◌, if◌then◌else◌, length, mem, filter, get_last?,
}
use trader_joe.Base.Raised.{Raised, ok, raise, ◌>>=◌}
use trader_joe.Calendar.{DateTime, require_aware, TradingCalendar}
use trader_joe.Market.{Granularity, one_week, one_month}
use trader_joe.Months.{first_day}

pub data CompletenessStatus : Type 0 where
  complete : CompletenessStatus
  gaps : CompletenessStatus

pub record CompletenessResult : Type 0 where
  pub status : CompletenessStatus
  pub gap_count : ℕ

pub record GapInterval : Type 0 where
  pub first_session : ℕ
  pub last_session : ℕ
  pub sessions : ℕ

-- `granularity in PERIODIC`
unfoldable pub is_periodic : Granularity → Bool
is_periodic one_week = true
is_periodic one_month = true
is_periodic _ = false

-- Monday is 0: day 1 was a Monday.
abbrev pub weekday : ℕ → ℕ
weekday day = (day + 6) % 7

unfoldable pub period_start : ℕ → Granularity → ℕ
period_start day one_week = day - weekday day
period_start day one_month = first_day day
period_start day _ = day

unfoldable pub next_period_start : ℕ → Granularity → ℕ
unfolding period_start
next_period_start day one_week = period_start day one_week + 7
next_period_start day one_month = first_day (first_day day + 32)
next_period_start day _ = day + 1

unfoldable pub covered_periods : List ℕ → Granularity → List ℕ
unfolding is_periodic
covered_periods covered g =
    if is_periodic g then map (λ day. period_start day g) covered else covered

-- Sessions grouped by their period, in the order of the sessions: a dictionary of lists.
abbrev pub Groups : Type 0
Groups = List (ℕ × List ℕ)

-- `by_period.setdefault(period, []).append(session)`
unfoldable pub append_to : ℕ → ℕ → Groups → Groups
append_to period session [] = (period, session ∷ []) ∷ []
append_to period session ((p, members) ∷ rest) =
    if p == period
    then (p, members ++ session ∷ []) ∷ rest
    else (p, members) ∷ append_to period session rest

unfoldable pub group_by_period : Granularity → Groups → List ℕ → Groups
unfolding append_to
group_by_period g groups [] = groups
group_by_period g groups (s ∷ ss) = group_by_period g (append_to (period_start s g) s groups) ss

-- The expected sessions, each with its period, in order.
abbrev pub Expected : Type 0
Expected = List (ℕ × ℕ)

abbrev pub with_period : ℕ → List ℕ → Expected
with_period period = map (λ s. (s, period))

-- The sessions of the expected ones whose period holds no bar.
unfoldable pub unheld : Expected → List ℕ → List ℕ
unheld expected held = map (λ e. e.0) (filter (λ e. not (mem e.1 held)) expected)

abbrev pub verdict : List ℕ → CompletenessResult
verdict [] = record { status = complete; gap_count = 0 }
verdict (s ∷ missing) = record { status = gaps; gap_count = length (s ∷ missing) }

-- `run[-1]` of a run that begins with `s`.
abbrev pub last_of : ℕ → List ℕ → ℕ
last_of s [] = s
last_of s (x ∷ xs) = last_of x xs

-- A run closed: nothing for an empty run.
unfoldable pub close_run : List ℕ → List GapInterval
close_run [] = []
close_run (s ∷ run) =
    record { first_session = s; last_session = last_of s run; sessions = length (s ∷ run) } ∷ []

-- The walk over the sessions, with the run so far.
unfoldable pub walk_runs : List ℕ → List ℕ → List ℕ → List GapInterval
unfolding close_run
walk_runs missing run [] = close_run run
walk_runs missing run (s ∷ ss) =
    let longer = walk_runs missing (run ++ s ∷ []) ss in
    let ended = close_run run ++ walk_runs missing [] ss in if mem s missing then longer else ended

module _ (c : TradingCalendar) where
  open c use {local_date, local_midnight, session_close, sessions_overlapping}

  -- Whether the last session of a period has closed. A group is never empty.
  unfoldable pub has_ended : List ℕ → ℕ → Bool
  has_ended members now = elim (get_last? members) [
    | none ↦ false
    | some s ↦ leb (session_close s) now
  ]

  unfoldable pub expected_of : ℕ → ℕ → ℕ → Groups → Expected
  unfolding has_ended
  expected_of start end now [] = []
  expected_of start end now ((period, members) ∷ rest) =
      let others = expected_of start end now rest in
      if leb start (local_midnight period)
        && ltb (local_midnight period) end
        && has_ended members now
      then with_period period members ++ others
      else others

  -- `judged`, for 1min..1day: each completed session is its own period.
  unfoldable pub judged_sessions : ℕ → ℕ → ℕ → Raised (List ℕ × Expected)
  judged_sessions start end now = do
    sessions ← sessions_overlapping start end
    ok (sessions, map (λ s. (s, s)) (filter (λ s. leb (session_close s) now) sessions))

  -- `judged`, for 1week and 1month. The first query only refuses a start before the calendar.
  unfoldable pub judged_periods : ℕ → ℕ → ℕ → Granularity → Raised (List ℕ × Expected)
  unfolding expected_of group_by_period
  judged_periods start end now g = do
    let bound = min end now
    covered ← sessions_overlapping start (start + 1)
    if leb bound start then ok ([], []) else do
      let window_end = local_midnight (next_period_start (local_date bound) g)
      sessions ← sessions_overlapping start window_end
      ok (sessions, expected_of start end now (group_by_period g [] sessions))

  unfoldable pub judged : ℕ → ℕ → ℕ → Granularity → Raised (List ℕ × Expected)
  unfolding is_periodic
  judged start end now g =
      if is_periodic g then judged_periods start end now g else judged_sessions start end now

  -- `_in_range`
  unfoldable pub in_range : Expected → ℕ → ℕ → Granularity → Raised Expected
  unfolding is_periodic
  in_range expected start end g =
      if is_periodic g
      then (sessions_overlapping start end >>= λ inside. ok (filter (λ e. mem e.0 inside) expected))
      else ok expected

  unfoldable pub missing_sessions : ℕ → ℕ → List ℕ → ℕ → Granularity → Raised (List ℕ)
  missing_sessions start end covered now g = do
    walked ← judged start end now g
    expected ← in_range walked.1 start end g
    ok (unheld expected (covered_periods covered g))

  unfoldable pub assess_completeness : ℕ → ℕ → List ℕ → Granularity → ℕ → Raised CompletenessResult
  assess_completeness start end covered g now = do
    missing ← missing_sessions start end covered now g
    ok (verdict missing)

  -- With the instants that `require_aware` has let through.
  unfoldable pub gap_runs : ℕ → ℕ → List ℕ → ℕ → Granularity → Raised (List GapInterval)
  gap_runs start end covered now g = do
    walked ← judged start end now g
    expected ← in_range walked.1 start end g
    let missing = unheld expected (covered_periods covered g)
    ok (walk_runs missing [] walked.0)

  unfoldable pub gap_intervals :
      DateTime → DateTime → List ℕ → DateTime → Granularity → Raised (List GapInterval)
  unfolding gap_runs require_aware
  gap_intervals start end covered now g = do
    s ← require_aware start
    e ← require_aware end
    t ← require_aware now
    gap_runs s e covered t g

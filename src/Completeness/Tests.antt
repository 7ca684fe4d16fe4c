-- ===== src/Completeness/Tests.antt =====
-- A week of five sessions in UTC, and the completeness theorems at it.
use trader_joe.Base.{
  ℕ, ◌+◌, ◌-◌, ◌*◌, ◌≡◌, refl, ◌&&◌, not, List, [], ◌∷◌, arith, none, ltb, leb, mem, filter, min,
  length, All,
}
use trader_joe.Base.Raised.{ok, raise, not_session}
use trader_joe.Calendar.{TradingCalendar, aware, day_us}
use trader_joe.Calendar.Tests.{utc}
use trader_joe.Market.{one_day, one_week}
use trader_joe.Months.{first_day}
use trader_joe.Completeness.{
  complete, gaps, CompletenessResult, GapInterval, is_periodic, next_period_start, covered_periods,
  judged, judged_sessions, judged_periods, in_range, unheld, missing_sessions, assess_completeness,
  walk_runs, gap_intervals,
}
use trader_joe.Completeness.Runs.{total, in_runs}
use trader_joe.Completeness.Gaps.{gap_intervals-agree}
use trader_joe.Completeness.Buckets.{
  CoverageBucket, is_expected, holds_bar, period_of, partition, coverage_buckets,
}
use trader_joe.Completeness.Tiled.{Tiles, total_expected, total_with_bars}
use trader_joe.Completeness.Tiling.{partition-Tiles}

-- Days 8 to 12 are Monday to Friday, and day 15 is the next Monday.
abbrev week : List ℕ
week = 8 ∷ 9 ∷ 10 ∷ 11 ∷ 12 ∷ 15 ∷ []

abbrev opening : ℕ → ℕ
opening s = (s - 1) * day_us + 52200000000

abbrev closing : ℕ → ℕ
closing s = (s - 1) * day_us + 75600000000

abbrev pub market : TradingCalendar
market = record {
  zone = utc;
  schedule = record {
    session_open = opening;
    session_close = closing;
    next_session = λ d. raise not_session;
    last_completed_session = λ t. ok none;
  };
  sessions_overlapping =
      λ start end. ok (filter (λ s. ltb (opening s) end && ltb start (closing s)) week);
  session_in_progress = λ t. ok none;
}

abbrev start : ℕ
start = 7 * day_us

abbrev end : ℕ
end = 15 * day_us

-- Noon of day 12: its session is open.
abbrev now : ℕ
now = 11 * day_us + 55000000000

program : Unit {0}
unfolding assess_completeness missing_sessions judged judged_sessions judged_periods in_range unheld
    covered_periods gap_intervals walk_runs coverage_buckets next_period_start first_day period_of
program = tt

-- Bars on days 9 and 11: days 8 and 10 are missing, in two runs.
gaps_run :
    gap_intervals market (aware start) (aware end) (9 ∷ 11 ∷ []) (aware now) one_day
    ≡ ok (
        record { first_session = 8; last_session = 8; sessions = 1 }
        ∷ record { first_session = 10; last_session = 10; sessions = 1 }
        ∷ [])
unfolding program
gaps_run = refl

assess_run :
    assess_completeness market start end (9 ∷ 11 ∷ []) one_day now
    ≡ ok (record { status = gaps; gap_count = 2 })
unfolding program
assess_run = refl

-- For weeks, a bar on any day covers the week; at the start of day 15 the first week has ended.
week_run :
    assess_completeness market start end (10 ∷ []) one_week (14 * day_us)
    ≡ ok (record { status = complete; gap_count = 0 })
unfolding program
week_run = refl

-- Without it, the week's five sessions are missing, in one run.
week_missing :
    gap_intervals market (aware start) (aware end) [] (aware (14 * day_us)) one_week
    ≡ ok (record { first_session = 8; last_session = 12; sessions = 5 } ∷ [])
unfolding program
week_missing = refl

buckets_run :
    coverage_buckets market (aware start) (aware end) (9 ∷ 11 ∷ []) (aware now) 2 one_day
    ≡ ok (
        record { start = start; end = 10 * day_us; expected_sessions = 3; sessions_with_bars = 1 }
        ∷ record { start = 10 * day_us; end = end; expected_sessions = 1; sessions_with_bars = 1 }
        ∷ [])
unfolding program
buckets_run = refl

gap_intervals-agree_example :
    (runs : List GapInterval) × (result : CompletenessResult) × (gap_intervals market
        (aware start)
        (aware end)
        (9 ∷ 11 ∷ [])
        (aware now)
        one_day
      ≡ ok runs)
    × (assess_completeness market start end (9 ∷ 11 ∷ []) one_day now ≡ ok result)
    × (result.gap_count
        ≡ length (filter (λ s. leb (closing s) now && not (mem s (9 ∷ 11 ∷ []))) week))
    × (total runs ≡ result.gap_count)
    × All (λ s. in_runs s runs ≡ (leb (closing s) now && not (mem s (9 ∷ 11 ∷ [])))) week
unfolding is_periodic
gap_intervals-agree_example =
    gap_intervals-agree market start end now (9 ∷ 11 ∷ []) week one_day refl refl (omega arith)

partition-Tiles_example :
    (bs : List CoverageBucket) × (partition market start end week ((8, 8) ∷ (9, 9) ∷ []) (9 ∷ []) 4
      ≡ ok bs)
    × (length bs ≡ min 4 (length week))
    × Tiles start end bs
    × (total_expected bs ≡ length (filter (is_expected ((8, 8) ∷ (9, 9) ∷ [])) week))
    × (total_with_bars bs ≡ length (filter (holds_bar ((8, 8) ∷ (9, 9) ∷ []) (9 ∷ [])) week))
partition-Tiles_example =
    partition-Tiles market start end week ((8, 8) ∷ (9, 9) ∷ []) (9 ∷ []) 4 (omega arith)
      (omega arith)

-- ===== src/Health/Tests.antt =====
-- A market whose next session is the next day, and datasets of one-day bars judged at it.
use trader_joe.Base.{
  ℕ, ◌+◌, ◌-◌, ◌*◌, ◌≡◌, refl, Bool, true, false, Option, none, some, [], ◌∷◌, ltb, if◌then◌else◌,
}
use trader_joe.Base.Raised.{ok, value_error, raise}
use trader_joe.Base.Delta.{pos, negsuc}
use trader_joe.Calendar.{aware, require_aware, require_aware?, TradingCalendar, day_us}
use trader_joe.Calendar.Tests.{utc}
use trader_joe.Market.{one_day, UpdateType, static, daily, stream}
use trader_joe.Completeness.{
  period_start, next_period_start, judged, judged_sessions, is_periodic, assess_completeness,
  missing_sessions, in_range, covered_periods, unheld,
}
use trader_joe.Health.{
  late, overdue, static_gaps, retired, freshness_config, default_config, health_of, first_missed,
  by_deadline, judge_last, judge_owed, judge_daily, judge_static, judge_by_type, is_provisional,
  last_bar_is_provisional, bar_period_close, distinct, Dataset, instants_of, evaluate_dataset,
}

abbrev opening : ℕ → ℕ
opening s = (s - 1) * day_us + 52200000000

abbrev closing : ℕ → ℕ
closing s = (s - 1) * day_us + 75600000000

-- Only sessions 10 and 11 are asked for.
abbrev market : TradingCalendar
market = record {
  zone = utc;
  schedule = record {
    session_open = opening;
    session_close = closing;
    next_session = λ d. ok (d + 1);
    last_completed_session = λ t. ok none;
  };
  sessions_overlapping = λ start end. ok (if ltb end (10 * day_us) then 10 ∷ [] else 10 ∷ 11 ∷ []);
  session_in_progress = λ t. ok none;
}

-- From day 10 to day 12, with the bar of day 10, which was written an hour after the close.
abbrev dataset : UpdateType → Option Bool → Dataset
dataset u collect = record {
  update_type = u;
  granularity = one_day;
  collect = collect;
  start = aware (9 * day_us);
  end = aware (11 * day_us);
  last_bar = some (aware (9 * day_us));
  covered = 10 ∷ [];
  last_bar_written_at = some (aware (8 * day_us + 79200000000));
}

-- The evening of day 11.
abbrev evening : ℕ
evening = 10 * day_us + 80000000000

program : Unit {0}
unfolding freshness_config evaluate_dataset instants_of require_aware require_aware? judge_by_type
    judge_daily judge_static judge_owed judge_last first_missed by_deadline is_provisional
    last_bar_is_provisional bar_period_close distinct period_start next_period_start judged
    judged_sessions is_periodic assess_completeness missing_sessions in_range covered_periods unheld
program = tt

late_in_the_evening :
    evaluate_dataset market (dataset daily (some true)) (aware evening) default_config
    ≡ ok (health_of late (some 11) (some (10 * day_us)))
unfolding program
late_in_the_evening = refl

overdue_next_day :
    evaluate_dataset market (dataset daily (some true)) (aware (12 * day_us)) default_config
    ≡ ok (health_of overdue (some 11) (some (10 * day_us)))
unfolding program
overdue_next_day = refl

one_gap :
    evaluate_dataset market (dataset static none) (aware (12 * day_us)) default_config
    ≡ ok (record (health_of static_gaps none none) { gap_count = 1 })
unfolding program
one_gap = refl

negative_margin : freshness_config (pos 3) (negsuc 0) ≡ raise value_error
unfolding program
negative_margin = refl

stopped_returns :
    evaluate_dataset market (dataset stream (some false)) (aware evening) default_config
    ≡ ok (health_of retired none none)
unfolding program
stopped_returns = refl

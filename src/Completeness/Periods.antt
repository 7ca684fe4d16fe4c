-- ===== src/Completeness/Periods.antt =====
-- The periods of a granularity, and the days that they hold.
use trader_joe.Base.{ℕ, ◌≤◌, ◌<◌, ◌≡◌, ap, arith}
use trader_joe.Market.{Granularity, one_week, one_month}
use trader_joe.Months.{
  first_day, first_of_month, first_of_month_pos, month_of, month_of_bounds, month_of_unique,
  first_day-next,
}
use trader_joe.Completeness.{period_start, next_period_start}

-- The period of a day holds the day: it starts at or before it, and the next one after it.
pub period_start_bounds :
    (day : ℕ) (g : Granularity)
    → 1 ≤ day
    → (period_start day g ≤ day) × (day < next_period_start day g)
unfolding next_period_start
period_start_bounds day one_week h = omega arith
period_start_bounds day one_month h =
    rw (first_day-next day h) (unfold first_day in month_of_bounds day h)
period_start_bounds day _ h = omega arith

-- Every day from a period's start up to the next period's start has that period: the periods of a
-- granularity partition the days.
pub period_start_same :
    (day x : ℕ) (g : Granularity)
    → 1 ≤ day
    → period_start day g ≤ x
    → x < next_period_start day g
    → period_start x g ≡ period_start day g
unfolding next_period_start
period_start_same day x one_week h lo hi = omega arith
period_start_same day x one_month h lo hi =
    let next = rw (first_day-next day h) at hi in
    unfold first_day in
    ap first_of_month
      (month_of_unique (month_of day) x (omega (arith, first_of_month_pos (month_of day))) lo next)
period_start_same day x _ h lo hi = omega arith

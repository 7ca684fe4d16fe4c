-- ===== src/RateBudget.antt =====
-- server/data/ingest/app/brokers/rate_budget.py. The code's floats are read as exact numbers in
-- fixed units: a token is 10^9 units, the clocks count microseconds, and a rate is in units per
-- microsecond, so that a rate is a whole number of thousandths of a token per second.
pub mod Bounds
pub mod Reserve
pub mod Acquire
pub mod Rounding
pub mod Waits
mod Tests
use trader_joe.Base.{
  ℕ, ◌+◌, ◌-◌, ◌*◌, ◌/◌, ◌^◌, ◌≤◌, Bool, true, false, Option, none, some, List, [], ◌∷◌, max, min,
  ltb, leb, if◌then◌else◌,
}
use trader_joe.Base.Delta.{ℤ, pos, negsuc}
use trader_joe.Market.{UpdateType, static, daily, stream}

pub data RequestPriority : Type 0 where
  live interactive backfill : RequestPriority

unfoldable pub priority_for_update_type : UpdateType → RequestPriority
priority_for_update_type stream = live
priority_for_update_type static = backfill
priority_for_update_type daily = interactive

abbrev pub one_token : ℕ
one_token = 10 ^ 9

abbrev pub second_us : ℕ
second_us = 1000000

pub record RateBudget : Type 0 where
  pub rate : Option ℕ
  pub burst : ℕ
  pub reserve : ℕ
  pub tokens : ℕ
  pub updated : ℕ

-- `max(x, 0.0)`
abbrev pub at_least_zero : ℤ → ℕ
at_least_zero (pos n) = n
at_least_zero (negsuc n) = 0

-- A second of the rate, unless a burst is configured.
abbrev pub wanted_burst : Option ℕ → Option ℤ → ℕ
wanted_burst rate (some burst) = at_least_zero burst
wanted_burst (some rate) none = rate * second_us
wanted_burst none none = 0

abbrev pub wanted_reserve : ℕ → Option ℤ → ℕ
wanted_reserve burst none = burst / 2
wanted_reserve burst (some reserve) = at_least_zero reserve

unfoldable pub rate_budget : Option ℕ → Option ℤ → Option ℤ → ℕ → RateBudget
rate_budget rate burst backfill_reserve clock =
    let capacity = max (wanted_burst rate burst) one_token in
    record {
      rate = rate;
      burst = capacity;
      reserve = min (wanted_reserve capacity backfill_reserve) (capacity - one_token);
      tokens = capacity;
      updated = clock;
    }

unfoldable pub refilled : RateBudget → ℕ → ℕ → RateBudget
refilled b rate now =
    if leb now b.updated
    then b
    else record b { updated = now; tokens = min b.burst (b.tokens + (now - b.updated) * rate) }

unfoldable pub refill : RateBudget → ℕ → RateBudget
unfolding refilled
refill b now = elim b.rate [ none ↦ b | some rate ↦ refilled b rate now ]

-- Only backfill leaves the reserve alone.
unfoldable pub floor : RateBudget → RequestPriority → ℕ
floor b backfill = b.reserve
floor b _ = 0

-- One token is taken if the class may have it. Nothing awaits in between, so the call is one step.
unfoldable pub draw : RateBudget → RequestPriority → RateBudget × Bool
unfolding floor
draw b p =
    if leb (one_token + floor b p) b.tokens
    then (record b { tokens = b.tokens - one_token }, true)
    else (b, false)

unfoldable pub try_acquire : RateBudget → RequestPriority → ℕ → RateBudget × Bool
unfolding refill draw
try_acquire b p now = elim b.rate [ none ↦ (b, true) | some rate ↦ draw (refill b now) p ]

-- What is missing until the class may have a token. The wait is this divided by the rate.
unfoldable pub deficit : RateBudget → RequestPriority → ℕ
unfolding floor
deficit b p = one_token + floor b p - b.tokens

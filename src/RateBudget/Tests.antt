-- ===== src/RateBudget/Tests.antt =====
-- The budget of a vendor of two requests a second, and short runs of attempts and of the wait for a token.
use trader_joe.Base.{
  ◌+◌, ◌-◌, ◌*◌, ◌≤◌, ◌≡◌, ◌≢◌, ◌↔◌, refl, true, false, List, none, some, [], ◌∷◌, arith,
}
use trader_joe.Base.Delta.{pos}
use trader_joe.Market.{static}
use trader_joe.Scheduling.{divide_and_round}
use trader_joe.RateBudget.{
  live, backfill, priority_for_update_type, RateBudget, one_token, rate_budget, refill, refilled,
  floor, draw, try_acquire, deficit,
}
use trader_joe.RateBudget.Bounds.{IsValid, after, granted, granted_bound}
use trader_joe.RateBudget.Reserve.{try_acquire_lem, AreBackfill, reserve_for_live}
use trader_joe.RateBudget.Acquire.{
  Turn, Sleep, acquired, rate_budget_error, Keeps, acquire, refused, refused_at, wait_or_raise,
  full_refill, acquire-Keeps,
}
use trader_joe.RateBudget.Waits.{acquire_in_two}

-- Two tokens a second, a bucket of four, of which two are kept from backfill.
abbrev vendor : RateBudget
vendor = record {
  rate = some 2000;
  burst = 4000000000;
  reserve = 2000000000;
  tokens = 4000000000;
  updated = 0;
}

abbrev spent : RateBudget
spent = record vendor { tokens = 2000000000 }

vendor-IsValid : IsValid vendor
vendor-IsValid = record { within = omega arith; whole = omega arith }

spent-IsValid : IsValid spent
spent-IsValid = record { within = omega arith; whole = omega arith }

program : Unit {0}
unfolding try_acquire refill refilled draw floor deficit rate_budget acquire refused refused_at
    wait_or_raise full_refill divide_and_round after granted priority_for_update_type
program = tt

configured : rate_budget (some 2000) (some (pos 4000000000)) none 0 ≡ vendor
unfolding program
configured = refl

-- A vendor of one request in five seconds still gets a bucket of one token, with nothing kept back.
slow_vendor :
    rate_budget (some 200) none none 7
    ≡ record { rate = some 200; burst = one_token; reserve = 0; tokens = one_token; updated = 7 }
unfolding program
slow_vendor = refl

third_backfill : granted vendor ((backfill, 1) ∷ (backfill, 2) ∷ (backfill, 3) ∷ []) ≡ 2
unfolding program
third_backfill = refl

refill_time : full_refill vendor ≡ some 2000000
unfolding program
refill_time = refl

static_yields : priority_for_update_type static ≡ backfill
unfolding program
static_yields = refl

-- From a bucket at its reserve, backfill waits half a second.
half_second :
    (acquire spent backfill (some 100) (record { now = 0; wall = 0; others = [] } ∷ [])).answer
    ≡ rate_budget_error 500000
unfolding program
half_second = refl

granted_bound_example :
    granted vendor ((live, 1) ∷ (backfill, 1000000) ∷ []) * one_token
      + (after vendor ((live, 1) ∷ (backfill, 1000000) ∷ [])).tokens
      + 0 * 2000
    ≤ 4000000000 + (after vendor ((live, 1) ∷ (backfill, 1000000) ∷ [])).updated * 2000
granted_bound_example = granted_bound vendor 2000 ((live, 1) ∷ (backfill, 1000000) ∷ []) refl

try_acquire_lem_example :
    ((try_acquire spent backfill 500000).1 ≡ true) ↔ (deficit spent backfill ≤ (500000 - 0) * 2000)
try_acquire_lem_example = try_acquire_lem spent backfill 500000 2000 spent-IsValid refl

live_ne_backfill : live ≢ backfill
live_ne_backfill = cc

reserve_for_live_example :
    (try_acquire (after vendor ((backfill, 1) ∷ (backfill, 2) ∷ (backfill, 3) ∷ [])) live 4).1
    ≡ true
unfolding AreBackfill
reserve_for_live_example =
    reserve_for_live vendor ((backfill, 1) ∷ (backfill, 2) ∷ (backfill, 3) ∷ []) live 4
      vendor-IsValid (omega arith) (omega arith) (refl, (refl, (refl, tt))) live_ne_backfill

abbrev two_turns : List Turn
two_turns =
    record { now = 0; wall = 0; others = [] }
    ∷ record { now = 500000; wall = 500000; others = [] }
    ∷ []

acquire-Keeps_example :
    Keeps backfill 600000 spent two_turns (acquire spent backfill (some 600000) two_turns)
acquire-Keeps_example = acquire-Keeps spent backfill 600000 two_turns

-- At three requests in ten seconds the wait is not a whole number of microseconds, and the rounded one is too short.
abbrev thirds : RateBudget
thirds = record { rate = some 300; burst = 2 * one_token; reserve = 0; tokens = 0; updated = 0 }

too_short :
    ((acquire thirds live none (record { now = 0; wall = 0; others = [] } ∷ [])).sleeps
      ≡ record { begins = 0; missing = one_token; rate = 300 } ∷ [])
    × (divide_and_round one_token 300 ≡ 3333333)
    × ((try_acquire thirds live 3333333).1 ≡ false)
unfolding program
too_short = (refl, refl, refl)

acquire_in_two_example :
    (s : Sleep) × ((acquire spent backfill none
        (record { now = 0; wall = 0; others = [] } ∷ [])).sleeps
      ≡ s ∷ [])
    × (((acquire spent backfill none two_turns).answer ≡ acquired)
        ↔ (s.missing ≤ (500000 - 0) * s.rate))
unfolding program
acquire_in_two_example =
    acquire_in_two spent backfill 2000 0 0 (record { now = 500000; wall = 500000; others = [] })
      spent-IsValid refl (omega arith) (omega arith) refl

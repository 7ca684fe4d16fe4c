-- ===== src/Scheduling/Interval.antt =====
-- What `Once` and `Every` answer.
use trader_joe.Base.{
  ℕ, zero, suc, ◌+◌, ◌*◌, ◌≤◌, ◌<◌, ◌≡◌, refl, inl, inr, Option, none, some, max, ltb, arith,
  if◌then◌else◌,
}
use trader_joe.Base.Raised.{ok, Raised-cases}
use trader_joe.Base.Delta.{ℤ, pos, negsuc}
use trader_joe.Calendar.{DateTime, aware, require_aware?}
use trader_joe.Scheduling.Loop.{aware_run}
use trader_joe.Scheduling.{Every, every, base_of, every_next_fire, divide_and_round, rng_steps}

rounds_to : (a j : ℕ) → a + j ≤ j * rng_steps → divide_and_round a rng_steps ≤ j
unfolding divide_and_round
rounds_to a j h = ground arith

-- Fewer than all the steps of `j` round to at most `j`.
divide_and_round-le : (j draw : ℕ) → draw < rng_steps → divide_and_round (j * draw) rng_steps ≤ j
divide_and_round-le j draw h = rounds_to (j * draw) j (product j draw rng_steps h)
  where
    product : (a b c : ℕ) → b < c → a * b + a ≤ a * c
    product a b c lt = grind arith

-- For aware instants `Every` always names a fire. It is never before now nor before the base, which
-- is the last run plus the interval, or the first instant (now, if none was given) when there was
-- no run; and it is later than the later of the two by at most the jitter, so that an overrun of
-- several intervals is one fire.
pub every_next_fire_bounds :
    (e : Every) (draw now : ℕ) (last_run : Option ℕ)
    → draw < rng_steps
    → (fire : ℕ) × (every_next_fire e draw (aware now) (aware_run last_run) ≡ ok (some fire))
      × (max (base_of e now last_run) now ≤ fire)
      × (fire ≤ max (base_of e now last_run) now + e.jitter)
unfolding every_next_fire
every_next_fire_bounds e draw now none h = (
  if ltb 0 e.jitter
      then max (base_of e now none) now + divide_and_round (e.jitter * draw) rng_steps
      else max (base_of e now none) now,
  refl,
  ground arith,
  ground (arith, divide_and_round-le e.jitter draw h),
)
every_next_fire_bounds e draw now (some l) h = (
  if ltb 0 e.jitter
      then max (l + e.interval) now + divide_and_round (e.jitter * draw) rng_steps
      else max (l + e.interval) now,
  refl,
  ground arith,
  ground (arith, divide_and_round-le e.jitter draw h),
)

-- What is built has a positive interval.
pub every-interval_pos :
    (interval jitter : ℤ) (first : Option DateTime) (e : Every)
    → every interval first jitter ≡ ok e
    → 0 < e.interval
unfolding every
every-interval_pos (negsuc n) j f e h = absurd (cc)
every-interval_pos (pos zero) j f e h = absurd (cc)
every-interval_pos (pos (suc n)) (negsuc j) f e h = absurd (cc)
every-interval_pos (pos (suc n)) (pos j) f e h = elim (Raised-cases (require_aware? f)) [
  | inl (v, returned) ↦ ground (arith, returned)
  | inr (x, raised) ↦ absurd (cc (rw raised at h))
]

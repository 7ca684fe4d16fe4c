-- ===== src/RateBudget/Acquire.antt =====
-- RateBudget.acquire of server/data/ingest/app/brokers/rate_budget.py, with the wait it computes, and the two
-- properties that report the budget. Each pass of the loop reads both clocks, and other callers make their attempts
-- while this one sleeps: a turn holds what the pass reads, and the attempts of the sleep after it.
use trader_joe.Base.{
  arith, ℕ, ◌+◌, ◌*◌, ◌≤◌, ◌<◌, ◌≡◌, inl, inr, refl, Bool, false, Option, none, some, List, [], ◌∷◌,
  All, ltb, leb, if◌then◌else◌, Bool-cases, ltb→lt, ltb-false→le, leb-false→lt,
}
use trader_joe.Scheduling.{divide_and_round}
use trader_joe.RateBudget.{RequestPriority, RateBudget, refill, try_acquire, deficit}
use trader_joe.RateBudget.Rounding.{divide_and_round-near, sleeps_in_time, gives_up_late}
use trader_joe.RateBudget.Bounds.{Attempts, after}

-- `tokens`, with the budget that its refill leaves.
unfoldable pub available : RateBudget → ℕ → RateBudget × ℕ
unfolding refill
available b now = let b' = refill b now in (b', b'.tokens)

-- `full_refill_seconds`, to the nearest microsecond. A configured rate of 0 is a division by zero.
unfoldable pub full_refill : RateBudget → Option ℕ
unfolding divide_and_round
full_refill b = elim b.rate [
  | none ↦ some 0
  | some rate ↦ if leb rate 0 then none else some (divide_and_round b.burst rate)
]

pub record Turn : Type 0 where
  pub now : ℕ
  pub wall : ℕ
  pub others : Attempts

pub data Answer : Type 0 where
  acquired : Answer
  rate_budget_error : (reset_at : ℕ) → Answer
  division_by_zero : Answer
  unset_rate : Answer
  still_waiting : Answer

-- A sleep: when it begins on the wall clock, and its length, which is `missing / rate` microseconds and not rounded.
pub record Sleep : Type 0 where
  pub begins : ℕ
  pub missing : ℕ
  pub rate : ℕ

pub record Acquired : Type 0 where
  pub answer : Answer
  pub sleeps : List Sleep
  pub budget : RateBudget

abbrev pub stopped : Answer → RateBudget → Acquired
stopped answer b = record { answer = answer; sleeps = []; budget = b }

abbrev passes_deadline : Option ℕ → ℕ → Bool
passes_deadline none reset_at = false
passes_deadline (some deadline) reset_at = ltb deadline reset_at

-- The body after a refused attempt: the deadline is checked against the wait as a `timedelta`, to the nearest
-- microsecond, then comes the sleep, and `next` is the rest of the loop.
unfoldable pub wait_or_raise : RateBudget → Option ℕ → ℕ → ℕ → ℕ → Acquired → Acquired
unfolding divide_and_round
wait_or_raise b deadline wall missing rate next =
    let reset_at = wall + divide_and_round missing rate in
    if passes_deadline deadline reset_at
    then stopped (rate_budget_error reset_at) b
    else record next {
      sleeps = record { begins = wall; missing = missing; rate = rate } ∷ next.sleeps;
    }

-- The division by the rate, which is set when an attempt has been refused.
unfoldable pub refused_at :
    Option ℕ → RateBudget → RequestPriority → Option ℕ → ℕ → Acquired → Acquired
unfolding wait_or_raise deficit
refused_at none b p deadline wall next = stopped unset_rate b
refused_at (some rate) b p deadline wall next =
    if leb rate 0
    then stopped division_by_zero b
    else wait_or_raise b deadline wall (deficit b p) rate next

unfoldable pub refused : RateBudget → RequestPriority → Option ℕ → ℕ → Acquired → Acquired
unfolding refused_at
refused b p deadline wall next = refused_at b.rate b p deadline wall next

-- `still_waiting` means that the turns end while the caller sleeps.
unfoldable pub acquire : RateBudget → RequestPriority → Option ℕ → List Turn → Acquired
unfolding try_acquire refused
acquire b p deadline [] = stopped still_waiting b
acquire b p deadline (turn ∷ rest) =
    let (b', got) = try_acquire b p turn.now in
    let next = acquire (after b' turn.others) p deadline rest in
    if got then stopped acquired b' else refused b' p deadline turn.wall next

pub acquire_step :
    (b : RateBudget) (p : RequestPriority) (deadline : Option ℕ) (turn : Turn) (rest : List Turn)
    → acquire b p deadline (turn ∷ rest) ≡ (
        if (try_acquire b p turn.now).1
        then stopped acquired (try_acquire b p turn.now).0
        else refused
            (try_acquire b p turn.now).0
            p
            deadline
            turn.wall
            (acquire (after (try_acquire b p turn.now).0 turn.others) p deadline rest))
unfolding acquire
acquire_step b p deadline turn rest = refl

-- How a call with a deadline gives up. The refused pass finds a token due `deficit / r` microseconds after its reading of
-- the wall clock: that is half a microsecond past the deadline, or more, and `reset_at` is at most half a microsecond
-- from it.
pub data GivesUp (p : RequestPriority) (deadline reset_at : ℕ)
    : RateBudget → List Turn → Type 0 where
  at_once :
      {b : RateBudget} {turn : Turn} {rest : List Turn} (r : ℕ)
      → (try_acquire b p turn.now).1 ≡ false
      → (try_acquire b p turn.now).0.rate ≡ some r
      → deadline < reset_at
      → (2 * deadline + 1) * r ≤ 2 * (turn.wall * r) + 2 * deficit (try_acquire b p turn.now).0 p
      → 2 * (turn.wall * r) + 2 * deficit (try_acquire b p turn.now).0 p ≤ (2 * reset_at + 1) * r
      → 2 * (reset_at * r) ≤ 2 * (turn.wall * r) + 2 * deficit (try_acquire b p turn.now).0 p + r
      → GivesUp p deadline reset_at b (turn ∷ rest)
  afterwards :
      {b : RateBudget} {turn : Turn} {rest : List Turn}
      → (try_acquire b p turn.now).1 ≡ false
      → GivesUp p deadline reset_at (after (try_acquire b p turn.now).0 turn.others) rest
      → GivesUp p deadline reset_at b (turn ∷ rest)

abbrev pub IsLate : RequestPriority → ℕ → RateBudget → List Turn → Answer → Type 0
IsLate p deadline b turns (rate_budget_error reset_at) = GivesUp p deadline reset_at b turns
IsLate p deadline b turns _ = Unit

-- What a deadline promises of the whole call: a sleep ends less than a microsecond after it, at most, and the call gives
-- up only on a token that is due after it.
pub record Keeps (p : RequestPriority) (deadline : ℕ) (b : RateBudget) (turns : List Turn)
    (a : Acquired) : Type 0 where
  pub in_time :
      All
        (λ (s : Sleep). 2 * (s.begins * s.rate) + 2 * s.missing ≤ (2 * deadline + 1) * s.rate)
        a.sleeps
  pub late : IsLate p deadline b turns a.answer

afterwards-IsLate :
    (p : RequestPriority) (deadline : ℕ) (b : RateBudget) (turn : Turn) (rest : List Turn)
    (answer : Answer)
    → (try_acquire b p turn.now).1 ≡ false
    → IsLate p deadline (after (try_acquire b p turn.now).0 turn.others) rest answer
    → IsLate p deadline b (turn ∷ rest) answer
afterwards-IsLate p deadline b turn rest (rate_budget_error reset_at) e g = afterwards e g
afterwards-IsLate p deadline b turn rest acquired e g = tt
afterwards-IsLate p deadline b turn rest division_by_zero e g = tt
afterwards-IsLate p deadline b turn rest unset_rate e g = tt
afterwards-IsLate p deadline b turn rest still_waiting e g = tt

module _ (p : RequestPriority) (deadline : ℕ) (b : RateBudget) (turn : Turn) (rest : List Turn)
    (refusal : (try_acquire b p turn.now).1 ≡ false) (next : Acquired)
    (kept : Keeps p deadline (after (try_acquire b p turn.now).0 turn.others) rest next) where
  wait_or_raise-Keeps :
      (r : ℕ)
      → (try_acquire b p turn.now).0.rate ≡ some r
      → 0 < r
      → Keeps p deadline b (turn ∷ rest) (
          wait_or_raise
            (try_acquire b p turn.now).0
            (some deadline)
            turn.wall
            (deficit (try_acquire b p turn.now).0 p)
            r
            next)
  unfolding wait_or_raise
  wait_or_raise-Keeps r e positive =
      let missing = deficit (try_acquire b p turn.now).0 p in
      let w = divide_and_round missing r in
      let (above, below) = divide_and_round-near missing r positive in
      elim (Bool-cases (ltb deadline (turn.wall + w))) [
        | inl h ↦ rw h (record {
          in_time = tt;
          late =
              let past = ltb→lt deadline (turn.wall + w) h in
              at_once r refusal e past (gives_up_late turn.wall w missing deadline r past below)
                (omega (arith, above)) (omega (arith, below));
        })
        | inr h ↦ rw h (record {
          in_time = (
            sleeps_in_time turn.wall w missing deadline r (ltb-false→le deadline (turn.wall + w) h)
                above,
            kept.in_time,
          );
          late = afterwards-IsLate p deadline b turn rest next.answer refusal kept.late;
        })
      ]

  refused_at-Keeps :
      (rate : Option ℕ)
      → (try_acquire b p turn.now).0.rate ≡ rate
      → Keeps p deadline b
          (turn ∷ rest)
          (refused_at rate (try_acquire b p turn.now).0 p (some deadline) turn.wall next)
  unfolding refused_at
  refused_at-Keeps none e = record { in_time = tt; late = tt }
  refused_at-Keeps (some r) e = elim (Bool-cases (leb r 0)) [
    | inl h ↦ rw h (record { in_time = tt; late = tt })
    | inr h ↦ rw h (wait_or_raise-Keeps r e (omega (arith, leb-false→lt r 0 h)))
  ]

  refused-Keeps :
      Keeps p deadline b
        (turn ∷ rest)
        (refused (try_acquire b p turn.now).0 p (some deadline) turn.wall next)
  unfolding refused
  refused-Keeps = refused_at-Keeps (try_acquire b p turn.now).0.rate refl

-- Whatever other callers do, a call with a deadline never begins a sleep whose exact length ends more than half a
-- microsecond after it. When it fails for the budget, then at a pass that got no token and found the next one due at
-- least half a microsecond after the deadline, so it does not give up on a token that was due in time; and the instant it
-- reports is after the deadline and at most half a microsecond from the one at which the token is due.
pub acquire-Keeps :
    (b : RateBudget) (p : RequestPriority) (deadline : ℕ) (turns : List Turn)
    → Keeps p deadline b turns (acquire b p (some deadline) turns)
unfolding acquire
acquire-Keeps b p deadline [] = record { in_time = tt; late = tt }
acquire-Keeps b p deadline (turn ∷ rest) =
    let b' = (try_acquire b p turn.now).0 in
    let later = acquire-Keeps (after b' turn.others) p deadline rest in
    elim (Bool-cases (try_acquire b p turn.now).1) [
      | inl e ↦ rw e (record { in_time = tt; late = tt })
      | inr e ↦ rw e (
          refused-Keeps p deadline b turn rest e
            (acquire (after b' turn.others) p (some deadline) rest) later)
    ]

-- ===== src/RateBudget/Bounds.antt =====
-- The budget's invariant, and the bound on what it lets through.
use trader_joe.Base.{
  ℕ, ◌+◌, ◌-◌, ◌*◌, ◌≤◌, ◌<◌, ◌≡◌, inl, inr, ap, ◌∙◌, refl, Bool, true, false, Option, none, some,
  List, [], ◌∷◌, max, min, arith, leb, Bool-cases, leb-false→lt, Option-cases,
}
use trader_joe.Base.Delta.{ℤ}
use trader_joe.RateBudget.{
  RequestPriority, RateBudget, one_token, rate_budget, refilled, draw, try_acquire,
}

pub record IsValid (b : RateBudget) : Type 0 where
  pub within : b.tokens ≤ b.burst
  pub whole : one_token + b.reserve ≤ b.burst

-- Whatever is configured, a new budget is full, and it holds at least a token more than its reserve.
pub rate_budget-IsValid :
    (rate : Option ℕ) (burst reserve : Option ℤ) (clock : ℕ)
    → IsValid (rate_budget rate burst reserve clock)
unfolding rate_budget
rate_budget-IsValid rate burst reserve clock = record { within = omega arith; whole = omega arith }

refilled-IsValid : (b : RateBudget) (r now : ℕ) → IsValid b → IsValid (refilled b r now)
unfolding refilled
refilled-IsValid b r now v = ground arith

draw-IsValid : (b : RateBudget) (p : RequestPriority) → IsValid b → IsValid (draw b p).0
unfolding draw
draw-IsValid b p v = ground arith

pub try_acquire-none :
    (b : RateBudget) (p : RequestPriority) (now : ℕ)
    → b.rate ≡ none
    → try_acquire b p now ≡ (b, true)
unfolding try_acquire
try_acquire-none b p now e = ground (arith, e)

pub try_acquire-some :
    (b : RateBudget) (p : RequestPriority) (now r : ℕ)
    → b.rate ≡ some r
    → try_acquire b p now ≡ draw (refilled b r now) p
unfolding try_acquire refilled
try_acquire-some b p now r e = ground (arith, e)

-- An attempt keeps the invariant, whatever it answers.
pub try_acquire-IsValid :
    (b : RateBudget) (p : RequestPriority) (now : ℕ) → IsValid b → IsValid (try_acquire b p now).0
try_acquire-IsValid b p now v = elim (Option-cases b.rate) [
  | inl e ↦ rw (try_acquire-none b p now e) v
  | inr (r, e) ↦
      rw (try_acquire-some b p now r e)
        (draw-IsValid (refilled b r now) p (refilled-IsValid b r now v))
]

-- Attempts in the order they are made: each a class and the time of the clock.
abbrev pub Attempts : Type 0
Attempts = List (RequestPriority × ℕ)

unfoldable pub after : RateBudget → Attempts → RateBudget
after b [] = b
after b ((p, now) ∷ rest) = after (try_acquire b p now).0 rest

after-IsValid : (b : RateBudget) (attempts : Attempts) → IsValid b → IsValid (after b attempts)
unfolding after
after-IsValid b [] v = v
after-IsValid b ((p, now) ∷ rest) v =
    after-IsValid (try_acquire b p now).0 rest (try_acquire-IsValid b p now v)

-- Whatever rate, burst and reserve are configured, a new budget and every budget that attempts leave of it hold no
-- more than the burst, and the burst is at least a whole token above the reserve.
pub after-rate_budget :
    (rate : Option ℕ) (burst reserve : Option ℤ) (clock : ℕ) (attempts : Attempts)
    → IsValid (after (rate_budget rate burst reserve clock) attempts)
after-rate_budget rate burst reserve clock attempts =
    after-IsValid (rate_budget rate burst reserve clock) attempts
      (rate_budget-IsValid rate burst reserve clock)

abbrev pub granted_one : Bool → ℕ
granted_one true = 1
granted_one false = 0

unfoldable pub granted : RateBudget → Attempts → ℕ
granted b [] = 0
granted b ((p, now) ∷ rest) =
    let (b', got) = try_acquire b p now in granted_one got + granted b' rest

-- One draw takes a token if it grants one.
draw_balance :
    (b : RateBudget) (p : RequestPriority)
    → (granted_one (draw b p).1 * one_token + (draw b p).0.tokens ≡ b.tokens)
      × ((draw b p).0.rate ≡ b.rate)
      × ((draw b p).0.updated ≡ b.updated)
unfolding draw
draw_balance b p = ground arith

-- A refill adds at most what the time has earned.
refilled_balance :
    (b : RateBudget) (r now : ℕ)
    → ((refilled b r now).tokens + b.updated * r ≤ b.tokens + (refilled b r now).updated * r)
      × ((refilled b r now).rate ≡ b.rate)
      × ((refilled b r now).updated ≤ max b.updated now)
unfolding refilled
refilled_balance b r now = elim (Bool-cases (leb now b.updated)) [
  | inl e ↦ rw e (omega arith, refl, omega arith)
  | inr e ↦ rw e (earned (leb-false→lt now b.updated e), refl, omega arith)
]
  where
    product : (u n k : ℕ) → u ≤ n → (n - u) * k + u * k ≡ n * k
    product u n k h =
        let split : n ≡ (n - u) + u = omega arith in omega (arith, ap (λ (x : ℕ). x * k) split)

    earned :
        b.updated < now
        → min b.burst (b.tokens + (now - b.updated) * r) + b.updated * r ≤ b.tokens + now * r
    earned h = omega (arith, product b.updated now r (omega (arith, h)))

-- One attempt: what it takes and what it leaves is what was there and what the time has earned.
try_acquire_balance :
    (b : RateBudget) (p : RequestPriority) (now r : ℕ)
    → b.rate ≡ some r
    → (granted_one (try_acquire b p now).1 * one_token
          + (try_acquire b p now).0.tokens
          + b.updated * r
        ≤ b.tokens + (try_acquire b p now).0.updated * r)
      × ((try_acquire b p now).0.rate ≡ some r)
      × ((try_acquire b p now).0.updated ≤ max b.updated now)
try_acquire_balance b p now r e =
    let (earned, same_rate, not_later) = refilled_balance b r now in
    let (taken, drawn_rate, drawn_updated) = draw_balance (refilled b r now) p in
    rw (try_acquire-some b p now r e) (
      rw drawn_updated (omega (arith, earned, taken)),
      drawn_rate ∙ same_rate ∙ e,
      rw drawn_updated not_later,
    )

pub try_acquire-rate :
    (b : RateBudget) (p : RequestPriority) (now r : ℕ)
    → b.rate ≡ some r
    → (try_acquire b p now).0.rate ≡ some r
try_acquire-rate b p now r e = (try_acquire_balance b p now r e).1

-- Whatever the classes and the times of the attempts, the tokens granted and the tokens left are at most the tokens
-- held at the start and what the rate has earned since: no burst of attempts gets more than that.
pub granted_bound :
    (b : RateBudget) (r : ℕ) (attempts : Attempts)
    → b.rate ≡ some r
    → granted b attempts * one_token + (after b attempts).tokens + b.updated * r
      ≤ b.tokens + (after b attempts).updated * r
unfolding granted after
granted_bound b r [] e = omega arith
granted_bound b r ((p, now) ∷ rest) e =
    let (here, same_rate, _) = try_acquire_balance b p now r e in
    let later = granted_bound (try_acquire b p now).0 r rest same_rate in omega (arith, here, later)

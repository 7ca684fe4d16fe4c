-- ===== src/RateBudget/Waits.antt =====
-- Whether the sleep of RateBudget.acquire (server/data/ingest/app/brokers/rate_budget.py) is as long as it has to be.
use trader_joe.Base.{
  ◌≢◌, arith, ℕ, ◌-◌, ◌*◌, ◌≤◌, ◌<◌, ◌≡◌, inl, inr, refl, true, false, Option, none, some, List, [],
  ◌∷◌, Bool-cases, lt→leb-false, ◌↔◌, subst,
}
use trader_joe.RateBudget.{RequestPriority, RateBudget, refilled, draw, try_acquire, deficit}
use trader_joe.RateBudget.Reserve.{try_acquire_lem}
use trader_joe.RateBudget.Bounds.{
  IsValid, try_acquire-IsValid, try_acquire-rate, try_acquire-some, after,
}
use trader_joe.RateBudget.Acquire.{
  Turn, acquired, Sleep, Acquired, wait_or_raise, refused, acquire, acquire_step,
}

acquired_at_once :
    (b : RateBudget) (p : RequestPriority) (deadline : Option ℕ) (turn : Turn) (rest : List Turn)
    → (try_acquire b p turn.now).1 ≡ true
    → (acquire b p deadline (turn ∷ rest)).answer ≡ acquired
unfolding acquire
acquired_at_once b p deadline turn rest e = rw e refl

-- Without a deadline, a refused pass sleeps for what is missing and goes on.
sleeps_on :
    (b : RateBudget) (p : RequestPriority) (r wall : ℕ) (next : Acquired)
    → b.rate ≡ some r
    → 0 < r
    → refused b p none wall next ≡ record next {
      sleeps = record { begins = wall; missing = deficit b p; rate = r } ∷ next.sleeps;
    }
unfolding refused wait_or_raise
sleeps_on b p r wall next e positive = rw (e, lt→leb-false 0 r positive) refl

module _ (b : RateBudget) (p : RequestPriority) (r : ℕ) (valid : IsValid b) (rate : b.rate ≡ some r)
    (positive : 0 < r) where
  refused_pass :
      (turn : Turn) (rest : List Turn)
      → (try_acquire b p turn.now).1 ≡ false
      → let b' = (try_acquire b p turn.now).0 in
        let next = acquire (after b' turn.others) p none rest in
        acquire b p none (turn ∷ rest) ≡ record next {
          sleeps = record { begins = turn.wall; missing = deficit b' p; rate = r } ∷ next.sleeps;
        }
  refused_pass turn rest not_yet =
      let b' = (try_acquire b p turn.now).0 in
      rw (acquire_step b p none turn rest, not_yet)
        (sleeps_on b' p r turn.wall (acquire (after b' turn.others) p none rest)
          (try_acquire-rate b p turn.now r rate) positive)

  last_refused :
      (turn : Turn)
      → (try_acquire b p turn.now).1 ≡ false
      → (acquire b p none (turn ∷ [])).answer ≢ acquired
  unfolding acquire
  last_refused turn not_yet = rw (refused_pass turn [] not_yet) (λ h. absurd (cc))

  last_turn :
      (turn : Turn)
      → ((acquire b p none (turn ∷ [])).answer ≡ acquired)
        ↔ (deficit b p ≤ (turn.now - b.updated) * r)
  last_turn turn = elim (Bool-cases (try_acquire b p turn.now).1) [
    | inl got ↦ (
      (λ h. (try_acquire_lem b p turn.now r valid rate).0 got),
      (λ h. acquired_at_once b p none turn [] got),
    )
    | inr not_yet ↦ (
      (λ h. absurd (last_refused turn not_yet h)),
      (λ h. acquired_at_once b p none turn [] ((try_acquire_lem b p turn.now r valid rate).1 h)),
    )
  ]

  updated_now : (now : ℕ) → b.updated ≤ now → (try_acquire b p now).0.updated ≡ now
  unfolding refilled draw
  updated_now now h =
      rw (try_acquire-some b p now r rate) (draw_now (refilled b r now) (refilled_now b h))
    where
      refilled_now : (c : RateBudget) → c.updated ≤ now → (refilled c r now).updated ≡ now
      refilled_now c k = ground (arith, k)

      draw_now : (c : RateBudget) → c.updated ≡ now → (draw c p).0.updated ≡ now
      draw_now c k = ground (arith, k)

-- Without a deadline, at a positive rate and when the clock has not gone back, a refused pass sleeps once, and the length
-- of that sleep is the least that is enough: if no other caller draws in between, the second pass gets the token exactly
-- when its clock is that much, or more, after the clock of the first.
pub acquire_in_two :
    (b : RateBudget) (p : RequestPriority) (r now wall : ℕ) (second : Turn)
    → IsValid b
    → b.rate ≡ some r
    → 0 < r
    → b.updated ≤ now
    → (try_acquire b p now).1 ≡ false
    → let first : Turn = record { now = now; wall = wall; others = [] } in
      (s : Sleep) × ((acquire b p none (first ∷ [])).sleeps ≡ s ∷ [])
      × (((acquire b p none (first ∷ second ∷ [])).answer ≡ acquired)
          ↔ (s.missing ≤ (second.now - now) * s.rate))
unfolding after acquire
acquire_in_two b p r now wall second valid rate positive clock not_yet =
    let first : Turn = record { now = now; wall = wall; others = [] } in
    let b' = (try_acquire b p now).0 in
    let rate' : b'.rate ≡ some r = try_acquire-rate b p now r rate in
    let valid' : IsValid b' = try_acquire-IsValid b p now valid in
    let same : b'.updated ≡ now = updated_now b p r valid rate positive now clock in
    let later =
      subst
        (λ (u : ℕ).
          ((acquire b' p none (second ∷ [])).answer ≡ acquired)
          ↔ (deficit b' p ≤ (second.now - u) * r))
        same (last_turn b' p r valid' rate' positive second) in
    (
      record { begins = wall; missing = deficit b' p; rate = r },
      rw (refused_pass b p r valid rate positive first [] not_yet) refl,
      rw (refused_pass b p r valid rate positive first (second ∷ []) not_yet) later,
    )

-- ===== src/RateBudget/Rounding.antt =====
-- The arithmetic of a wait that is rounded to whole microseconds, as `timedelta(seconds=wait)` in RateBudget.acquire of
-- server/data/ingest/app/brokers/rate_budget.py rounds it.
use native.Mathlib.Nat.{div-add-mod', mod-lt}
use trader_joe.Base.{
  zero, suc, ◌⊎◌, arith, ℕ, ◌+◌, ◌-◌, ◌*◌, ◌≤◌, ◌<◌, ◌≡◌, inl, inr, refl, ltb, if◌then◌else◌,
  Bool-cases, ltb→lt, ltb-false→le, ◌/◌, ◌%◌, ap, sym,
}
use trader_joe.Scheduling.{divide_and_round}

-- A rounded quotient is within a half of the quotient.
pub divide_and_round-near :
    (n r : ℕ)
    → 0 < r
    → (2 * n ≤ 2 * (divide_and_round n r * r) + r) × (2 * (divide_and_round n r * r) ≤ 2 * n + r)
unfolding divide_and_round
divide_and_round-near n r positive =
    near (n / r) (n % r) (sym (div-add-mod' n r)) (mod-lt n positive)
  where
    parity : (x : ℕ) → x < 2 → (x ≡ 0) ⊎ (x ≡ 1)
    parity zero h = inl refl
    parity (suc zero) h = inr refl
    parity (suc (suc x)) h = absurd (omega (arith, h))

    round : ℕ → ℕ → ℕ
    round q m = if ltb (2 * m) r then q else if ltb r (2 * m) then q + 1 else q + q % 2

    near :
        (q m : ℕ)
        → n ≡ q * r + m
        → m < r
        → (2 * n ≤ 2 * (round q m * r) + r) × (2 * (round q m * r) ≤ 2 * n + r)
    near q m whole rest = elim (Bool-cases (ltb (2 * m) r)) [
      | inl down ↦ rw down (omega (arith, whole, ltb→lt (2 * m) r down), omega (arith, whole))
      | inr e ↦ elim (Bool-cases (ltb r (2 * m))) [
        | inl up ↦
            rw (e, up) (omega (arith, whole, rest), omega (arith, whole, ltb→lt r (2 * m) up))
        | inr f ↦
            let half : 2 * m ≡ r =
              omega (arith, ltb-false→le (2 * m) r e, ltb-false→le r (2 * m) f) in
            elim (parity (q % 2) (mod-lt q (omega arith))) [
              | inl even ↦ rw (e, f, even) (omega (arith, whole, half), omega (arith, whole, half))
              | inr odd ↦ rw (e, f, odd) (omega (arith, whole, half), omega (arith, whole, half))
            ]
      ]
    ]

times : (a b r : ℕ) → a ≤ b → a * r ≤ b * r
times a b r h =
    let split : b ≡ a + (b - a) = omega (arith, h) in omega (arith, ap (λ (x : ℕ). x * r) split)

-- The deadline against the rounded wait `w` and the exact one.
pub sleeps_in_time :
    (wall w n d r : ℕ)
    → wall + w ≤ d
    → 2 * n ≤ 2 * (w * r) + r
    → 2 * (wall * r) + 2 * n ≤ (2 * d + 1) * r
sleeps_in_time wall w n d r h near = omega (arith, times (wall + w) d r h, near)

pub gives_up_late :
    (wall w n d r : ℕ)
    → d < wall + w
    → 2 * (w * r) ≤ 2 * n + r
    → (2 * d + 1) * r ≤ 2 * (wall * r) + 2 * n
gives_up_late wall w n d r h near =
    omega (arith, times (d + 1) (wall + w) r (omega (arith, h)), near)

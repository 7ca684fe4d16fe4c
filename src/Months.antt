-- ===== src/Months.antt =====
-- Calendar months over date ordinals: what `date.replace(day=1)` needs. Month `k` counts from
-- January of year 1, so it is month k % 12 + 1 of year k / 12 + 1.
use trader_joe.Base.{
  ℕ, zero, suc, ◌+◌, ◌-◌, ◌*◌, ◌/◌, ◌%◌, ◌≤◌, ◌<◌, ◌≡◌, true, false, inl, inr, arith, leb, ◌==◌,
  ◌&&◌, ◌||◌, not, if◌then◌else◌, Bool-cases, leb→le, leb-false→lt, refl, ap,
}

-- The leap rule, for the year after `y` years.
abbrev leap_day : ℕ → ℕ
leap_day y =
    if ((y + 1) % 4 == 0) && (not ((y + 1) % 100 == 0) || ((y + 1) % 400 == 0)) then 1 else 0

-- Days before month `m` (from 0) in a year.
abbrev cumulative : ℕ → ℕ → ℕ
cumulative leap zero = 0
cumulative leap (suc zero) = 31
cumulative leap (suc (suc m)) =
    leap
    + (if m == 0
        then 59
        else if m == 1
        then 90
        else if m == 2
        then 120
        else if m == 3
        then 151
        else if m == 4
        then 181
        else if m == 5
        then 212
        else if m == 6
        then 243
        else if m == 7
        then 273
        else if m == 8
        then 304
        else 334)

abbrev days_before_year : ℕ → ℕ
days_before_year y = 365 * y + y / 4 - y / 100 + y / 400

-- The ordinal of the first day of month `k`.
unfoldable pub first_of_month : ℕ → ℕ
first_of_month k = days_before_year (k / 12) + cumulative (leap_day (k / 12)) (k % 12) + 1

year_step : (y : ℕ) → days_before_year (y + 1) ≡ days_before_year y + 365 + leap_day y
year_step y = ground arith

within_year :
    (leap m : ℕ)
    → leap ≤ 1
    → m < 11
    → (cumulative leap m + 28 ≤ cumulative leap (suc m))
      × (cumulative leap (suc m) ≤ cumulative leap m + 31)
within_year leap zero h lt = omega arith
within_year leap (suc zero) h lt = ground arith
within_year leap (suc (suc m)) h lt = ground arith

december : (leap : ℕ) → cumulative leap 11 ≡ leap + 334
december leap = refl

leap_day-le : (y : ℕ) → leap_day y ≤ 1
leap_day-le y = ground arith

first_at : ℕ → ℕ → ℕ
first_at y m = days_before_year y + cumulative (leap_day y) m + 1

first_of_month-at : (k y m : ℕ) → k / 12 ≡ y → k % 12 ≡ m → first_of_month k ≡ first_at y m
unfolding first_of_month first_at
first_of_month-at k y m e f = rw (e, f)

-- A month has 28 to 31 days.
pub month_length :
    (k : ℕ)
    → (first_of_month k + 28 ≤ first_of_month (suc k))
      × (first_of_month (suc k) ≤ first_of_month k + 31)
month_length k = elim (Bool-cases (leb (k % 12) 10)) [
  | inl e ↦
      let here = first_of_month-at k (k / 12) (k % 12) refl refl in
      let next =
        first_of_month-at (suc k) (k / 12) (suc (k % 12)) (omega (arith, leb→le _ _ e))
          (omega (arith, leb→le _ _ e)) in
      unfold first_at in
      omega (
        arith,
        here,
        next,
        within_year (leap_day (k / 12)) (k % 12) (leap_day-le (k / 12))
            (omega (arith, leb→le _ _ e)),
      )
  | inr e ↦
      let here = first_of_month-at k (k / 12) 11 refl (omega (arith, leb-false→lt _ _ e)) in
      let next =
        first_of_month-at (suc k) (k / 12 + 1) 0 (omega (arith, leb-false→lt _ _ e))
          (omega (arith, leb-false→lt _ _ e)) in
      unfold first_at in omega (arith, here, next, year_step (k / 12), december (leap_day (k / 12)))
]

-- The last month, from `k` down, that has begun by the day.
month_down : ℕ → ℕ → ℕ
month_down zero day = 0
month_down (suc k) day = elim (leb (first_of_month (suc k)) day) [
  | true ↦ suc k
  | false ↦ month_down k day
]

-- The month of a day: 365 days to the year give a late first guess.
unfoldable pub month_of : ℕ → ℕ
unfolding month_down
month_of day = month_down (day * 12 / 365 + 2) day

-- `day.replace(day=1)`
unfoldable pub first_day : ℕ → ℕ
unfolding month_of first_of_month
first_day day = first_of_month (month_of day)

month_down_lem :
    (k day : ℕ)
    → 1 ≤ day
    → day < first_of_month (suc k)
    → (first_of_month (month_down k day) ≤ day) × (day < first_of_month (suc (month_down k day)))
unfolding month_down
month_down_lem zero day h lt = (unfold first_of_month in omega arith, lt)
month_down_lem (suc k) day h lt = elim (Bool-cases (leb (first_of_month (suc k)) day)) [
  | inl e ↦ rw (e, month_down) (leb→le _ _ e, lt)
  | inr e ↦ rw (e, month_down) (month_down_lem k day h (leb-false→lt _ _ e))
]

cumulative_low : (leap m : ℕ) → m < 12 → 365 * m ≤ 12 * cumulative leap m + 22
cumulative_low leap zero h = omega arith
cumulative_low leap (suc zero) h = omega arith
cumulative_low leap (suc (suc m)) h = ground arith

first_of_month_low : (k : ℕ) → 365 * k ≤ 12 * first_of_month k + 10
unfolding first_of_month
first_of_month_low k = omega (arith, cumulative_low (leap_day (k / 12)) (k % 12) (omega arith))

pub first_of_month_pos : (k : ℕ) → 1 ≤ first_of_month k
unfolding first_of_month
first_of_month_pos k = omega arith

guess_late : (day : ℕ) → day < first_of_month (suc (day * 12 / 365 + 2))
guess_late day = omega (arith, first_of_month_low (suc (day * 12 / 365 + 2)))

-- A day lies in its month.
pub month_of_bounds :
    (day : ℕ)
    → 1 ≤ day
    → (first_of_month (month_of day) ≤ day) × (day < first_of_month (suc (month_of day)))
unfolding month_of
month_of_bounds day h = month_down_lem (day * 12 / 365 + 2) day h (guess_late day)

first_of_month_mono : (j k : ℕ) → first_of_month k ≤ first_of_month (k + j)
first_of_month_mono zero k = let same : k + 0 ≡ k = omega arith in rw same (omega arith)
first_of_month_mono (suc j) k =
    let same : k + suc j ≡ suc (k + j) = omega arith in
    rw same (omega (arith, first_of_month_mono j k, month_length (k + j)))

-- The month of a day is the only one that holds it.
pub month_of_unique :
    (k day : ℕ) → 1 ≤ day → first_of_month k ≤ day → day < first_of_month (suc k) → month_of day ≡ k
month_of_unique k day h lo hi = elim (Bool-cases (leb (month_of day) k)) [
  | inr e ↦ absurd (apart k (month_of day) (leb-false→lt _ _ e) (month_of_bounds day h).0 hi)
  | inl e ↦ elim (Bool-cases (leb k (month_of day))) [
    | inl f ↦ omega (arith, leb→le _ _ e, leb→le _ _ f)
    | inr f ↦ absurd (apart (month_of day) k (leb-false→lt _ _ f) lo (month_of_bounds day h).1)
  ]
]
  where
    apart : (i j : ℕ) → i < j → first_of_month j ≤ day → day < first_of_month (suc i) → ⊥
    apart i j lt a b =
        let same : suc i + (j - suc i) ≡ j = omega arith in
        let m : first_of_month (suc i) ≤ first_of_month (suc i + (j - suc i)) =
          first_of_month_mono (j - suc i) (suc i) in
        let m' : first_of_month (suc i) ≤ first_of_month j = rw same at m in omega arith

-- `(day.replace(day=1) + timedelta(days=32)).replace(day=1)` is the first day of the next month.
pub first_day-next :
    (day : ℕ) → 1 ≤ day → first_day (first_day day + 32) ≡ first_of_month (suc (month_of day))
unfolding first_day
first_day-next day h =
    let k = month_of day in
    ap first_of_month (
      month_of_unique (suc k) (first_of_month k + 32) (omega arith) (omega (arith, month_length k))
        (omega (arith, month_length k, month_length (suc k))))

leap_february : first_day 738214 ≡ 738187
unfolding first_day
leap_february = refl

-- ===== src/Completeness/Tiling.antt =====
-- The coverage buckets as a tiling of their range.
use native.Mathlib.Nat.{div-add-mod, mod-lt}
use trader_joe.Base.{
  ==→eq, ℕ, zero, suc, ◌+◌, ◌*◌, ◌/◌, ◌%◌, ◌≤◌, ◌<◌, ◌≡◌, refl, sym, inl, inr, List, [], ◌∷◌, min,
  arith, ◌==◌, length, filter, Bool-cases,
}
use trader_joe.Base.Raised.{ok}
use trader_joe.Calendar.{TradingCalendar}
use trader_joe.Completeness.{Expected}
use trader_joe.Completeness.Buckets.{
  CoverageBucket, is_expected, holds_bar, bucket_start, bucket_loop, layout, partition,
}
use trader_joe.Completeness.Tiled.{bucket_loop-IsTiled, Tiles, total_expected, total_with_bars}

-- A division leaves less than the divisor, and at least one whole where the divisor fits.
shares :
    (n groups : ℕ)
    → 1 ≤ groups
    → groups ≤ n
    → (1 ≤ n / groups) × (n ≡ groups * (n / groups) + n % groups) × (n % groups < groups)
shares n groups h k = (whole, sym (div-add-mod n groups), mod-lt n h)
  where
    whole : 1 ≤ n / groups
    whole = elim (Bool-cases (n / groups == 0)) [
      | inr e ↦ ground arith
      | inl e ↦
          let nothing : groups * 0 + n % groups ≡ n =
            rw (==→eq (n / groups) 0 e) at (div-add-mod n groups) in
          absurd (omega (arith, nothing, mod-lt n h))
    ]

groups-tiled :
    (c : TradingCalendar) (start end : ℕ) (sessions : List ℕ) (expected : Expected) (held : List ℕ)
    (groups : ℕ)
    → 1 ≤ groups
    → groups ≤ length sessions
    → (bs : List CoverageBucket) × (bucket_loop
          (layout c start end sessions expected held groups)
          groups
          0
          0
        ≡ ok bs)
      × (length bs ≡ groups)
      × Tiles start end bs
      × (total_expected bs ≡ length (filter (is_expected expected) sessions))
      × (total_with_bars bs ≡ length (filter (holds_bar expected held) sessions))
groups-tiled c start end sessions expected held zero h k = absurd (omega arith)
groups-tiled c start end sessions expected held (suc r) h k =
    let w = layout c start end sessions expected held (suc r) in
    let (positive, shared, fewer) = shares (length sessions) (suc r) h k in
    let (bs, run, t) =
      bucket_loop-IsTiled w positive shared fewer r 0 0 start (omega arith) (omega arith)
        (unfold bucket_start in refl) in
    (bs, run, t.as_many, t.tiles, t.expected, t.with_bar)

-- For a range with a session and at least one bucket the partition is made: there are as many
-- buckets as asked for, or as there are sessions if those are fewer; the first starts where the
-- range starts, each ends where the next starts and the last where the range ends; and together
-- they count every expected session once, and every expected session whose period holds a bar once.
pub partition-Tiles :
    (c : TradingCalendar) (start end : ℕ) (sessions : List ℕ) (expected : Expected) (held : List ℕ)
    (buckets : ℕ)
    → 1 ≤ length sessions
    → 1 ≤ buckets
    → (bs : List CoverageBucket) × (partition c start end sessions expected held buckets ≡ ok bs)
      × (length bs ≡ min buckets (length sessions))
      × Tiles start end bs
      × (total_expected bs ≡ length (filter (is_expected expected) sessions))
      × (total_with_bars bs ≡ length (filter (holds_bar expected held) sessions))
partition-Tiles c start end [] expected held buckets h k = absurd (omega arith)
partition-Tiles c start end (s ∷ ss) expected held buckets h k =
    unfold partition in
    groups-tiled c start end (s ∷ ss) expected held (min buckets (length (s ∷ ss))) (omega arith)
      (omega arith)

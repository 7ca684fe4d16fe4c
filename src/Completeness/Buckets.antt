-- ===== src/Completeness/Buckets.antt =====
-- `coverage_buckets` of server/data/store/app/completeness.py.
use trader_joe.Base.{
  ℕ, zero, suc, ◌+◌, ◌-◌, ◌/◌, ◌%◌, Bool, true, false, Option, none, some, List, [], ◌∷◌, min, ltb,
  ◌==◌, if◌then◌else◌, length, mem, filter, get_elem?, take, drop,
}
use trader_joe.Base.Raised.{Raised, ok, raise, value_error, index_error, ◌>>=◌}
use trader_joe.Calendar.{DateTime, require_aware, TradingCalendar}
use trader_joe.Market.{Granularity}
use trader_joe.Completeness.{Expected, is_periodic, covered_periods, judged}

pub record CoverageBucket : Type 0 where
  pub start : ℕ
  pub end : ℕ
  pub expected_sessions : ℕ
  pub sessions_with_bars : ℕ

-- The period of an expected session: a lookup in the dictionary.
unfoldable pub period_of : ℕ → Expected → Option ℕ
period_of s [] = none
period_of s ((t, period) ∷ rest) = if s == t then some period else period_of s rest

-- `s in judged_sessions`
abbrev pub is_expected : Expected → ℕ → Bool
is_expected expected s = elim (period_of s expected) [ none ↦ false | some _ ↦ true ]

-- `judged_sessions[s] in held`, of an expected session.
abbrev pub holds_bar : Expected → List ℕ → ℕ → Bool
holds_bar expected held s = elim (period_of s expected) [ none ↦ false | some p ↦ mem p held ]

-- What the loop reads and does not change.
pub record Layout : Type 0 where
  pub from : ℕ
  pub to : ℕ
  pub local_midnight : ℕ → ℕ
  pub sessions : List ℕ
  pub expected : Expected
  pub held : List ℕ
  pub groups : ℕ
  pub size : ℕ
  pub remainder : ℕ

module _ (w : Layout) where
  open w use {from, to, local_midnight, sessions, expected, held, groups, size, remainder}

  -- The local midnight of an indexed session; an index out of range raises.
  unfoldable pub midnight_at : Option ℕ → Raised ℕ
  midnight_at none = raise index_error
  midnight_at (some s) = ok (local_midnight s)

  unfoldable pub last_index : ℕ → ℕ → ℕ
  last_index index first = first + size + (if ltb index remainder then 1 else 0)

  unfoldable pub members : ℕ → ℕ → List ℕ
  unfolding last_index
  members index first = drop first (take (last_index index first) sessions)

  unfoldable pub bucket_start : ℕ → ℕ → Raised ℕ
  unfolding midnight_at members
  bucket_start index first =
      if index == 0 then ok from else midnight_at (get_elem? (members index first) 0)

  unfoldable pub bucket_end : ℕ → ℕ → Raised ℕ
  unfolding midnight_at last_index
  bucket_end index first =
      if index == groups - 1
      then ok to
      else midnight_at (get_elem? sessions (last_index index first))

  unfoldable pub bucket : ℕ → ℕ → ℕ → ℕ → CoverageBucket
  unfolding members
  bucket index first start end =
      let counted = filter (is_expected expected) (members index first) in
      record {
        start = start;
        end = end;
        expected_sessions = length counted;
        sessions_with_bars = length (filter (holds_bar expected held) counted);
      }

  -- The loop, by the rounds left, over the index and the first session of the bucket.
  unfoldable pub bucket_loop : ℕ → ℕ → ℕ → Raised (List CoverageBucket)
  unfolding bucket last_index bucket_start bucket_end
  bucket_loop zero index first = ok []
  bucket_loop (suc rounds) index first = do
    start ← bucket_start index first
    end ← bucket_end index first
    rest ← bucket_loop rounds (index + 1) (last_index index first)
    ok (bucket index first start end ∷ rest)

abbrev pub layout : TradingCalendar → ℕ → ℕ → List ℕ → Expected → List ℕ → ℕ → Layout
layout c start end sessions expected held groups = record {
  from = start;
  to = end;
  local_midnight = c.local_midnight;
  sessions = sessions;
  expected = expected;
  held = held;
  groups = groups;
  size = length sessions / groups;
  remainder = length sessions % groups;
}

unfoldable pub partition :
    TradingCalendar → ℕ → ℕ → List ℕ → Expected → List ℕ → ℕ → Raised (List CoverageBucket)
unfolding bucket_loop
partition c start end [] expected held buckets = ok []
partition c start end (s ∷ ss) expected held buckets =
    let groups = min buckets (length (s ∷ ss)) in
    bucket_loop (layout c start end (s ∷ ss) expected held groups) groups 0 0

-- With the instants that `require_aware` has let through.
unfoldable pub coverage_of :
    TradingCalendar → ℕ → ℕ → List ℕ → ℕ → ℕ → Granularity → Raised (List CoverageBucket)
unfolding partition
coverage_of c start end covered now buckets g = if ltb buckets 1 then raise value_error else do
  walked ← judged c start end now g
  sessions ← (if is_periodic g then c.sessions_overlapping start end else ok walked.0)
  partition c start end sessions walked.1 (covered_periods covered g) buckets

unfoldable pub coverage_buckets :
    TradingCalendar
    → DateTime
    → DateTime
    → List ℕ
    → DateTime
    → ℕ
    → Granularity
    → Raised (List CoverageBucket)
unfolding coverage_of require_aware
coverage_buckets c start end covered now buckets g = do
  s ← require_aware start
  e ← require_aware end
  t ← require_aware now
  coverage_of c s e covered t buckets g

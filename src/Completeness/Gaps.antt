-- ===== src/Completeness/Gaps.antt =====
-- `assess_completeness` and `gap_intervals` over one range (1min to 1day).
use trader_joe.Base.{
  ℕ, ◌≡◌, refl, ap, Bool, true, false, ◌&&◌, not, List, [], ◌∷◌, arith, leb, length, mem, mem-All,
  mem-filter, map, filter, filter_same, All, All-zip, ◌∙◌, IsAscending,
}
use trader_joe.Base.Raised.{ok}
use trader_joe.Calendar.{aware, TradingCalendar}
use trader_joe.Market.{Granularity}
use trader_joe.Completeness.{
  CompletenessResult, GapInterval, is_periodic, covered_periods, judged, judged_sessions, in_range,
  unheld, missing_sessions, verdict, assess_completeness, walk_runs, gap_runs, gap_intervals,
}
use trader_joe.Completeness.Runs.{total, in_runs, total-walk_runs, Agrees, walk_runs-Agrees}

module _ (c : TradingCalendar) (start end now : ℕ) (covered sessions : List ℕ) (g : Granularity)
    (by_session : is_periodic g ≡ false)
    (overlapping : c.sessions_overlapping start end ≡ ok sessions) where
  -- What is missing: the sessions that have closed and hold no bar.
  abbrev is_missing : ℕ → Bool
  is_missing s = leb (c.session_close s) now && not (mem s covered)

  unheld_own :
      (ss : List ℕ)
      → unheld (map (λ s. (s, s)) (filter (λ s. leb (c.session_close s) now) ss)) covered
        ≡ filter is_missing ss
  unfolding unheld
  unheld_own [] = refl
  unheld_own (s ∷ ss) = ground (arith, unheld_own ss)

  -- Of the sessions that overlap the range, exactly the closed ones with no bar are missing.
  pub missing_sessions-eq-filter :
      missing_sessions c start end covered now g ≡ ok (filter is_missing sessions)
  unfolding missing_sessions judged judged_sessions in_range covered_periods
  missing_sessions-eq-filter = rw (by_session, overlapping, unheld_own)

  gap_runs-eq-walk :
      gap_runs c start end covered now g ≡ ok (walk_runs (filter is_missing sessions) [] sessions)
  unfolding gap_runs judged judged_sessions in_range covered_periods
  gap_runs-eq-walk = rw (by_session, overlapping, unheld_own)

  -- Each missing session of the walk is in the list of the missing.
  mem-missing : (s : ℕ) → mem s sessions ≡ true → mem s (filter is_missing sessions) ≡ is_missing s
  mem-missing s m = rw (mem-filter is_missing s sessions, m)

  counted :
      length (filter (λ s. mem s (filter is_missing sessions)) sessions)
      ≡ length (filter is_missing sessions)
  counted = ap length (filter_same _ is_missing sessions (mem-All sessions mem-missing))

  pub verdict-gap_count : (missing : List ℕ) → (verdict missing).gap_count ≡ length missing
  verdict-gap_count [] = refl
  verdict-gap_count (s ∷ missing) = refl

  -- For a granularity whose period is the session, and aware instants, both calls return, and they
  -- agree with one account of the range, in which a session is missing if it has closed and holds no
  -- bar: the verdict's count is the number of missing sessions, so is the sum of the runs' counts,
  -- and a session of the range lies in one of the runs exactly if it is missing. The calendar
  -- answers the range's sessions in ascending order.
  pub gap_intervals-agree :
      IsAscending sessions
      → (runs : List GapInterval) × (result : CompletenessResult) × (gap_intervals c
            (aware start)
            (aware end)
            covered
            (aware now)
            g
          ≡ ok runs)
        × (assess_completeness c start end covered g now ≡ ok result)
        × (result.gap_count
            ≡ length (filter (λ s. leb (c.session_close s) now && not (mem s covered)) sessions))
        × (total runs ≡ result.gap_count)
        × All (λ s. in_runs s runs ≡ (leb (c.session_close s) now && not (mem s covered))) sessions
  unfolding gap_intervals assess_completeness
  gap_intervals-agree ascending = (
    walk_runs (filter is_missing sessions) [] sessions,
    verdict (filter is_missing sessions),
    gap_runs-eq-walk,
    rw missing_sessions-eq-filter,
    verdict-gap_count (filter is_missing sessions),
    omega (
      arith,
      total-walk_runs (filter is_missing sessions) [] sessions,
      counted,
      verdict-gap_count (filter is_missing sessions),
    ),
    All-zip named sessions
        (walk_runs-Agrees (filter is_missing sessions) [] sessions ascending tt).1
        (mem-All sessions mem-missing),
  )
    where
      named :
          (s : ℕ)
          → Agrees
              (filter is_missing sessions)
              (walk_runs (filter is_missing sessions) [] sessions)
              s
          → mem s (filter is_missing sessions) ≡ is_missing s
          → in_runs s (walk_runs (filter is_missing sessions) [] sessions) ≡ is_missing s
      named s a b = a ∙ b

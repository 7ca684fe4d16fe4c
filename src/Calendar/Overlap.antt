-- ===== src/Calendar/Overlap.antt =====
-- The session window of `sessions_overlapping` against the whole table.
use trader_joe.Base.{
  ℕ, ◌+◌, ◌-◌, ◌≤◌, ◌<◌, ◌≡◌, ap, inl, inr, true, false, ◌&&◌, [], some, arith, min, max, ltb, leb,
  if◌then◌else◌, mem, mem-All, filter, filter_none, filter_same, filter-filter, Bool-cases,
  ltb-false→le, ltb→lt, Bool,
}
use trader_joe.Base.Raised.{ok, raise, calendar_range}
use trader_joe.Calendar.{Zone, ZoneLaws}
use trader_joe.Calendar.Bisect.{window, window-eq-filter}
use trader_joe.Calendar.Adapter.{ExchangeCalendar, ExchangeLaws, adapter, sessions_overlapping}

-- Local dates follow the instants.
pub local_date_mono : (z : Zone) → ZoneLaws z → (t u : ℕ) → t ≤ u → z.local_date t ≤ z.local_date u
local_date_mono z laws t u h =
    (laws.midnight_iff (z.local_date t) u).0
      (omega (arith, (laws.midnight_iff (z.local_date t) t).1 (omega arith)))

module _ (cal : ExchangeCalendar) (z : Zone) (zl : ZoneLaws z) (laws : ExchangeLaws cal z)
    (from to : ℕ) where
  abbrev overlaps : ℕ → Bool
  overlaps s = ltb (cal.opens s) to && ltb from (cal.closes s)

  -- The padded bounds of the window.
  abbrev lo : ℕ
  lo = max (z.local_date from - 1) cal.first_session

  abbrev hi : ℕ
  hi = min (z.local_date to + 1) cal.last_session

  -- A session that overlaps lies between the padded bounds.
  overlaps_within : (s : ℕ) → mem s cal.sessions ≡ true → overlaps s ≡ true → (lo ≤ s) × (s ≤ hi)
  overlaps_within s m h =
      let o : cal.opens s < to = ground arith in
      let c : from < cal.closes s = ground arith in
      omega (
        arith,
        laws.bounded s m,
        laws.open_date s m,
        laws.close_date s m,
        local_date_mono z zl (cal.opens s) to (omega arith),
        local_date_mono z zl from (cal.closes s) (omega arith),
      )

  padded : (s : ℕ) → mem s cal.sessions ≡ true → (leb lo s && leb s hi) && overlaps s ≡ overlaps s
  padded s m = elim (Bool-cases (overlaps s)) [
    | inl e ↦ let w = overlaps_within s m e in rw e (ground (arith, w.0, w.1))
    | inr e ↦ rw e (ground arith)
  ]

  outside : hi < lo → (s : ℕ) → mem s cal.sessions ≡ true → overlaps s ≡ false
  outside h s m = elim (Bool-cases (overlaps s)) [
    | inl e ↦ absurd (omega (arith, overlaps_within s m e))
    | inr e ↦ e
  ]

  window-overlaps :
      (if ltb hi lo then ok [] else ok (filter overlaps (window cal.sessions lo hi)))
      ≡ ok (filter overlaps cal.sessions)
  window-overlaps = elim (Bool-cases (ltb hi lo)) [
    | inl e ↦
        let outer = mem-All cal.sessions (outside (ltb→lt hi lo e)) in
        rw (e, filter_none overlaps cal.sessions outer)
    | inr e ↦
        let inner = window-eq-filter cal.sessions lo hi laws.ascending (ltb-false→le hi lo e) in
        rw (e, inner, filter-filter)
          (ap ok (filter_same _ _ cal.sessions (mem-All cal.sessions padded)))
  ]

  -- A range that starts before the calendar is refused. For any other the answer is every session
  -- whose open-to-close interval overlaps the range, in the calendar's order, and no other: the
  -- window that is bisected out of the table, padded by a day each way, loses none.
  pub sessions_overlapping-eq-filter :
      (start : ℕ)
      → sessions_overlapping (adapter cal z (some start)) from to ≡ (
          if ltb (z.local_date from) start
          then raise calendar_range
          else ok (filter (λ s. ltb (cal.opens s) to && ltb from (cal.closes s)) cal.sessions))
  unfolding sessions_overlapping adapter
  sessions_overlapping-eq-filter start = elim (Bool-cases (ltb (z.local_date from) start)) [
    | inl e ↦ rw e
    | inr e ↦ rw e window-overlaps
  ]

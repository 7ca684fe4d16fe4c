-- ===== src/Calendar/Tests.antt =====
-- A calendar of three sessions in UTC, and the calendar's theorems at it.
use trader_joe.Base.{
  ℕ, ◌+◌, ◌-◌, ◌*◌, ◌/◌, ◌≤◌, ◌<◌, ◌≡◌, refl, true, ◌&&◌, List, [], ◌∷◌, arith, some, Option, ltb,
  leb, if◌then◌else◌, mem, filter,
}
use trader_joe.Base.Raised.{ok, raise, Raised, calendar_range, not_session}
use trader_joe.Calendar.{Zone, ZoneLaws, IsNext, IsPrevious, IsCompleted, SessionLaws, day_us}
use trader_joe.Calendar.Bisect.{bisect_left, bisect_right}
use trader_joe.Calendar.Overlap.{sessions_overlapping-eq-filter}
use trader_joe.Calendar.Completed.{last_completed_session-IsCompleted}
use trader_joe.Calendar.Following.{trading_calendar-SessionLaws}
use trader_joe.Calendar.Adapter.{
  ExchangeCalendar, ExchangeLaws, Adapter, adapter, last_completed_session, trading_calendar,
  sessions_overlapping, session_in_progress,
}

abbrev pub utc : Zone
utc = record { local_date = λ t. t / day_us + 1; local_midnight = λ d. (d - 1) * day_us }

pub utc-ZoneLaws : ZoneLaws utc
utc-ZoneLaws = record { midnight_iff = λ d t. omega arith; midnight_grows = λ d h. omega arith }

abbrev week : List ℕ
week = 10 ∷ 11 ∷ 14 ∷ []

abbrev opening : ℕ → ℕ
opening s = (s - 1) * day_us + 52200000000

abbrev closing : ℕ → ℕ
closing s = (s - 1) * day_us + 75600000000

abbrev previous : ℕ → ℕ
previous d = if leb 14 d then 14 else if leb 11 d then 11 else 10

abbrev following : ℕ → Raised ℕ
following d =
    if ltb d 10
    then ok 10
    else if ltb d 11
    then ok 11
    else if ltb d 14
    then ok 14
    else raise not_session

abbrev pub three : ExchangeCalendar
three = record {
  first_session = 10;
  last_session = 14;
  sessions = week;
  opens = opening;
  closes = closing;
  session_open = λ _. raise not_session;
  session_close = λ _. raise not_session;
  is_session = λ d. mem d week;
  date_to_session_previous = λ d. ok (previous d);
  date_to_session_next = following;
  previous_session = λ d. ok (previous (d - 1));
  next_session = following;
}

listed_cases : (s : ℕ) → mem s week ≡ true → (10 ≤ s) × (s ≤ 14)
listed_cases s h = ground arith

previous-IsPrevious : (d : ℕ) → 10 ≤ d → IsPrevious (λ t. mem t week) d (previous d)
previous-IsPrevious d h = record {
  listed = ground arith;
  before = ground arith;
  greatest = λ t m le. ground arith;
}

following-IsNext : (d s : ℕ) → following d ≡ ok s → IsNext (λ t. mem t week) d s
following-IsNext d s h = record {
  listed = ground arith;
  after = ground arith;
  least = λ t m lt. ground arith;
}

following_some : (d : ℕ) → d < 14 → (s : ℕ) × (following d ≡ ok s)
following_some d h = (if ltb d 10 then 10 else if ltb d 11 then 11 else 14, ground arith)

pub three-ExchangeLaws : ExchangeLaws three utc
three-ExchangeLaws = record {
  ascending = omega arith;
  first_listed = refl;
  bounded = listed_cases;
  open_date = λ s m. omega (arith, listed_cases s m);
  close_date = λ s m. omega (arith, listed_cases s m);
  opens_first = λ s m. omega arith;
  is_session_lem = λ s. refl;
  date_previous = λ d a b. (previous d, refl, previous-IsPrevious d a);
  date_next_lem = λ d s m e. following-IsNext d s e;
  date_next_some = λ d a b. following_some d b;
  previous_some =
      λ d m lt. (previous (d - 1), refl, ground arith, previous-IsPrevious (d - 1) (ground arith));
  next_lem = λ d s m e. following-IsNext d s e;
  next_some = λ d m lt. following_some d lt;
}

abbrev pub sample : Adapter
sample = adapter three utc (some 5)

-- Day 9 to noon of day 14, before the last open: two sessions, the third not yet open.
overlapping_run : sessions_overlapping sample (8 * day_us) (13 * day_us) ≡ ok (10 ∷ 11 ∷ [])
unfolding sessions_overlapping adapter bisect_left bisect_right
overlapping_run = refl

completed_run : last_completed_session sample (13 * day_us) ≡ ok (some 11)
unfolding last_completed_session adapter
completed_run = refl

in_progress_run : session_in_progress sample (9 * day_us + 60000000000) ≡ ok (some 10)
unfolding session_in_progress adapter
in_progress_run = refl

sessions_overlapping-eq-filter_example : sessions_overlapping sample (8 * day_us) (13 * day_us) ≡ (
    if ltb (utc.local_date (8 * day_us)) 5
    then raise calendar_range
    else ok (filter (λ s. ltb (opening s) (13 * day_us) && ltb (8 * day_us) (closing s)) week))
sessions_overlapping-eq-filter_example =
    sessions_overlapping-eq-filter three utc utc-ZoneLaws three-ExchangeLaws (8 * day_us)
      (13 * day_us) 5

last_completed_session-IsCompleted_example :
    (r : Option ℕ) × (last_completed_session sample (13 * day_us) ≡ ok r)
    × IsCompleted (trading_calendar sample).schedule (λ t. mem t week) (13 * day_us) r
last_completed_session-IsCompleted_example =
    last_completed_session-IsCompleted three utc utc-ZoneLaws three-ExchangeLaws 5 (13 * day_us)
      (omega arith)

trading_calendar-SessionLaws_example :
    SessionLaws (trading_calendar sample).schedule (λ t. mem t week)
trading_calendar-SessionLaws_example =
    trading_calendar-SessionLaws three utc utc-ZoneLaws three-ExchangeLaws 5

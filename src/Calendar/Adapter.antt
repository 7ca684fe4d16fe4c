-- ===== src/Calendar/Adapter.antt =====
-- `ExchangeCalendarAdapter` of server/data/store/app/trading_calendar.py. The library calendar
-- (`exchange_calendars`) is a parameter, with its documented behaviour as the laws.
use trader_joe.Base.{
  ℕ, ◌+◌, ◌-◌, ◌≤◌, ◌<◌, ◌≡◌, Bool, true, false, ◌&&◌, Option, none, some, List, [], min, max, ltb,
  leb, ◌==◌, not, if◌then◌else◌, mem, filter, IsAscending,
}
use trader_joe.Base.Raised.{Raised, ok, raise, calendar_range, ◌>>=◌, ◌>>◌}
use trader_joe.Calendar.{Zone, TradingCalendar, IsNext, IsPrevious}
use trader_joe.Calendar.Bisect.{window}

-- A library calendar: its session table, and the calls that the adapter makes.
pub record ExchangeCalendar : Type 0 where
  pub first_session : ℕ
  pub last_session : ℕ
  pub sessions : List ℕ
  pub opens : ℕ → ℕ
  pub closes : ℕ → ℕ
  pub session_open : ℕ → Raised ℕ
  pub session_close : ℕ → Raised ℕ
  pub is_session : ℕ → Bool
  pub date_to_session_previous : ℕ → Raised ℕ
  pub date_to_session_next : ℕ → Raised ℕ
  pub previous_session : ℕ → Raised ℕ
  pub next_session : ℕ → Raised ℕ

-- The adapter's attributes; the session table is read out of the calendar as it is built.
pub record Adapter : Type 0 where
  pub cal : ExchangeCalendar
  pub tz : Zone
  pub first : ℕ
  pub last : ℕ
  pub start : ℕ
  pub sessions : List ℕ
  pub opens : ℕ → ℕ
  pub closes : ℕ → ℕ

abbrev start_or : Option ℕ → ℕ → ℕ
start_or none first = first
start_or (some start) first = start

unfoldable pub adapter : ExchangeCalendar → Zone → Option ℕ → Adapter
adapter calendar tz start = record {
  cal = calendar;
  tz = tz;
  first = calendar.first_session;
  last = calendar.last_session;
  start = start_or start calendar.first_session;
  sessions = calendar.sessions;
  opens = calendar.opens;
  closes = calendar.closes;
}

module _ (a : Adapter) where
  open a use {cal, tz, first, last, start, sessions, opens, closes}
  open tz use {local_date}

  -- A session's open is looked up; for any other day the calendar's own refusal is given.
  unfoldable pub session_open : ℕ → Raised ℕ
  session_open session =
      if mem session sessions then ok (opens session) else cal.session_open session

  unfoldable pub session_close : ℕ → Raised ℕ
  session_close session =
      if mem session sessions then ok (closes session) else cal.session_close session

  unfoldable pub require_covered : ℕ → Raised (Unit {0})
  require_covered day = if ltb day start then raise calendar_range else ok tt

  -- Padded by a day each way. The date before the start's is a date, since the calendar starts
  -- after day 1.
  unfoldable pub sessions_overlapping : ℕ → ℕ → Raised (List ℕ)
  unfolding require_covered
  sessions_overlapping from to = do
    require_covered (local_date from)
    let lo = max (local_date from - 1) first
    let hi = min (local_date to + 1) last
    if ltb hi lo
        then ok []
        else ok (filter (λ s. ltb (opens s) to && ltb from (closes s)) (window sessions lo hi))

  -- The session before a candidate that has not closed yet.
  before : ℕ → Raised (Option ℕ)
  before candidate =
      if candidate == first
      then ok none
      else do earlier ← cal.previous_session candidate; ok (some earlier)

  unfoldable pub last_completed_session : ℕ → Raised (Option ℕ)
  unfolding require_covered session_close before
  last_completed_session now = do
    require_covered (local_date now)
    if ltb (local_date now) first then ok none else do
      candidate ← cal.date_to_session_previous (min (local_date now) last)
      close ← session_close candidate
      if ltb now close then before candidate else ok (some candidate)

  unfoldable pub session_in_progress : ℕ → Raised (Option ℕ)
  unfolding require_covered session_open session_close
  session_in_progress now = do
    require_covered (local_date now)
    if not (leb first (local_date now) && leb (local_date now) last) then ok none else do
      session ← cal.date_to_session_previous (local_date now)
      opened ← session_open session
      close ← session_close session
      if leb opened now && ltb now close then ok (some session) else ok none

  -- The first session strictly after `session`, which need not itself be a session.
  unfoldable pub next_session : ℕ → Raised ℕ
  unfolding require_covered
  next_session session = do
    require_covered session
    if ltb session first
        then ok first
        else if cal.is_session session
        then cal.next_session session
        else cal.date_to_session_next session

  -- The adapter as the protocol that the health rules use.
  unfoldable pub trading_calendar : TradingCalendar
  unfolding sessions_overlapping last_completed_session session_in_progress next_session
  trading_calendar = record {
    zone = tz;
    schedule = record {
      session_open = opens;
      session_close = closes;
      next_session = next_session;
      last_completed_session = last_completed_session;
    };
    sessions_overlapping = sessions_overlapping;
    session_in_progress = session_in_progress;
  }

-- The library's documented behaviour, and what holds of the exchanges served: a session opens and
-- closes on its own local date. A request past the table's end is refused.
pub record ExchangeLaws (cal : ExchangeCalendar) (tz : Zone) : Type 0 where
  pub ascending : IsAscending cal.sessions
  pub first_listed : mem cal.first_session cal.sessions ≡ true
  pub bounded :
      (s : ℕ) → mem s cal.sessions ≡ true → (cal.first_session ≤ s) × (s ≤ cal.last_session)
  pub open_date : (s : ℕ) → mem s cal.sessions ≡ true → tz.local_date (cal.opens s) ≡ s
  pub close_date : (s : ℕ) → mem s cal.sessions ≡ true → tz.local_date (cal.closes s) ≡ s
  pub opens_first : (s : ℕ) → mem s cal.sessions ≡ true → cal.opens s < cal.closes s
  pub is_session_lem : (s : ℕ) → cal.is_session s ≡ mem s cal.sessions
  pub date_previous :
      (d : ℕ)
      → cal.first_session ≤ d
      → d ≤ cal.last_session
      → (s : ℕ) × (cal.date_to_session_previous d ≡ ok s) × IsPrevious (λ t. mem t cal.sessions) d s
  pub date_next_lem :
      (d s : ℕ)
      → mem d cal.sessions ≡ false
      → cal.date_to_session_next d ≡ ok s
      → IsNext (λ t. mem t cal.sessions) d s
  pub date_next_some :
      (d : ℕ)
      → cal.first_session ≤ d
      → d < cal.last_session
      → (s : ℕ) × (cal.date_to_session_next d ≡ ok s)
  pub previous_some :
      (d : ℕ)
      → mem d cal.sessions ≡ true
      → cal.first_session < d
      → (s : ℕ) × (cal.previous_session d ≡ ok s)
        × (s < d)
        × IsPrevious (λ t. mem t cal.sessions) (d - 1) s
  pub next_lem :
      (d s : ℕ)
      → mem d cal.sessions ≡ true
      → cal.next_session d ≡ ok s
      → IsNext (λ t. mem t cal.sessions) d s
  pub next_some :
      (d : ℕ)
      → mem d cal.sessions ≡ true
      → d < cal.last_session
      → (s : ℕ) × (cal.next_session d ≡ ok s)

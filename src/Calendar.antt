-- ===== src/Calendar.antt =====
-- The calendar protocols: `SessionCalendar` of server/common/scheduling.py and `TradingCalendar` of
-- server/data/store/app/trading_calendar.py, with the laws that their users rely on.
-- An instant is the number of microseconds since 0001-01-01T00:00 UTC, and a date is its ordinal
-- (`date.toordinal`, from 1). `zoneinfo` is a parameter: `Zone` holds the two conversions used.
mod Bisect
pub mod Adapter
pub mod Overlap
pub mod Completed
pub mod Following
pub mod Tests
use trader_joe.Base.{ℕ, ◌+◌, ◌/◌, ◌≤◌, ◌<◌, ◌≡◌, ◌↔◌, Bool, true, Option, none, some, List, mem}
use trader_joe.Base.Raised.{Raised, ok, raise, naive_datetime, ◌>>=◌}

-- A Python datetime: one without a time zone, or an instant.
pub data DateTime : Type 0 where
  naive : ℕ → DateTime
  aware : ℕ → DateTime

-- The instant of an aware datetime; a naive one is refused (`require_aware`, `_require_aware`).
unfoldable pub require_aware : DateTime → Raised ℕ
require_aware (naive _) = raise naive_datetime
require_aware (aware t) = ok t

-- The same for an argument that may be None, which passes.
unfoldable pub require_aware? : Option DateTime → Raised (Option ℕ)
unfolding require_aware
require_aware? none = ok none
require_aware? (some d) = do t ← require_aware d; ok (some t)

abbrev pub day_us : ℕ
day_us = 86400000000

-- `instant.date()` of an instant in UTC.
unfoldable pub utc_date : ℕ → ℕ
utc_date t = t / day_us + 1

-- A `ZoneInfo`: an instant's local date, and the first instant of a local date.
pub record Zone : Type 0 where
  pub local_date : ℕ → ℕ
  pub local_midnight : ℕ → ℕ

-- What the code relies on: a local date's first instant is where the date begins, and dates follow
-- one another (no date is skipped or repeated in the zone).
pub record ZoneLaws (z : Zone) : Type 0 where
  pub midnight_iff : (d t : ℕ) → (z.local_midnight d ≤ t) ↔ (d ≤ z.local_date t)
  pub midnight_grows : (d : ℕ) → 1 ≤ d → z.local_midnight d < z.local_midnight (d + 1)

-- The part of a calendar that a schedule needs. The open and the close are asked of sessions only.
pub record SessionCalendar : Type 0 where
  pub session_open : ℕ → ℕ
  pub session_close : ℕ → ℕ
  pub next_session : ℕ → Raised ℕ
  pub last_completed_session : ℕ → Raised (Option ℕ)

pub record TradingCalendar : Type 0 where
  pub zone : Zone
  pub open zone use *
  pub schedule : SessionCalendar
  pub open schedule use *
  pub sessions_overlapping : ℕ → ℕ → Raised (List ℕ)
  pub session_in_progress : ℕ → Raised (Option ℕ)

-- The session date a bar timestamp belongs to (`session_of`).
unfoldable pub session_of : TradingCalendar → DateTime → Raised ℕ
unfolding require_aware
session_of c timestamp = do t ← require_aware timestamp; ok (c.local_date t)

-- `s` is the first session strictly after `d`.
pub record IsNext (session : ℕ → Bool) (d s : ℕ) : Type 0 where
  pub listed : session s ≡ true
  pub after : d < s
  pub least : (t : ℕ) → session t ≡ true → d < t → s ≤ t

-- `s` is the last session at or before `d`.
pub record IsPrevious (session : ℕ → Bool) (d s : ℕ) : Type 0 where
  pub listed : session s ≡ true
  pub before : s ≤ d
  pub greatest : (t : ℕ) → session t ≡ true → t ≤ d → t ≤ s

-- `r` is the latest session whose close is at or before `now`, or none if there is none.
abbrev pub IsCompleted : SessionCalendar → (ℕ → Bool) → ℕ → Option ℕ → Type 0
IsCompleted c session now none = (t : ℕ) → session t ≡ true → now < c.session_close t
IsCompleted c session now (some s) =
    (session s ≡ true)
    × (c.session_close s ≤ now)
    × ((t : ℕ) → session t ≡ true → c.session_close t ≤ now → t ≤ s)

-- What a schedule relies on.
pub record SessionLaws (c : SessionCalendar) (session : ℕ → Bool) : Type 0 where
  pub opens_first : (s : ℕ) → session s ≡ true → c.session_open s < c.session_close s
  pub in_order :
      (s t : ℕ) → session s ≡ true → session t ≡ true → s < t → c.session_close s ≤ c.session_open t
  pub next_lem : (d s : ℕ) → c.next_session d ≡ ok s → IsNext session d s
  pub completed_lem :
      (now : ℕ) (r : Option ℕ) → c.last_completed_session now ≡ ok r → IsCompleted c session now r

-- ===== src/Market.antt =====
-- The enumerations of server/common/enums/data_stock.py that the rules branch on.
use trader_joe.Base.{ℕ, ◌*◌}
use trader_joe.Calendar.{day_us}

pub data Granularity : Type 0 where
  one_minute five_minutes thirty_minutes one_hour one_day one_week one_month : Granularity

abbrev pub minute_us : ℕ
minute_us = 60000000

-- `Granularity.offset`; a month counts as four weeks.
unfoldable pub offset : Granularity → ℕ
offset one_minute = minute_us
offset five_minutes = 5 * minute_us
offset thirty_minutes = 30 * minute_us
offset one_hour = 60 * minute_us
offset one_day = day_us
offset one_week = 7 * day_us
offset one_month = 4 * (7 * day_us)

pub data UpdateType : Type 0 where
  static daily stream : UpdateType

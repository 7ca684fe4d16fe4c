-- ===== src/Health.antt =====
-- server/data/store/app/health.py: the freshness of DAILY and STREAM datasets, and the completeness of STATIC ones.
-- The environment is read by the caller and passed in as the configuration.
pub mod Laws
mod Tests
use trader_joe.Base.{
  ℕ, zero, suc, ◌+◌, ◌-◌, ◌*◌, Bool, true, false, not, ◌&&◌, ◌||◌, Option, none, some, List, [],
  ◌∷◌, map, min, ltb, leb, ◌==◌, if◌then◌else◌, length, get_last?, filter,
}
use trader_joe.Base.Raised.{Raised, ok, raise, value_error, ◌>>=◌}
use trader_joe.Base.Delta.{ℤ, pos, negsuc}
use trader_joe.Calendar.{DateTime, require_aware, require_aware?, TradingCalendar}
use trader_joe.Market.{Granularity, offset, UpdateType, static, daily, stream}
use trader_joe.Completeness.{
  CompletenessStatus, complete, gaps, CompletenessResult, period_start, next_period_start, Expected,
  judged, assess_completeness,
}

pub data FreshnessStatus : Type 0 where
  fresh late overdue static_complete static_gaps retired : FreshnessStatus

abbrev pub is_failing : FreshnessStatus → Bool
is_failing overdue = true
is_failing static_gaps = true
is_failing _ = false

abbrev pub from_completeness : CompletenessStatus → FreshnessStatus
from_completeness complete = static_complete
from_completeness gaps = static_gaps

pub record FreshnessConfig : Type 0 where
  pub stream_bar_multiple : ℕ
  pub settle_margin : ℕ

unfoldable pub freshness_config : ℤ → ℤ → Raised FreshnessConfig
freshness_config (negsuc _) margin = raise value_error
freshness_config (pos zero) margin = raise value_error
freshness_config (pos (suc multiple)) (negsuc _) = raise value_error
freshness_config (pos (suc multiple)) (pos margin) =
    ok (record { stream_bar_multiple = suc multiple; settle_margin = margin })

-- An expected last bar that is before the epoch of the clock is counted as its very start.
pub record DatasetHealth : Type 0 where
  pub status : FreshnessStatus
  pub expected_last_session : Option ℕ
  pub expected_last_bar : Option ℕ
  pub gap_count : ℕ

abbrev pub health_of : FreshnessStatus → Option ℕ → Option ℕ → DatasetHealth
health_of status session bar = record {
  status = status;
  expected_last_session = session;
  expected_last_bar = bar;
  gap_count = 0;
}

abbrev pub is_failure : DatasetHealth → Bool
is_failure h = is_failing h.status

abbrev pub is_stopped : Option Bool → UpdateType → Bool
is_stopped (some false) daily = true
is_stopped (some false) stream = true
is_stopped _ _ = false

module _ (c : TradingCalendar) where
  open c use {
    local_date, local_midnight, session_open, session_close, next_session, sessions_overlapping,
  }

  abbrev pub close_of : Option ℕ → Option ℕ
  close_of none = none
  close_of (some s) = some (session_close s)

  -- `bar_period_close`, of an aware bar.
  unfoldable pub bar_period_close : ℕ → Granularity → Raised (Option ℕ)
  bar_period_close bar g = do
    let period = period_start (local_date bar) g
    sessions ←
        sessions_overlapping (local_midnight period) (local_midnight (next_period_start period g))
    ok (close_of (get_last? sessions))

  abbrev pub before_settled : ℕ → ℕ → Option ℕ → Bool
  before_settled written margin none = false
  before_settled written margin (some closes) = ltb written (closes + margin)

  unfoldable pub last_bar_is_provisional : Option ℕ → Option ℕ → Granularity → ℕ → Raised Bool
  unfolding bar_period_close
  last_bar_is_provisional none written g margin = ok false
  last_bar_is_provisional (some bar) none g margin = ok false
  last_bar_is_provisional (some bar) (some written) g margin = do
    closes ← bar_period_close bar g
    ok (before_settled written margin closes)

  -- `list(dict.fromkeys(...))`: each period once, where it first stands.
  unfoldable pub distinct : List ℕ → List ℕ
  distinct [] = []
  distinct (p ∷ ps) = p ∷ filter (λ q. not (q == p)) (distinct ps)

  abbrev pub last_period_of : Option ℕ → Granularity → Option ℕ
  last_period_of none g = none
  last_period_of (some bar) g = some (period_start (local_date bar) g)

  abbrev pub is_period : Option ℕ → ℕ → Bool
  is_period none expected = false
  is_period (some period) expected = period == expected

  abbrev pub reaches : Option ℕ → ℕ → Bool
  reaches none expected = false
  reaches (some period) expected = leb expected period

  -- The first period that is not stored.
  unfoldable pub first_missed : Bool → Option ℕ → ℕ → ℕ → Granularity → Raised ℕ
  first_missed true last_period first expected g = ok expected
  first_missed false none first expected g = ok first
  first_missed false (some period) first expected g = do
    after_last ← next_session (next_period_start period g - 1)
    ok (min expected (period_start after_last g))

  -- Late until the first session after the missed period opens.
  unfoldable pub by_deadline : ℕ → ℕ → ℕ → Granularity → Raised DatasetHealth
  by_deadline missed expected now g = do
    following ← next_session (next_period_start missed g - 1)
    let status = if ltb now (session_open following) then late else overdue
    ok (health_of status (some expected) (some (local_midnight expected)))

  unfoldable pub judge_last : Bool → Option ℕ → ℕ → ℕ → ℕ → Granularity → Raised DatasetHealth
  unfolding first_missed by_deadline
  judge_last provisional last_period first expected now g =
      if reaches last_period expected && not provisional
      then ok (health_of fresh (some expected) (some (local_midnight expected)))
      else (first_missed provisional last_period first expected g >>= λ missed.
          by_deadline missed expected now g)

  -- Whether the newest bar is asked about at all: only if it is of the expected period.
  unfoldable pub is_provisional : Option ℕ → Option ℕ → ℕ → Granularity → ℕ → Raised Bool
  unfolding last_bar_is_provisional
  is_provisional last_bar written expected g margin =
      if is_period (last_period_of last_bar g) expected
      then last_bar_is_provisional last_bar written g margin
      else ok false

  abbrev pub final_of : ℕ → List ℕ → ℕ
  final_of first [] = first
  final_of first (p ∷ ps) = final_of p ps

  unfoldable pub judge_owed :
      List ℕ → Option ℕ → Option ℕ → ℕ → Granularity → ℕ → Raised DatasetHealth
  unfolding is_provisional judge_last
  judge_owed [] last_bar written now g margin = ok (health_of fresh none none)
  judge_owed (first ∷ others) last_bar written now g margin = do
    let expected = final_of first others
    provisional ← is_provisional last_bar written expected g margin
    judge_last provisional (last_period_of last_bar g) first expected now g

  unfoldable pub judge_daily :
      ℕ → ℕ → Option ℕ → ℕ → Granularity → Option ℕ → ℕ → Raised DatasetHealth
  unfolding judge_owed distinct judged
  judge_daily start end last_bar now g written margin = do
    walked ← judged c start (min end now) now g
    judge_owed (distinct (map (λ e. e.1) walked.1)) last_bar written now g margin

  abbrev pub holds_since : Option ℕ → ℕ → Bool
  holds_since none threshold = false
  holds_since (some bar) threshold = leb threshold bar

  abbrev pub against : Option ℕ → ℕ → DatasetHealth
  against last_bar threshold =
      health_of (if holds_since last_bar threshold then fresh else overdue) none (some threshold)

  unfoldable pub judge_closed : Option ℕ → Granularity → Option ℕ → DatasetHealth
  unfolding offset
  judge_closed last_bar g none = health_of fresh none none
  judge_closed last_bar g (some previous) = against last_bar (session_close previous - offset g)

  unfoldable pub judge_stream : Option ℕ → Granularity → ℕ → FreshnessConfig → Raised DatasetHealth
  unfolding judge_closed offset
  judge_stream last_bar g now config = do
    session ← c.session_in_progress now
    elim session [
      | some _ ↦ ok (against last_bar (now - config.stream_bar_multiple * offset g))
      | none ↦ (c.last_completed_session now >>= λ previous. ok (judge_closed last_bar g previous))
    ]

  unfoldable pub judge_static : ℕ → ℕ → List ℕ → Granularity → ℕ → Raised DatasetHealth
  unfolding assess_completeness
  judge_static start end covered g now = do
    result ← assess_completeness c start end covered g now
    ok (record (health_of (from_completeness result.status) none none) {
      gap_count = result.gap_count;
    })

-- The arguments of `evaluate_dataset` that describe the dataset.
pub record Dataset : Type 0 where
  pub update_type : UpdateType
  pub granularity : Granularity
  pub collect : Option Bool
  pub start : DateTime
  pub end : DateTime
  pub last_bar : Option DateTime
  pub covered : List ℕ
  pub last_bar_written_at : Option DateTime

abbrev pub default_config : FreshnessConfig
default_config = record { stream_bar_multiple = 3; settle_margin = 1800000000 }

-- With the instants that `require_aware` has let through.
pub record Instants : Type 0 where
  pub start : ℕ
  pub end : ℕ
  pub last_bar : Option ℕ
  pub now : ℕ
  pub written : Option ℕ

unfoldable pub instants_of : Dataset → DateTime → Raised Instants
unfolding require_aware require_aware?
instants_of d now = do
  start ← require_aware d.start
  end ← require_aware d.end
  last_bar ← require_aware? d.last_bar
  t ← require_aware now
  written ← require_aware? d.last_bar_written_at
  ok (record { start = start; end = end; last_bar = last_bar; now = t; written = written })

module _ (c : TradingCalendar) where
  unfoldable pub judge_by_type :
      UpdateType → Granularity → List ℕ → FreshnessConfig → Instants → Raised DatasetHealth
  unfolding judge_static judge_daily judge_stream
  judge_by_type static g covered config i = judge_static c i.start i.end covered g i.now
  judge_by_type daily g covered config i =
      judge_daily c i.start i.end i.last_bar i.now g i.written config.settle_margin
  judge_by_type stream g covered config i = judge_stream c i.last_bar g i.now config

  unfoldable pub evaluate_dataset : Dataset → DateTime → FreshnessConfig → Raised DatasetHealth
  unfolding instants_of judge_by_type
  evaluate_dataset d now config = do
    i ← instants_of d now
    if is_stopped d.collect d.update_type
        then ok (health_of retired none none)
        else judge_by_type d.update_type d.granularity d.covered config i

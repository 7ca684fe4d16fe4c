-- ===== src/Refresh.antt =====
-- server/data/store/app/daily_refresh.py: one pass of the DAILY refresh: which datasets are behind, which of them are
-- requested and in what order. The rows and the runs are what the database answers, with
-- aware instants.
pub mod Plan
pub mod Requests
pub mod Counts
mod Tests
use trader_joe.Base.{
  ℕ, zero, suc, ◌+◌, ◌-◌, ◌*◌, ◌/◌, ◌^◌, Bool, true, false, not, ◌&&◌, ◌||◌, Option, none, some,
  List, [], ◌∷◌, ◌++◌, max, min, ltb, leb, ◌==◌, if◌then◌else◌, length, take, mem,
}
use trader_joe.Base.Raised.{Exn, calendar_range, Raised, ok, raise, ◌>>=◌}
use trader_joe.Calendar.{aware, TradingCalendar}
use trader_joe.Market.{Granularity, offset, daily}
use trader_joe.Health.{
  FreshnessStatus, late, overdue, FreshnessConfig, DatasetHealth, Dataset, evaluate_dataset,
  last_bar_is_provisional,
}

-- What a request is recognised by when its run never learned a dataset id. The fields are codes.
pub record RequestKey : Type 0 where
  pub asset_symbol : ℕ
  pub asset_type : ℕ
  pub data_type : ℕ
  pub granularity_code : ℕ

-- A DAILY row of the catalog. `is_valid` says whether it still validates as a request.
pub record CatalogRow : Type 0 where
  pub id : ℕ
  pub key : RequestKey
  pub granularity : Granularity
  pub collect : Option Bool
  pub start : ℕ
  pub end : Option ℕ
  pub last_bar : Option ℕ
  pub last_bar_written_at : Option ℕ
  pub is_valid : Bool

pub data RunState : Type 0 where
  empty failed succeeded : RunState

-- A finished scheduled run. `is_refusal` says that its error is typed, with a reason that no retry cures.
pub record RunRecord : Type 0 where
  pub dataset_id : Option ℕ
  pub request : RequestKey
  pub requested_start : Option ℕ
  pub state : RunState
  pub is_refusal : Bool
  pub started_at : ℕ
  pub finished_at : Option ℕ

abbrev pub is_some_eq : Option ℕ → ℕ → Bool
is_some_eq none n = false
is_some_eq (some m) n = m == n

abbrev pub or_else : Option ℕ → ℕ → ℕ
or_else none n = n
or_else (some m) n = m

-- `effective_end` of server/data/store/app/dataset_catalog.py
unfoldable pub effective_end : CatalogRow → ℕ → ℕ
effective_end row now = or_else row.end (max now (row.start + 1))

-- `is_retired` of the same file, of a DAILY row
abbrev pub is_retired : CatalogRow → Bool
is_retired row = elim row.collect [ none ↦ false | some collect ↦ not collect ]

abbrev pub aware? : Option ℕ → Option trader_joe.Calendar.DateTime
aware? none = none
aware? (some t) = some (aware t)

abbrev pub is_behind : FreshnessStatus → Bool
is_behind late = true
is_behind overdue = true
is_behind _ = false

abbrev pub keep_if : Bool → CatalogRow → List CatalogRow → List CatalogRow
keep_if true row rows = row ∷ rows
keep_if false row rows = rows

-- A row that the calendar does not cover is passed over; any other error is raised.
abbrev pub judged_row :
    Raised DatasetHealth → CatalogRow → Raised (List CatalogRow) → Raised (List CatalogRow)
judged_row (ok health) row rest = (rest >>= λ rows. ok (keep_if (is_behind health.status) row rows))
judged_row (raise calendar_range) row rest = rest
judged_row (raise e) row rest = raise e

module _ (c : TradingCalendar) (config : FreshnessConfig) where
  abbrev pub described : CatalogRow → ℕ → Dataset
  described row now = record {
    update_type = daily;
    granularity = row.granularity;
    collect = row.collect;
    start = aware row.start;
    end = aware (effective_end row now);
    last_bar = aware? row.last_bar;
    covered = [];
    last_bar_written_at = aware? row.last_bar_written_at;
  }

  -- The loop of `_behind`. Its sort is left out: the plan sorts by an order that no two rows share a place in.
  unfoldable pub behind : List ℕ → ℕ → List CatalogRow → Raised (List CatalogRow)
  unfolding evaluate_dataset effective_end
  behind running now [] = ok []
  behind running now (row ∷ rows) =
      let rest = behind running now rows in
      if is_retired row || mem row.id running
      then rest
      else judged_row (evaluate_dataset c (described row now) (aware now) config) row rest

  unfoldable pub fetch_start_at : Option ℕ → CatalogRow → Raised ℕ
  unfolding last_bar_is_provisional offset
  fetch_start_at none row = ok row.start
  fetch_start_at (some bar) row = do
    provisional ←
        last_bar_is_provisional c (some bar) row.last_bar_written_at row.granularity
          config.settle_margin
    ok (if provisional then bar else bar + offset row.granularity)

  unfoldable pub fetch_start : CatalogRow → Raised ℕ
  unfolding fetch_start_at
  fetch_start row = fetch_start_at row.last_bar row

  -- Where each row's request starts.
  unfoldable pub fetch_starts : List CatalogRow → Raised (List (CatalogRow × ℕ))
  unfolding fetch_start
  fetch_starts [] = ok []
  fetch_starts (row ∷ rows) = do
    start ← fetch_start row
    rest ← fetch_starts rows
    ok ((row, start) ∷ rest)

pub record Planned : Type 0 where
  pub row : CatalogRow
  pub fetch_start : ℕ
  pub last_attempt : Option RunRecord

abbrev pub same_key : RequestKey → RequestKey → Bool
same_key a b =
    (a.asset_symbol == b.asset_symbol)
    && (a.asset_type == b.asset_type)
    && (a.data_type == b.data_type)
    && (a.granularity_code == b.granularity_code)

abbrev pub of_dataset : ℕ → RunRecord → Bool
of_dataset id run = is_some_eq run.dataset_id id

abbrev pub has_no_dataset : RunRecord → Bool
has_no_dataset run = elim run.dataset_id [ none ↦ true | some _ ↦ false ]

abbrev pub of_request : RequestKey → ℕ → RunRecord → Bool
of_request key start run =
    has_no_dataset run && same_key run.request key && is_some_eq run.requested_start start

-- The history is ascending: a later run replaces an earlier one.
abbrev pub latest : (RunRecord → Bool) → List RunRecord → Option RunRecord
latest p [] = none
latest p (run ∷ runs) =
    let rest = latest p runs in
    elim rest [ some later ↦ some later | none ↦ if p run then some run else none ]

-- `max` by the start, the first of equals.
abbrev pub later_attempt : Option RunRecord → Option RunRecord → Option RunRecord
later_attempt none b = b
later_attempt (some a) none = some a
later_attempt (some a) (some b) = if leb b.started_at a.started_at then some a else some b

abbrev pub last_attempt_of : List RunRecord → CatalogRow → ℕ → Option RunRecord
last_attempt_of history row start =
    later_attempt (latest (of_dataset row.id) history) (latest (of_request row.key start) history)

abbrev pub ended_badly : RunRecord → Bool
ended_badly run = elim run.state [ empty ↦ true | failed ↦ run.is_refusal | succeeded ↦ false ]

-- `_unproductive`
unfoldable pub is_unproductive : RunRecord → ℕ → Bool
is_unproductive run start = is_some_eq run.requested_start start && ended_badly run

abbrev pub at_or_after : Option ℕ → Option ℕ → Bool
at_or_after (some finished) (some close) = leb close finished
at_or_after _ _ = false

pub data Choice : Type 0 where
  productive again skip : Choice

-- Which list a dataset goes to, by its last attempt and the last close.
unfoldable pub choose : Option RunRecord → ℕ → Option ℕ → Choice
unfolding is_unproductive
choose none start last_close = productive
choose (some run) start last_close =
    if not (is_unproductive run start)
    then productive
    else if at_or_after run.finished_at last_close
    then skip
    else again

pub record Due : Type 0 where
  pub productive : List Planned
  pub again : List Planned
  pub skipped : ℕ

abbrev pub put : Choice → Planned → Due → Due
put productive p d = record d { productive = p ∷ d.productive }
put again p d = record d { again = p ∷ d.again }
put skip p d = record d { skipped = d.skipped + 1 }

abbrev pub planned_of : List RunRecord → CatalogRow → ℕ → Planned
planned_of history row start = record {
  row = row;
  fetch_start = start;
  last_attempt = last_attempt_of history row start;
}

-- The loop of `_plan`. A row that no longer validates is never sent.
unfoldable pub split : List RunRecord → Option ℕ → List (CatalogRow × ℕ) → Due
unfolding choose
split history last_close [] = record { productive = []; again = []; skipped = 0 }
split history last_close ((row, start) ∷ rows) =
    let rest = split history last_close rows in
    let planned = planned_of history row start in
    put (if row.is_valid then choose planned.last_attempt start last_close else skip) planned rest

abbrev pub is_attempted : Option RunRecord → ℕ
is_attempted none = 0
is_attempted (some _) = 1

abbrev pub started_of : Option RunRecord → ℕ
started_of none = 0
started_of (some run) = run.started_at

abbrev pub newest_of : CatalogRow → ℕ
newest_of row = or_else row.last_bar row.start

-- `Planned.order`, compared as a tuple: a key before the next one.
abbrev pub before_or : ℕ → ℕ → Bool → Bool
before_or a b next = ltb a b || ((a == b) && next)

unfoldable pub precedes : Planned → Planned → Bool
precedes p q = before_or (is_attempted p.last_attempt) (is_attempted q.last_attempt) (
    before_or (started_of p.last_attempt) (started_of q.last_attempt)
      (before_or (newest_of p.row) (newest_of q.row) (leb p.row.id q.row.id)))

abbrev pub insert_planned : Planned → List Planned → List Planned
insert_planned p [] = p ∷ []
insert_planned p (q ∷ qs) =
    let rest = insert_planned p qs in if precedes p q then p ∷ q ∷ qs else q ∷ rest

unfoldable pub in_order : List Planned → List Planned
unfolding precedes
in_order [] = []
in_order (p ∷ ps) = insert_planned p (in_order ps)

unfoldable pub plan : List RunRecord → Option ℕ → List (CatalogRow × ℕ) → Due
unfolding split in_order
plan history last_close rows =
    let d = split history last_close rows in
    record { productive = in_order d.productive; again = in_order d.again; skipped = d.skipped }

-- `_take`: those due again hold at most half the cap while there are others.
unfoldable pub take_batch : List Planned → List Planned → ℕ → List Planned
take_batch others repeats at_most =
    let reserved = min (length repeats) (at_most / 2) in
    let first = take (at_most - reserved) others in first ++ take (at_most - length first) repeats

-- ===== src/Refresh/Tests.antt =====
-- Short passes: a batch of three, and a vendor that fails.
use trader_joe.Base.{
  ℕ, ◌+◌, ◌-◌, ◌/◌, ◌≤◌, ◌≡◌, refl, true, false, none, some, List, [], ◌∷◌, ◌++◌, min, length, take,
}
use trader_joe.Market.{one_day}
use trader_joe.Refresh.{
  RequestKey, CatalogRow, empty, RunRecord, Planned, plan, split, choose, is_unproductive, in_order,
  precedes, take_batch,
}
use trader_joe.Refresh.Requests.{Answer, stored, failed_now, request_all, refresh_pass}
use trader_joe.Refresh.Plan.{take_batch-is_fair}
use trader_joe.Refresh.Counts.{accounted, accounted-refresh_pass}

abbrev a_key : RequestKey
a_key = record { asset_symbol = 1; asset_type = 1; data_type = 1; granularity_code = 5 }

abbrev row : ℕ → CatalogRow
row id = record {
  id = id;
  key = a_key;
  granularity = one_day;
  collect = some true;
  start = 100;
  end = none;
  last_bar = some (1000 - id);
  last_bar_written_at = none;
  is_valid = true;
}

-- The last run of dataset 7 came back empty before the last close, that of dataset 8 after it.
abbrev run_of : ℕ → ℕ → RunRecord
run_of id finished = record {
  dataset_id = some id;
  request = a_key;
  requested_start = some 500;
  state = empty;
  is_refusal = false;
  started_at = 10;
  finished_at = some finished;
}

abbrev owed : List (CatalogRow × ℕ)
owed = (row 5, 500) ∷ (row 6, 500) ∷ (row 7, 500) ∷ (row 8, 500) ∷ []

abbrev history : List RunRecord
history = run_of 7 20 ∷ run_of 8 40 ∷ []

abbrev all_stored : Planned → Answer
all_stored p = stored

abbrev all_fail : Planned → Answer
all_fail p = failed_now false

program : Unit {0}
unfolding refresh_pass plan split choose is_unproductive in_order precedes take_batch request_all
program = tt

two_of_three : (refresh_pass all_stored 30 2 history (some 30) owed).result ≡ record {
  behind = 4;
  refreshed = 2;
  failed = 0;
  deferred = 1;
  refused = 0;
  skipped = 1;
  discarded = 0;
}
unfolding program
two_of_three = refl

backoffs : (refresh_pass all_fail 30 10 [] none owed).sleeps ≡ 30 ∷ 60 ∷ []
unfolding program
backoffs = refl

accounted-refresh_pass_example :
    accounted (refresh_pass all_fail 30 2 history (some 30) owed).result
      + (refresh_pass all_fail 30 2 history (some 30) owed).result.skipped
    ≡ 4
accounted-refresh_pass_example = accounted-refresh_pass all_fail 30 2 history (some 30) owed

abbrev batch : List Planned
batch =
    record { row = row 5; fetch_start = 500; last_attempt = none }
    ∷ record { row = row 6; fetch_start = 500; last_attempt = none }
    ∷ record { row = row 7; fetch_start = 500; last_attempt = none }
    ∷ record { row = row 8; fetch_start = 500; last_attempt = none }
    ∷ []

take_batch-is_fair_example :
    (m : ℕ) × (n : ℕ) × (take_batch batch batch 5 ≡ take m batch ++ take n batch)
    × (length (take_batch batch batch 5) ≡ min 5 (4 + 4))
    × (min 4 (5 - 5 / 2) ≤ length (take m batch))
    × (min 4 (5 / 2) ≤ length (take n batch))
take_batch-is_fair_example = take_batch-is_fair batch batch 5

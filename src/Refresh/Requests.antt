-- ===== src/Refresh/Requests.antt =====
-- DailyRefresher.run_pass of server/data/store/app/daily_refresh.py: the loop of requests over the batch, with its
-- counts, its stops and the waits between failures.
use trader_joe.Base.{
  ℕ, ◌+◌, ◌-◌, ◌*◌, ◌^◌, Bool, ◌||◌, Option, List, [], ◌∷◌, min, leb, if◌then◌else◌, length,
}
use trader_joe.Refresh.{CatalogRow, RunRecord, Planned, plan, take_batch}

-- What a request comes to: stored, dropped because the dataset was retired meanwhile, refused for good, or failed.
pub data Answer : Type 0 where
  stored : Answer
  dropped : Answer
  refused_for_good : Answer
  failed_now : (names_reset : Bool) → Answer

pub record PassResult : Type 0 where
  pub behind : ℕ
  pub refreshed : ℕ
  pub failed : ℕ
  pub deferred : ℕ
  pub refused : ℕ
  pub skipped : ℕ
  pub discarded : ℕ

abbrev pub nothing_done : PassResult
nothing_done = record {
  behind = 0;
  refreshed = 0;
  failed = 0;
  deferred = 0;
  refused = 0;
  skipped = 0;
  discarded = 0;
}

abbrev pub max_consecutive_failures : ℕ
max_consecutive_failures = 3

abbrev pub backoff_cap_seconds : ℕ
backoff_cap_seconds = 600

abbrev pub backoff : ℕ → ℕ → ℕ
backoff base consecutive = min (base * 2 ^ (consecutive - 1)) backoff_cap_seconds

-- The counts of the loop, and the seconds slept.
pub record Requested : Type 0 where
  pub result : PassResult
  pub sleeps : List ℕ

abbrev pub idle : Requested
idle = record { result = nothing_done; sleeps = [] }

-- The rest of the batch, with what this request comes to.
abbrev pub one_refreshed : Requested → Requested
one_refreshed rest = record rest {
  result = record rest.result { refreshed = rest.result.refreshed + 1 };
}

abbrev pub one_discarded : Requested → Requested
one_discarded rest = record rest {
  result = record rest.result { discarded = rest.result.discarded + 1 };
}

abbrev pub one_refused : Requested → Requested
one_refused rest = record rest { result = record rest.result { refused = rest.result.refused + 1 } }

abbrev pub one_failed : ℕ → Requested → Requested
one_failed seconds rest = record {
  result = record rest.result { failed = rest.result.failed + 1 };
  sleeps = seconds ∷ rest.sleeps;
}

abbrev pub stopped : ℕ → Requested
stopped left = record { result = record nothing_done { failed = 1; deferred = left }; sleeps = [] }

-- The loop of `run_pass` over the batch, by the failures in a row so far.
unfoldable pub request_all : (Planned → Answer) → ℕ → ℕ → List Planned → Requested
request_all answer base consecutive [] = idle
request_all answer base consecutive (p ∷ ps) =
    let fresh_start = request_all answer base 0 ps in
    let same_start = request_all answer base consecutive ps in
    let after_failure = request_all answer base (consecutive + 1) ps in
    elim (answer p) [
      | stored ↦ one_refreshed fresh_start
      | dropped ↦ one_discarded fresh_start
      | refused_for_good ↦ one_refused same_start
      | failed_now names_reset ↦
          if names_reset || leb max_consecutive_failures (consecutive + 1)
          then stopped (length ps)
          else one_failed (backoff base (consecutive + 1)) after_failure
    ]

-- A pass over the datasets that are owed, oldest newest bar first, with where each request starts.
unfoldable pub refresh_pass :
    (Planned → Answer) → ℕ → ℕ → List RunRecord → Option ℕ → List (CatalogRow × ℕ) → Requested
unfolding plan take_batch request_all
refresh_pass answer base at_most history last_close owed =
    let due = plan history last_close owed in
    let batch = take_batch due.productive due.again at_most in
    let done = request_all answer base 0 batch in
    record {
      sleeps = done.sleeps;
      result = record done.result {
        behind = length owed;
        skipped = due.skipped;
        deferred = length due.productive + length due.again - length batch + done.result.deferred;
      };
    }

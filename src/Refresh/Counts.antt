-- ===== src/Refresh/Counts.antt =====
-- What a pass counts, and when it stops.
use trader_joe.Base.{
  ℕ, ◌+◌, ◌-◌, ◌≤◌, ◌<◌, ◌≡◌, refl, inl, inr, false, Option, List, [], ◌∷◌, min, arith, leb, leb→le,
  leb-false→lt, if◌then◌else◌, length, Bool-cases, All,
}
use trader_joe.Refresh.{CatalogRow, RunRecord, Planned, plan, take_batch}
use trader_joe.Refresh.Requests.{
  Answer, failed_now, PassResult, backoff, backoff_cap_seconds, max_consecutive_failures, stopped,
  one_failed, request_all, refresh_pass,
}
use trader_joe.Refresh.Plan.{size-plan, length-take_batch}

-- All that a batch comes to.
abbrev pub accounted : PassResult → ℕ
accounted r = r.refreshed + r.failed + r.deferred + r.refused + r.discarded

accounted-request_all :
    (answer : Planned → Answer) (base consecutive : ℕ) (batch : List Planned)
    → accounted (request_all answer base consecutive batch).result ≡ length batch
unfolding request_all
accounted-request_all answer base consecutive [] = refl
accounted-request_all answer base consecutive (p ∷ ps) = ground (
  arith,
  accounted-request_all answer base 0 ps,
  accounted-request_all answer base consecutive ps,
  accounted-request_all answer base (consecutive + 1) ps,
)

-- Every dataset that is behind is counted once, whatever its request comes to and wherever the pass stops: refreshed,
-- failed, deferred, refused, skipped or discarded.
pub accounted-refresh_pass :
    (answer : Planned → Answer) (base at_most : ℕ) (history : List RunRecord)
    (last_close : Option ℕ) (owed : List (CatalogRow × ℕ))
    → accounted (refresh_pass answer base at_most history last_close owed).result
        + (refresh_pass answer base at_most history last_close owed).result.skipped
      ≡ length owed
unfolding refresh_pass
accounted-refresh_pass answer base at_most history last_close owed =
    let due = plan history last_close owed in
    let batch = take_batch due.productive due.again at_most in
    omega (
      arith,
      size-plan history last_close owed,
      length-take_batch due.productive due.again at_most,
      accounted-request_all answer base 0 batch,
    )

failing_step :
    (answer : Planned → Answer) (base consecutive : ℕ) (p : Planned) (ps : List Planned)
    → answer p ≡ failed_now false
    → request_all answer base consecutive (p ∷ ps) ≡ (
        if leb max_consecutive_failures (consecutive + 1)
        then stopped (length ps)
        else one_failed
            (backoff base (consecutive + 1))
            (request_all answer base (consecutive + 1) ps))
unfolding request_all
failing_step answer base consecutive p ps e = rw (e, request_all)

failing :
    (answer : Planned → Answer) (base consecutive : ℕ) (batch : List Planned)
    → ((p : Planned) → answer p ≡ failed_now false)
    → consecutive < max_consecutive_failures
    → ((request_all answer base consecutive batch).result.failed
        ≡ min (max_consecutive_failures - consecutive) (length batch))
      × All (λ s. s ≤ backoff_cap_seconds) (request_all answer base consecutive batch).sleeps
unfolding request_all
failing answer base consecutive [] all h = (omega arith, tt)
failing answer base consecutive (p ∷ ps) all h =
    elim (Bool-cases (leb max_consecutive_failures (consecutive + 1))) [
      | inl e ↦
          rw (failing_step answer base consecutive p ps (all p), e)
            (omega (arith, h, leb→le max_consecutive_failures (consecutive + 1) e), tt)
      | inr e ↦
          let short = leb-false→lt max_consecutive_failures (consecutive + 1) e in
          let (rest, bounded) = failing answer base (consecutive + 1) ps all short in
          rw (failing_step answer base consecutive p ps (all p), e)
            (omega (arith, h, rest, short), (omega arith, bounded))
    ]

-- When every request fails for the moment and names no reset, three are made and the pass stops; the waits between
-- them are at most ten minutes each, and the rest of the batch is deferred.
pub request_all_failing :
    (answer : Planned → Answer) (base : ℕ) (batch : List Planned)
    → ((p : Planned) → answer p ≡ failed_now false)
    → ((request_all answer base 0 batch).result.failed
        ≡ min max_consecutive_failures (length batch))
      × All (λ s. s ≤ backoff_cap_seconds) (request_all answer base 0 batch).sleeps
request_all_failing answer base batch all = failing answer base 0 batch all (omega arith)

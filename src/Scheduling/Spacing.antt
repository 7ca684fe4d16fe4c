-- ===== src/Scheduling/Spacing.antt =====
-- What a run of the loop keeps, whatever the passes meet.
use trader_joe.Base.{
  ℕ, suc, ◌+◌, ◌-◌, ◌≤◌, ◌<◌, ◌≡◌, ◌≢◌, refl, inl, inr, Bool, true, false, ◌&&◌, not, Option, none,
  some, List, [], ◌∷◌, max, ltb, arith, if◌then◌else◌, length, All, ap, subst,
}
use trader_joe.Base.Raised.{ok, Raised-cases}
use trader_joe.Calendar.{DateTime, aware}
use trader_joe.Scheduling.{Every, base_of, every_next_fire, rng_steps}
use trader_joe.Scheduling.Interval.{every_next_fire_bounds}
use trader_joe.Scheduling.Loop.{
  Schedule, Loop, Pass, Report, retried, ran, Outcome, again, is_set, cleared, aware_run, run_pass,
  run_loop,
}

-- Both clocks of a pass are aware.
abbrev pub HasAwareClocks : Pass → Type 0
HasAwareClocks p = (t : ℕ) × (u : ℕ) × (p.now ≡ aware t) × (p.started ≡ aware u)

-- Whatever the job and the schedule raise, a pass of a schedule that names a fire or raises goes on.
pass_goes_on :
    (ask : Schedule) (retry_delay : ℕ) (l : Loop) (p : Pass)
    → HasAwareClocks p
    → ((draw : ℕ) (now : DateTime) (last : Option DateTime) → ask draw now last ≢ ok none)
    → (l' : Loop) × (r : Report) × (run_pass ask retry_delay l p ≡ again l' r)
unfolding run_pass
pass_goes_on ask retry_delay l p (t, u, et, eu) never =
    elim (Raised-cases (ask p.draw p.now (aware_run l.last_run))) [
      | inr (e, raised) ↦ (
        record l { wake = cleared l.wake false },
        retried retry_delay,
        ground (arith, raised, et),
      )
      | inl (none, returned) ↦ absurd (never p.draw p.now (aware_run l.last_run) returned)
      | inl (some fire, returned) ↦ (
        record { last_run = some u; wake = cleared l.wake p.set_in_job },
        ran (if ltb t fire && not (is_set l.wake) then some (fire - t) else none) u p.job_raises,
        ground (arith, returned, et, eu),
      )
    ]

run_loop-again :
    (ask : Schedule) (retry_delay : ℕ) (l l' : Loop) (p : Pass) (ps : List Pass) (r : Report)
    → run_pass ask retry_delay l p ≡ again l' r
    → run_loop ask retry_delay l (p ∷ ps) ≡ r ∷ run_loop ask retry_delay l' ps
unfolding run_loop
run_loop-again ask retry_delay l l' p ps r e = rw (e, run_loop)

-- The loop never ends by itself: with aware clocks, and a schedule that never answers None, every
-- pass is followed by the next, whatever the job and the schedule raise.
pub length-run_loop :
    (ask : Schedule) (retry_delay : ℕ) (l : Loop) (ps : List Pass)
    → All HasAwareClocks ps
    → ((draw : ℕ) (now : DateTime) (last : Option DateTime) → ask draw now last ≢ ok none)
    → length (run_loop ask retry_delay l ps) ≡ length ps
length-run_loop ask retry_delay l [] h never = unfold run_loop in refl
length-run_loop ask retry_delay l (p ∷ ps) h never =
    let (l', r, e) = pass_goes_on ask retry_delay l p h.0 never in
    rw (run_loop-again ask retry_delay l l' p ps r e)
      (ap suc (length-run_loop ask retry_delay l' ps h.1 never))

-- A run leaves the wake set exactly if it was set during the job.
run_sets_wake :
    (ask : Schedule) (retry_delay : ℕ) (l l' : Loop) (p : Pass) (b : Bool) (slept : Option ℕ)
    (at : ℕ) (failed : Bool)
    → l.wake ≡ some b
    → run_pass ask retry_delay l p ≡ again l' (ran slept at failed)
    → l'.wake ≡ some p.set_in_job
unfolding run_pass
run_sets_wake ask retry_delay l l' p b slept at failed w e = ground arith

-- A wake that is set during a run is one more run, at once, and no more: the pass that follows the
-- run does not sleep, whatever fire the schedule names, and it leaves the wake set only if it was
-- set again during its own job.
pub wake_is_one_run :
    (ask : Schedule) (retry_delay : ℕ) (l l' : Loop) (p q : Pass) (b : Bool) (slept : Option ℕ)
    (at : ℕ) (failed : Bool) (now fire started : ℕ)
    → l.wake ≡ some b
    → run_pass ask retry_delay l p ≡ again l' (ran slept at failed)
    → p.set_in_job ≡ true
    → q.now ≡ aware now
    → q.started ≡ aware started
    → ask q.draw q.now (aware_run l'.last_run) ≡ ok (some fire)
    → run_pass ask retry_delay l' q
      ≡ again
          (record { last_run = some started; wake = some q.set_in_job })
          (ran none started q.job_raises)
unfolding run_pass
wake_is_one_run ask retry_delay l l' p q b slept at failed now fire started w e s en es named =
    ground (arith, named, en, es, run_sets_wake ask retry_delay l l' p b slept at failed w e, s)

-- The starts of the runs among the reports.
abbrev pub starts : List Report → List ℕ
starts [] = []
starts (retried _ ∷ rs) = starts rs
starts (ran _ at _ ∷ rs) = at ∷ starts rs

-- Each start is at least `gap` after the one before.
abbrev pub IsSpaced : ℕ → Option ℕ → List ℕ → Type 0
IsSpaced gap last [] = Unit
IsSpaced gap none (x ∷ xs) = IsSpaced gap (some x) xs
IsSpaced gap (some last) (x ∷ xs) = (last + gap ≤ x) × IsSpaced gap (some x) xs

abbrev slept_until : ℕ → Option ℕ → ℕ
slept_until now none = now
slept_until now (some d) = now + d

-- The environment keeps its side in a pass: the clocks are aware, the random source is in range,
-- and the job starts no earlier than now, nor than the end of the sleep that was asked for.
abbrev pub Waited : ℕ → ℕ → Outcome → Type 0
Waited now started (again l' (ran slept at failed)) = slept_until now slept ≤ started
Waited now started _ = Unit

abbrev pub IsPatient : Schedule → ℕ → Loop → Pass → Type 0
IsPatient ask retry_delay l p =
    (now : ℕ) × (started : ℕ) × (p.now ≡ aware now)
    × (p.started ≡ aware started)
    × (p.draw < rng_steps)
    × Waited now started (run_pass ask retry_delay l p)

-- It keeps it in every pass that is made.
abbrev RestPatient : (Loop → Type 0) → Outcome → Type 0
RestPatient P (again l' r) = P l'
RestPatient P _ = Unit

abbrev pub ArePatient : Schedule → ℕ → List Pass → Loop → Type 0
ArePatient ask retry_delay [] l = Unit
ArePatient ask retry_delay (p ∷ ps) l =
    IsPatient ask retry_delay l p
    × RestPatient (ArePatient ask retry_delay ps) (run_pass ask retry_delay l p)

IsSpaced-of :
    (e : Every) (now fire started : ℕ) (last : Option ℕ)
    → max (base_of e now last) now ≤ fire
    → fire ≤ started
    → IsSpaced e.interval last (started ∷ [])
IsSpaced-of e now fire started none h k = tt
IsSpaced-of e now fire started (some l) h k = omega arith

-- The sleep that a pass with no wake asks for.
abbrev sleep_for : ℕ → ℕ → Option ℕ
sleep_for now fire = if ltb now fire then some (fire - now) else none

pass_runs :
    (ask : Schedule) (retry_delay : ℕ) (l : Loop) (p : Pass) (now started fire : ℕ)
    → l.wake ≡ none
    → p.now ≡ aware now
    → p.started ≡ aware started
    → ask p.draw p.now (aware_run l.last_run) ≡ ok (some fire)
    → run_pass ask retry_delay l p
      ≡ again
          (record { last_run = some started; wake = none })
          (ran (sleep_for now fire) started p.job_raises)
unfolding run_pass
pass_runs ask retry_delay l p now started fire quiet en es named =
    ground (arith, quiet, en, es, named)

-- One pass of an `Every` loop with no wake runs the job, at least an interval after the last run.
every_pass :
    (e : Every) (retry_delay : ℕ) (l : Loop) (p : Pass)
    → l.wake ≡ none
    → IsPatient (every_next_fire e) retry_delay l p
    → (at : ℕ) × (slept : Option ℕ) × (run_pass (every_next_fire e) retry_delay l p
        ≡ again (record { last_run = some at; wake = none }) (ran slept at p.job_raises))
      × IsSpaced e.interval l.last_run (at ∷ [])
every_pass e retry_delay l p quiet (now, started, en, es, draw, waits) =
    let (fire, ef, lo, hi) = every_next_fire_bounds e p.draw now l.last_run draw in
    let run =
      pass_runs (every_next_fire e) retry_delay l p now started fire quiet en es (rw en ef) in
    let waited : slept_until now (sleep_for now fire) ≤ started =
      subst (Waited now started) run waits in
    (
      started,
      sleep_for now fire,
      run,
      IsSpaced-of e now fire started l.last_run lo (until now fire started waited),
    )
  where
    until : (now fire started : ℕ) → slept_until now (sleep_for now fire) ≤ started → fire ≤ started
    until now fire started h = ground arith

-- Whatever is asked of it, an `Every` loop without a wake keeps its interval: in any run in which
-- the sleeps last as long as asked, each job starts at least an interval after the one before, also
-- after overruns and failures; and every pass runs the job.
pub run_loop-IsSpaced :
    (e : Every) (retry_delay : ℕ) (l : Loop) (ps : List Pass)
    → l.wake ≡ none
    → ArePatient (every_next_fire e) retry_delay ps l
    → IsSpaced e.interval l.last_run (starts (run_loop (every_next_fire e) retry_delay l ps))
      × (length (starts (run_loop (every_next_fire e) retry_delay l ps)) ≡ length ps)
run_loop-IsSpaced e retry_delay l [] quiet h = unfold run_loop in (nothing l.last_run, refl)
  where
    nothing : (last : Option ℕ) → IsSpaced e.interval last []
    nothing none = tt
    nothing (some _) = tt
run_loop-IsSpaced e retry_delay l (p ∷ ps) quiet h =
    let (at, slept, run, spaced) = every_pass e retry_delay l p quiet h.0 in
    let l' : Loop = record { last_run = some at; wake = none } in
    let later =
      run_loop-IsSpaced e retry_delay l' ps refl
        (subst (RestPatient (ArePatient (every_next_fire e) retry_delay ps)) run h.1) in
    rw (run_loop-again (every_next_fire e) retry_delay l l' p ps (ran slept at p.job_raises) run) (
      join l.last_run at (starts (run_loop (every_next_fire e) retry_delay l' ps)) spaced later.0,
      ap suc later.1,
    )
  where
    join :
        (last : Option ℕ) (at : ℕ) (xs : List ℕ)
        → IsSpaced e.interval last (at ∷ [])
        → IsSpaced e.interval (some at) xs
        → IsSpaced e.interval last (at ∷ xs)
    join none at xs h k = k
    join (some l) at xs h k = (h.0, k)

-- ===== src/Health/Laws.antt =====
-- What the statuses mean: which datasets read which of them, and the deadline of a DAILY dataset.
use trader_joe.Base.{
  ℕ, ◌+◌, ◌-◌, ◌*◌, ◌≤◌, ◌<◌, ◌≡◌, ◌≢◌, ◌↔◌, refl, sym, subst, ap, inl, inr, Bool, true, false, not,
  ◌&&◌, Option, none, some, List, [], ◌∷◌, map, min, arith, ltb, lt→leb-false, if◌then◌else◌,
  Bool-cases,
}
use trader_joe.Base.Raised.{Raised, ok, raise, ◌>>=◌, Raised-cases}
use trader_joe.Calendar.{DateTime, TradingCalendar}
use trader_joe.Market.{Granularity, offset, one_day, UpdateType, static, daily, stream}
use trader_joe.Completeness.{
  period_start, next_period_start, judged, assess_completeness, missing_sessions, verdict,
}
use trader_joe.Health.{
  FreshnessStatus, fresh, late, overdue, static_complete, static_gaps, retired, FreshnessConfig,
  DatasetHealth, health_of, first_missed, by_deadline, judge_last, is_provisional, judge_owed,
  judge_daily, judge_closed, judge_stream, judge_static, against, is_stopped, final_of,
  last_period_of, reaches, distinct, holds_since, from_completeness, Dataset, Instants, instants_of,
  judge_by_type, evaluate_dataset,
}

-- What a call gives if it returns.
Gives {ℓ} : {A : Type ℓ} → (A → Type 0) → Raised A → Type 0
Gives P (ok x) = P x
Gives P (raise e) = Unit

Gives-bind {ℓ κ} :
    {A : Type ℓ} {B : Type κ} (P : B → Type 0) (r : Raised A) (f : A → Raised B)
    → ((x : A) → Gives P (f x))
    → Gives P (r >>= f)
unfolding Gives
Gives-bind P (ok x) f h = h x
Gives-bind P (raise e) f h = tt

-- The statuses that the rule of an update type gives.
abbrev pub is_answer : UpdateType → FreshnessStatus → Bool
is_answer static static_complete = true
is_answer static static_gaps = true
is_answer daily fresh = true
is_answer daily late = true
is_answer daily overdue = true
is_answer stream fresh = true
is_answer stream overdue = true
is_answer _ _ = false

abbrev pub IsVerdict : UpdateType → DatasetHealth → Type 0
IsVerdict u h = (is_answer u h.status ≡ true) × ((h.status ≡ static_gaps) ↔ (0 < h.gap_count))

plain :
    (u : UpdateType) (s : FreshnessStatus) (session bar : Option ℕ)
    → is_answer u s ≡ true
    → s ≢ static_gaps
    → IsVerdict u (health_of s session bar)
plain u s session bar a n = (a, (λ e. absurd (n e), λ h. absurd (omega (arith, h))))

module _ (c : TradingCalendar) where
  open c use {session_open, next_session}

  -- A DAILY dataset of one-day bars whose newest bar is of session `p`, before the expected one, is judged by the first
  -- session it lacks: it reads LATE before the session after that one opens, and OVERDUE from then on. The calendar
  -- answers the session after `p`, which is at most the expected one, and the session after that.
  pub judge_last-deadline :
      (p first expected now missed following : ℕ)
      → p < expected
      → next_session p ≡ ok missed
      → missed ≤ expected
      → next_session missed ≡ ok following
      → judge_last c false (some p) first expected now one_day
        ≡ ok (
            health_of
              (if ltb now (session_open following) then late else overdue)
              (some expected)
              (some (c.local_midnight expected)))
  unfolding judge_last first_missed by_deadline period_start next_period_start
  judge_last-deadline p first expected now missed following early next within after =
      let same_p : p + 1 - 1 ≡ p = omega arith in
      let least : min expected missed ≡ missed = omega (arith, within) in
      let same_missed : missed + 1 - 1 ≡ missed = omega arith in
      rw (lt→leb-false p expected early, same_p, next, least, same_missed, after) refl

  by_deadline-Gives :
      (missed expected now : ℕ) (g : Granularity)
      → Gives (IsVerdict daily) (by_deadline c missed expected now g)
  unfolding by_deadline Gives
  by_deadline-Gives missed expected now g =
      Gives-bind (IsVerdict daily) (next_session (next_period_start missed g - 1)) _ (λ following.
        (elim (Bool-cases (ltb now (session_open following))) [
          | inl e ↦
              rw e (plain daily late (some expected) (some (c.local_midnight expected)) refl (cc))
          | inr e ↦
              rw e
                (plain daily overdue (some expected) (some (c.local_midnight expected)) refl (cc))
        ]))

  judge_last-Gives :
      (provisional : Bool) (last_period : Option ℕ) (first expected now : ℕ) (g : Granularity)
      → Gives (IsVerdict daily) (judge_last c provisional last_period first expected now g)
  unfolding judge_last Gives
  judge_last-Gives provisional last_period first expected now g =
      elim (Bool-cases (reaches c last_period expected && not provisional)) [
        | inl e ↦
            rw e (plain daily fresh (some expected) (some (c.local_midnight expected)) refl (cc))
        | inr e ↦ rw e (
            Gives-bind (IsVerdict daily) (first_missed c provisional last_period first expected g) _
              (λ missed. by_deadline-Gives missed expected now g))
      ]

  judge_owed-Gives :
      (owed : List ℕ) (last_bar written : Option ℕ) (now : ℕ) (g : Granularity) (margin : ℕ)
      → Gives (IsVerdict daily) (judge_owed c owed last_bar written now g margin)
  unfolding judge_owed Gives
  judge_owed-Gives [] last_bar written now g margin = plain daily fresh none none refl (cc)
  judge_owed-Gives (first ∷ others) last_bar written now g margin =
      let expected = final_of c first others in
      Gives-bind (IsVerdict daily) (is_provisional c last_bar written expected g margin) _
        (λ provisional.
          judge_last-Gives provisional (last_period_of c last_bar g) first expected now g)

  judge_daily-Gives :
      (start end : ℕ) (last_bar : Option ℕ) (now : ℕ) (g : Granularity) (written : Option ℕ)
      (margin : ℕ)
      → Gives (IsVerdict daily) (judge_daily c start end last_bar now g written margin)
  unfolding judge_daily
  judge_daily-Gives start end last_bar now g written margin =
      Gives-bind (IsVerdict daily) (judged c start (min end now) now g) _ (λ walked.
        judge_owed-Gives (distinct c (map (λ e. e.1) walked.1)) last_bar written now g margin)

  against-IsVerdict :
      (last_bar : Option ℕ) (threshold : ℕ) → IsVerdict stream (against c last_bar threshold)
  against-IsVerdict last_bar threshold = elim (Bool-cases (holds_since c last_bar threshold)) [
    | inl e ↦ rw e (plain stream fresh none (some threshold) refl (cc))
    | inr e ↦ rw e (plain stream overdue none (some threshold) refl (cc))
  ]

  judge_closed-IsVerdict :
      (last_bar : Option ℕ) (g : Granularity) (previous : Option ℕ)
      → IsVerdict stream (judge_closed c last_bar g previous)
  unfolding judge_closed
  judge_closed-IsVerdict last_bar g none = plain stream fresh none none refl (cc)
  judge_closed-IsVerdict last_bar g (some s) =
      against-IsVerdict last_bar (c.session_close s - offset g)

  judge_stream-Gives :
      (last_bar : Option ℕ) (g : Granularity) (now : ℕ) (config : FreshnessConfig)
      → Gives (IsVerdict stream) (judge_stream c last_bar g now config)
  unfolding judge_stream Gives
  judge_stream-Gives last_bar g now config =
      Gives-bind (IsVerdict stream) (c.session_in_progress now) _ by_session
    where
      by_session :
          (session : Option ℕ)
          → Gives (IsVerdict stream) (elim session [
            | some _ ↦ ok (against c last_bar (now - config.stream_bar_multiple * offset g))
            | none ↦
                (c.last_completed_session now >>= λ previous.
                ok (judge_closed c last_bar g previous))
          ])
      by_session (some s) = against-IsVerdict last_bar (now - config.stream_bar_multiple * offset g)
      by_session none =
          Gives-bind (IsVerdict stream) (c.last_completed_session now) _
            (λ previous. judge_closed-IsVerdict last_bar g previous)

  verdict-IsVerdict :
      (missing : List ℕ)
      → IsVerdict static
          (record (health_of (from_completeness (verdict missing).status) none none) {
            gap_count = (verdict missing).gap_count;
          })
  verdict-IsVerdict [] = (refl, (cc, λ h. absurd (omega (arith, h))))
  verdict-IsVerdict (s ∷ missing) = (refl, (λ e. omega arith, λ h. refl))

  judge_static-Gives :
      (start end : ℕ) (covered : List ℕ) (g : Granularity) (now : ℕ)
      → Gives (IsVerdict static) (judge_static c start end covered g now)
  unfolding judge_static assess_completeness Gives
  judge_static-Gives start end covered g now =
      elim (Raised-cases (missing_sessions c start end covered now g)) [
        | inl (missing, e) ↦ rw e (verdict-IsVerdict missing)
        | inr (x, e) ↦ rw e tt
      ]

  judge_by_type-Gives :
      (u : UpdateType) (g : Granularity) (covered : List ℕ) (config : FreshnessConfig)
      (i : Instants)
      → Gives (IsVerdict u) (judge_by_type c u g covered config i)
  unfolding judge_by_type
  judge_by_type-Gives static g covered config i = judge_static-Gives i.start i.end covered g i.now
  judge_by_type-Gives daily g covered config i =
      judge_daily-Gives i.start i.end i.last_bar i.now g i.written config.settle_margin
  judge_by_type-Gives stream g covered config i = judge_stream-Gives i.last_bar g i.now config

  -- Whatever the calendar answers, a call that returns gives a status of the dataset's update type: COMPLETE or GAPS for
  -- STATIC, FRESH, LATE or OVERDUE for DAILY, FRESH or OVERDUE for STREAM, and sessions are counted as missing exactly
  -- when it is GAPS. The dataset is not one whose collection was stopped.
  pub evaluate_dataset-IsVerdict :
      (d : Dataset) (now : DateTime) (config : FreshnessConfig) (h : DatasetHealth)
      → is_stopped d.collect d.update_type ≡ false
      → evaluate_dataset c d now config ≡ ok h
      → IsVerdict d.update_type h
  unfolding evaluate_dataset Gives
  evaluate_dataset-IsVerdict d now config h active e = elim (Raised-cases (instants_of d now)) [
    | inl (i, f) ↦
        let same : judge_by_type c d.update_type d.granularity d.covered config i ≡ ok h =
          rw (f, active) at e in
        subst (Gives (IsVerdict d.update_type)) same
          (judge_by_type-Gives d.update_type d.granularity d.covered config i)
    | inr (x, f) ↦ absurd (cc (rw f at e))
  ]

  -- A DAILY or STREAM dataset whose collection was stopped reads RETIRED whenever the call returns, whatever its bars,
  -- its range and the calendar are.
  pub evaluate_dataset-retired :
      (d : Dataset) (now : DateTime) (config : FreshnessConfig) (h : DatasetHealth)
      → is_stopped d.collect d.update_type ≡ true
      → evaluate_dataset c d now config ≡ ok h
      → h.status ≡ retired
  unfolding evaluate_dataset
  evaluate_dataset-retired d now config h stopped e = elim (Raised-cases (instants_of d now)) [
    | inl (i, f) ↦
        let same : ok (health_of retired none none) ≡ ok h = rw (f, stopped) at e in
        let answer : health_of retired none none ≡ h = cc (same) in
        ap (λ (x : DatasetHealth). x.status) (sym answer)
    | inr (x, f) ↦ absurd (cc (rw f at e))
  ]

-- ===== src/Calendar/Completed.antt =====
-- `last_completed_session` and `session_in_progress` against what they promise.
use trader_joe.Base.{
  ℕ, ◌-◌, ◌≤◌, ◌<◌, ◌≡◌, inl, inr, true, false, ◌&&◌, arith, min, some, none, Option, ltb, leb,
  ◌==◌, mem, Bool-cases, ltb-false→le, ltb→lt, leb→le, leb-false→lt, ==→eq, Bool,
}
use trader_joe.Base.Raised.{ok}
use trader_joe.Calendar.{Zone, ZoneLaws, IsPrevious, IsCompleted}
use trader_joe.Calendar.Overlap.{local_date_mono}
use trader_joe.Calendar.Adapter.{
  ExchangeCalendar, ExchangeLaws, Adapter, adapter, last_completed_session, trading_calendar,
  session_in_progress,
}

-- What `session_in_progress` promises: the session that is open at `now`, if there is one.
abbrev pub InProgress : ExchangeCalendar → ℕ → Option ℕ → Type 0
InProgress cal now none =
    (t : ℕ) → mem t cal.sessions ≡ true → ¬ ((cal.opens t ≤ now) × (now < cal.closes t))
InProgress cal now (some s) =
    (mem s cal.sessions ≡ true) × (cal.opens s ≤ now) × (now < cal.closes s)

module _ (cal : ExchangeCalendar) (z : Zone) (zl : ZoneLaws z) (laws : ExchangeLaws cal z)
    (start now : ℕ) where
  abbrev calendar : Adapter
  calendar = adapter cal z (some start)

  abbrev listed : ℕ → Bool
  listed t = mem t cal.sessions

  -- A session that has closed does not lie after today.
  closed_before : (t : ℕ) → listed t ≡ true → cal.closes t ≤ now → t ≤ z.local_date now
  closed_before t m h =
      omega (arith, laws.close_date t m, local_date_mono z zl (cal.closes t) now h)

  -- A session of an earlier date has closed.
  earlier_closed : (t : ℕ) → listed t ≡ true → t < z.local_date now → cal.closes t ≤ now
  earlier_closed t m h = elim (Bool-cases (leb (cal.closes t) now)) [
    | inl e ↦ leb→le _ _ e
    | inr e ↦ absurd (
        omega
          (arith, laws.close_date t m, leb-false→lt _ _ e, local_date_mono z zl now (cal.closes t)))
  ]

  abbrev bound : ℕ
  bound = min (z.local_date now) cal.last_session

  -- Every closed session is at or before the candidate.
  candidate_last :
      (s : ℕ) → IsPrevious listed bound s → (t : ℕ) → listed t ≡ true → cal.closes t ≤ now → t ≤ s
  candidate_last s p t m h = p.greatest t m (omega (arith, closed_before t m h, laws.bounded t m))

  candidate_completed :
      (s : ℕ)
      → IsPrevious listed bound s
      → cal.closes s ≤ now
      → (listed s ≡ true)
        × (cal.closes s ≤ now)
        × ((t : ℕ) → listed t ≡ true → cal.closes t ≤ now → t ≤ s)
  candidate_completed s p h = (p.listed, h, candidate_last s p)

  none_completed :
      (s : ℕ)
      → IsPrevious listed bound s
      → now < cal.closes s
      → s ≡ cal.first_session
      → (t : ℕ) → listed t ≡ true
      → now < cal.closes t
  none_completed s p h e t m = elim (Bool-cases (leb (cal.closes t) now)) [
    | inr o ↦ leb-false→lt _ _ o
    | inl c ↦
        let same : t ≡ s = omega (arith, candidate_last s p t m (leb→le _ _ c), laws.bounded t m) in
        let open_still : now < cal.closes t = rw same h in absurd (omega (arith, leb→le _ _ c))
  ]

  before_completed :
      (s r : ℕ)
      → IsPrevious listed bound s
      → now < cal.closes s
      → IsPrevious listed (s - 1) r
      → r < s
      → (listed r ≡ true)
        × (cal.closes r ≤ now)
        × ((t : ℕ) → listed t ≡ true → cal.closes t ≤ now → t ≤ r)
  before_completed s r p h q lt = (
    q.listed,
    earlier_closed r q.listed (omega (arith, p.before)),
    λ t m c. q.greatest t m (closer t m c),
  )
    where
      closer : (t : ℕ) → listed t ≡ true → cal.closes t ≤ now → t ≤ s - 1
      closer t m c = elim (Bool-cases (t == s)) [
        | inl e ↦
            let same : t ≡ s = ==→eq t s e in
            let c' : cal.closes s ≤ now = rw same at c in absurd (omega arith)
        | inr e ↦ let le : t ≤ s = candidate_last s p t m c in ground (arith, le)
      ]

  none_before_first :
      z.local_date now < cal.first_session → (t : ℕ) → listed t ≡ true → now < cal.closes t
  none_before_first h t m = elim (Bool-cases (leb (cal.closes t) now)) [
    | inr o ↦ leb-false→lt _ _ o
    | inl c ↦ absurd (omega (arith, closed_before t m (leb→le _ _ c), laws.bounded t m))
  ]

  -- From the candidate that the library names, the call goes on to its answer.
  from_candidate :
      (s : ℕ)
      → ltb (z.local_date now) start ≡ false
      → ltb (z.local_date now) cal.first_session ≡ false
      → cal.date_to_session_previous bound ≡ ok s
      → IsPrevious listed bound s
      → (r : Option ℕ) × (last_completed_session calendar now ≡ ok r)
        × IsCompleted (trading_calendar calendar).schedule (λ t. mem t cal.sessions) now r
  unfolding last_completed_session adapter trading_calendar
  from_candidate s e0 e1 es p = elim (Bool-cases (ltb now (cal.closes s))) [
    | inr closed ↦ (
      some s,
      rw (e0, e1, es, p.listed, closed),
      candidate_completed s p (ltb-false→le _ _ closed),
    )
    | inl open_still ↦ elim (Bool-cases (s == cal.first_session)) [
      | inl e ↦ (
        none,
        rw (e0, e1, es, p.listed, open_still, e),
        none_completed s p (ltb→lt _ _ open_still) (==→eq _ _ e),
      )
      | inr e ↦
          let above : cal.first_session < s = ground (arith, laws.bounded s p.listed) in
          let (r, er, lt, q) = laws.previous_some s p.listed above in
          (
            some r,
            rw (e0, e1, es, p.listed, open_still, e, er),
            before_completed s r p (ltb→lt _ _ open_still) q lt,
          )
    ]
  ]

  -- For an instant that the calendar covers the call returns, and the answer is the latest session
  -- that has closed at or before it, or none if no session has.
  pub last_completed_session-IsCompleted :
      start ≤ z.local_date now
      → (r : Option ℕ) × (last_completed_session calendar now ≡ ok r)
        × IsCompleted (trading_calendar calendar).schedule (λ t. mem t cal.sessions) now r
  last_completed_session-IsCompleted h =
      elim (Bool-cases (ltb (z.local_date now) cal.first_session)) [
        | inl e ↦
            (none, early e, unfold trading_calendar adapter in none_before_first (ltb→lt _ _ e))
        | inr e ↦
            let covers : (cal.first_session ≤ bound) × (bound ≤ cal.last_session) =
              omega (arith, ltb-false→le _ _ e, laws.bounded cal.first_session laws.first_listed) in
            let (s, es, p) = laws.date_previous bound covers.0 covers.1 in
            from_candidate s covered e es p
      ]
    where
      covered : ltb (z.local_date now) start ≡ false
      covered = ground arith

      early :
          ltb (z.local_date now) cal.first_session ≡ true
          → last_completed_session calendar now ≡ ok none
      early e = unfold last_completed_session adapter in rw (covered, e)

  abbrev covers : Bool
  covers = leb cal.first_session (z.local_date now) && leb (z.local_date now) cal.last_session

  -- An open session is the one of today's local date.
  open_today :
      (t : ℕ) → listed t ≡ true → cal.opens t ≤ now → now < cal.closes t → t ≡ z.local_date now
  open_today t m o c = omega (
    arith,
    laws.open_date t m,
    laws.close_date t m,
    local_date_mono z zl (cal.opens t) now o,
    local_date_mono z zl now (cal.closes t) (omega arith),
  )

  no_session_today : covers ≡ false → InProgress cal now none
  no_session_today e t m (o, c) =
      let same : t ≡ z.local_date now = open_today t m o c in ground (arith, same, laws.bounded t m)

  today :
      (s : ℕ)
      → covers ≡ true
      → cal.date_to_session_previous (z.local_date now) ≡ ok s
      → IsPrevious listed (z.local_date now) s
      → ltb (z.local_date now) start ≡ false
      → (r : Option ℕ) × (session_in_progress calendar now ≡ ok r) × InProgress cal now r
  unfolding session_in_progress adapter
  today s e es p e0 = elim (Bool-cases (leb (cal.opens s) now && ltb now (cal.closes s))) [
    | inl b ↦ (some s, rw (e0, e, es, p.listed, b), (p.listed, ground arith, ground arith))
    | inr b ↦ (none, rw (e0, e, es, p.listed, b), λ t m (o, c). closed_then t m o c b)
  ]
    where
      closed_then :
          (t : ℕ)
          → listed t ≡ true
          → cal.opens t ≤ now
          → now < cal.closes t
          → (leb (cal.opens s) now && ltb now (cal.closes s)) ≡ false
          → ⊥
      closed_then t m o c b =
          let day : t ≡ z.local_date now = open_today t m o c in
          let same : t ≡ s = omega (arith, p.greatest t m (omega arith), p.before) in
          let o' : cal.opens s ≤ now = rw same at o in
          let c' : now < cal.closes s = rw same at c in ground arith

  -- For an instant that the calendar covers the call returns, and the answer is a session that has
  -- opened and has not closed, or none if no session is open.
  pub session_in_progress_lem :
      start ≤ z.local_date now
      → (r : Option ℕ) × (session_in_progress calendar now ≡ ok r) × InProgress cal now r
  session_in_progress_lem h = elim (Bool-cases covers) [
    | inr e ↦ (none, closed e, no_session_today e)
    | inl e ↦
        let inside : (cal.first_session ≤ z.local_date now)
            × (z.local_date now ≤ cal.last_session) =
          ground arith in
        let (s, es, p) = laws.date_previous (z.local_date now) inside.0 inside.1 in
        today s e es p covered
  ]
    where
      covered : ltb (z.local_date now) start ≡ false
      covered = ground arith

      closed : covers ≡ false → session_in_progress calendar now ≡ ok none
      closed e = unfold session_in_progress adapter in rw (covered, e)

-- ===== src/Scheduling/Earliest.antt =====
-- `AfterTradingEvent.next_fire` and the fires after its floor.
use trader_joe.Base.{
  ℕ, zero, suc, ◌+◌, ◌-◌, ◌≤◌, ◌<◌, ◌≡◌, ◌≢◌, inl, inr, Bool, true, Option, none, some, max, ltb,
  leb, arith, Bool-cases, ltb→lt, ltb-false→le, leb→le, lt→ltb,
}
use trader_joe.Base.Raised.{Raised, ok, raise, runtime_error, ◌>>=◌, Raised-cases}
use trader_joe.Base.Delta.{ℤ, pos, negsuc, shift, shift_back, shift_lt_iff, shift_mono}
use trader_joe.Calendar.{aware, utc_date, SessionLaws, IsNext, IsCompleted}
use trader_joe.Scheduling.Loop.{aware_run}
use trader_joe.Scheduling.{
  TradingEvent, open_event, close_event, AfterTradingEvent, event_of, instant, scan,
  max_sessions_scanned, day_before, first_candidate, later_of, event_next_fire, fire_after,
}

-- `fire` is the earliest event + offset, over all sessions, that lies after the floor.
pub record IsEarliest (s : AfterTradingEvent) (session : ℕ → Bool) (floor fire : ℕ) : Type 0 where
  pub after : floor < fire
  pub fires : (d : ℕ) × (session d ≡ true) × (instant s d ≡ ok fire)
  pub least : (d g : ℕ) → session d ≡ true → instant s d ≡ ok g → floor < g → fire ≤ g

module _ (s : AfterTradingEvent) (session : ℕ → Bool) (laws : SessionLaws s.calendar session) where
  -- Events follow the order of their sessions.
  event_mono :
      (d e : ℕ)
      → session d ≡ true
      → session e ≡ true
      → d ≤ e
      → event_of s.calendar s.event d ≤ event_of s.calendar s.event e
  event_mono d e m n le = by_event s.event
    where
      close_lt : d < e → s.calendar.session_close d ≤ s.calendar.session_open e
      close_lt lt = laws.in_order d e m n lt

      by_event : (k : TradingEvent) → event_of s.calendar k d ≤ event_of s.calendar k e
      by_event open_event = elim (Bool-cases (ltb d e)) [
        | inl h ↦ omega (arith, close_lt (ltb→lt _ _ h), laws.opens_first d m)
        | inr h ↦ let same : d ≡ e = omega (arith, ltb-false→le _ _ h) in rw same (omega arith)
      ]
      by_event close_event = elim (Bool-cases (ltb d e)) [
        | inl h ↦ omega (arith, close_lt (ltb→lt _ _ h), laws.opens_first e n)
        | inr h ↦ let same : d ≡ e = omega (arith, ltb-false→le _ _ h) in rw same (omega arith)
      ]

  event-le-close :
      (d : ℕ) → session d ≡ true → event_of s.calendar s.event d ≤ s.calendar.session_close d
  event-le-close d m = by_event s.event
    where
      by_event : (k : TradingEvent) → event_of s.calendar k d ≤ s.calendar.session_close d
      by_event open_event = omega (arith, laws.opens_first d m)
      by_event close_event = omega arith

  open-le-event :
      (d : ℕ) → session d ≡ true → s.calendar.session_open d ≤ event_of s.calendar s.event d
  open-le-event d m = by_event s.event
    where
      by_event : (k : TradingEvent) → s.calendar.session_open d ≤ event_of s.calendar k d
      by_event open_event = omega arith
      by_event close_event = omega (arith, laws.opens_first d m)

  module _ (floor target : ℕ) (back : shift_back floor s.offset ≡ ok target) where
    -- No session before `d` has its event after the target.
    abbrev IsBehind : ℕ → Type 0
    IsBehind d = (e : ℕ) → session e ≡ true → e < d → event_of s.calendar s.event e ≤ target

    IsEarliest-here :
        (d fire : ℕ)
        → session d ≡ true
        → IsBehind d
        → instant s d ≡ ok fire
        → floor < fire
        → IsEarliest s session floor fire
    unfolding instant
    IsEarliest-here d fire m behind at lt = record {
      after = lt;
      fires = (d, m, at);
      least = λ e g n eg lg.
          later e g n eg
            ((shift_lt_iff floor target (event_of s.calendar s.event e) g s.offset back eg).0 lg);
    }
      where
        later :
            (e g : ℕ)
            → session e ≡ true
            → shift (event_of s.calendar s.event e) s.offset ≡ ok g
            → target < event_of s.calendar s.event e
            → fire ≤ g
        later e g n eg lt_e = elim (Bool-cases (ltb e d)) [
          | inl h ↦ absurd (omega (arith, behind e n (ltb→lt _ _ h)))
          | inr h ↦ shift_mono _ _ fire g s.offset at eg (event_mono d e m n (ltb-false→le _ _ h))
        ]

    -- A session whose event is not after the floor is passed by.
    IsBehind-next :
        (d fire n : ℕ)
        → session d ≡ true
        → IsBehind d
        → instant s d ≡ ok fire
        → fire ≤ floor
        → IsNext session d n
        → IsBehind n
    unfolding instant
    IsBehind-next d fire n m behind at le next e me lt = elim (Bool-cases (leb e d)) [
      | inr h ↦ absurd (ground (arith, next.least e me))
      | inl h ↦ elim (Bool-cases (leb (event_of s.calendar s.event d) target)) [
        | inl c ↦ ground (arith, event_mono e d me m)
        | inr c ↦ absurd (
            ground (
              arith,
              (shift_lt_iff floor target (event_of s.calendar s.event d) fire s.offset back at).1,
            ))
      ]
    ]

    pub scan-IsEarliest :
        (rounds d fire : ℕ)
        → session d ≡ true
        → IsBehind d
        → scan rounds s floor d ≡ ok fire
        → IsEarliest s session floor fire
    unfolding scan
    scan-IsEarliest zero d fire m behind h = absurd (cc)
    scan-IsEarliest (suc rounds) d fire m behind h = elim (Raised-cases (instant s d)) [
      | inr (e, raised) ↦ absurd (cc (rw raised at h))
      | inl (at, returned) ↦ elim (Bool-cases (ltb floor at)) [
        | inl lt ↦
            let same : at ≡ fire = cc (rw (returned, lt) at h) in
            IsEarliest-here d fire m behind (rw same at returned) (rw same at (ltb→lt _ _ lt))
        | inr no_lt ↦ elim (Raised-cases (s.calendar.next_session d)) [
          | inr (e, raised) ↦ absurd (cc (rw (returned, no_lt, raised) at h))
          | inl (n, next) ↦
              let isn = laws.next_lem d n next in
              scan-IsEarliest rounds n fire isn.listed
                (IsBehind-next d at n m behind returned (ltb-false→le _ _ no_lt) isn)
                (rw (returned, no_lt, next) at h)
        ]
      ]
    ]

    -- The first candidate: the sessions before it are behind, and it closes after the target.
    pub first_candidate_lem :
        (utc_dated : (d : ℕ) → session d ≡ true → utc_date (s.calendar.session_close d) ≤ d)
        (r : Option ℕ) (d : ℕ)
        → IsCompleted s.calendar session target r
        → first_candidate s.calendar target r ≡ ok d
        → (session d ≡ true) × IsBehind d × (target < s.calendar.session_close d)
    unfolding first_candidate
    first_candidate_lem utc_dated (some last) d (m, closed, greatest) h =
        let n = laws.next_lem last d h in (n.listed, behind n, ahead n)
      where
        behind : IsNext session last d → IsBehind d
        behind n e me lt = elim (Bool-cases (leb e last)) [
          | inl le ↦ omega (arith, event-le-close last m, event_mono e last me m (ground arith))
          | inr gt ↦ absurd (ground (arith, n.least e me))
        ]

        ahead : IsNext session last d → target < s.calendar.session_close d
        ahead n = elim (Bool-cases (ltb target (s.calendar.session_close d))) [
          | inl lt ↦ ltb→lt _ _ lt
          | inr ge ↦ absurd (omega (arith, greatest d n.listed (ltb-false→le _ _ ge), n.after))
        ]
    first_candidate_lem utc_dated none d none_closed h =
        elim (Raised-cases (day_before (utc_date target))) [
          | inr (e, raised) ↦ absurd (cc (rw raised at h))
          | inl (y, returned) ↦
              let n = laws.next_lem y d (rw returned at h) in
              (n.listed, (λ e me lt. behind y returned n e me lt), none_closed d n.listed)
        ]
      where
        yesterday : (y : ℕ) → day_before (utc_date target) ≡ ok y → y + 1 ≡ utc_date target
        yesterday y e = unfold day_before in ground arith

        behind : (y : ℕ) → day_before (utc_date target) ≡ ok y → IsNext session y d → IsBehind d
        behind y e n x mx lt = elim (Bool-cases (leb x y)) [
          | inl le ↦ absurd (
              unfold utc_date in
              omega (arith, yesterday y e, leb→le _ _ le, none_closed x mx, utc_dated x mx))
          | inr gt ↦ absurd (ground (arith, n.least x mx))
        ]

    shift-ne : (t : ℕ) (o : ℤ) → shift t o ≢ raise runtime_error
    unfolding shift
    shift-ne t (pos n) h = cc
    shift-ne t (negsuc n) h = ground arith

    -- A session whose event is after the target ends the walk.
    scan_one :
        (rounds d : ℕ)
        → target < event_of s.calendar s.event d
        → scan (suc rounds) s floor d ≢ raise runtime_error
    unfolding scan instant
    scan_one rounds d ahead h =
        elim (Raised-cases (shift (event_of s.calendar s.event d) s.offset)) [
          | inr (e, raised) ↦
              shift-ne (event_of s.calendar s.event d) s.offset (cc (raised, rw raised at h))
          | inl (at, returned) ↦
              let lt : floor < at =
                (shift_lt_iff floor target (event_of s.calendar s.event d) at s.offset back
                    returned).1
                  ahead in
              absurd (cc (rw (returned, lt→ltb _ _ lt) at h))
        ]

    -- Two rounds are enough: after a session in progress the next one opens after the target.
    scan_two :
        (rounds d : ℕ)
        → session d ≡ true
        → target < s.calendar.session_close d
        → ((x : ℕ) → s.calendar.next_session x ≢ raise runtime_error)
        → scan (suc (suc rounds)) s floor d ≢ raise runtime_error
    scan_two rounds d m ahead quiet h = elim (Raised-cases (instant s d)) [
      | inr (e, raised) ↦
          unfold instant in
          shift-ne (event_of s.calendar s.event d) s.offset
            (unfold scan in cc (raised, rw raised at h))
      | inl (at, returned) ↦ elim (Bool-cases (ltb floor at)) [
        | inl lt ↦ absurd (unfold scan in cc (rw (returned, lt) at h))
        | inr no_lt ↦ elim (Raised-cases (s.calendar.next_session d)) [
          | inr (e, raised) ↦
              quiet d (unfold scan in cc (raised, rw (returned, no_lt, raised) at h))
          | inl (n, next) ↦
              scan_one rounds n (opens_later n (laws.next_lem d n next))
                (unfold scan in rw (returned, no_lt, next) at h)
        ]
      ]
    ]
      where
        opens_later : (n : ℕ) → IsNext session d n → target < event_of s.calendar s.event n
        opens_later n next =
            omega (arith, laws.in_order d n m next.listed next.after, open-le-event n next.listed)

  first_candidate-ne :
      (target : ℕ) (r : Option ℕ)
      → ((x : ℕ) → s.calendar.next_session x ≢ raise runtime_error)
      → first_candidate s.calendar target r ≢ raise runtime_error
  unfolding first_candidate
  first_candidate-ne target none quiet h = ground (arith, quiet (utc_date target - 1))
  first_candidate-ne target (some last) quiet h = quiet last h

  shift_back-ne : (t : ℕ) (o : ℤ) → shift_back t o ≢ raise runtime_error
  unfolding shift_back
  shift_back-ne t (pos n) h = ground arith
  shift_back-ne t (negsuc n) h = cc

  module _
      (utc_dated : (d : ℕ) → session d ≡ true → utc_date (s.calendar.session_close d) ≤ d) where
    fire_after-IsEarliest :
        (floor fire : ℕ) → fire_after s floor ≡ ok (some fire) → IsEarliest s session floor fire
    unfolding fire_after
    fire_after-IsEarliest floor fire h = elim (Raised-cases (shift_back floor s.offset)) [
      | inr (e, raised) ↦ absurd (cc (rw raised at h))
      | inl (target, back) ↦ elim (Raised-cases (s.calendar.last_completed_session target)) [
        | inr (e, raised) ↦ absurd (cc (rw (back, raised) at h))
        | inl (last, completed) ↦ elim (Raised-cases (first_candidate s.calendar target last)) [
          | inr (e, raised) ↦ absurd (cc (rw (back, completed, raised) at h))
          | inl (d, first) ↦
              let (m, behind, ahead) =
                first_candidate_lem floor target back utc_dated last d
                  (laws.completed_lem target last completed) first in
              scan-IsEarliest floor target back max_sessions_scanned d fire m behind
                (named (scan max_sessions_scanned s floor d) (rw (back, completed, first) at h))
        ]
      ]
    ]
      where
        named : (r : Raised ℕ) → (r >>= λ f. ok (some f)) ≡ ok (some fire) → r ≡ ok fire
        named (ok f) e = cc
        named (raise x) e = cc

    fire_after-ne :
        (floor : ℕ)
        → ((x : ℕ) → s.calendar.next_session x ≢ raise runtime_error)
        → ((x : ℕ) → s.calendar.last_completed_session x ≢ raise runtime_error)
        → fire_after s floor ≢ raise runtime_error
    unfolding fire_after
    fire_after-ne floor quiet quiet' h = elim (Raised-cases (shift_back floor s.offset)) [
      | inr (e, raised) ↦ shift_back-ne floor s.offset (cc (raised, rw raised at h))
      | inl (target, back) ↦ elim (Raised-cases (s.calendar.last_completed_session target)) [
        | inr (e, raised) ↦ quiet' target (cc (raised, rw (back, raised) at h))
        | inl (last, completed) ↦ elim (Raised-cases (first_candidate s.calendar target last)) [
          | inr (e, raised) ↦
              first_candidate-ne target last quiet (cc (raised, rw (back, completed, raised) at h))
          | inl (d, first) ↦
              let (m, behind, ahead) =
                first_candidate_lem floor target back utc_dated last d
                  (laws.completed_lem target last completed) first in
              scan_two floor target back 6 d m ahead quiet
                (named (scan max_sessions_scanned s floor d) (rw (back, completed, first) at h))
        ]
      ]
    ]
      where
        named :
            (r : Raised ℕ)
            → (r >>= λ f. ok (some f)) ≡ raise runtime_error
            → r ≡ raise runtime_error
        named (ok f) e = cc
        named (raise x) e = cc

    -- When the schedule names a fire, it lies after now and after the last run, it is the event plus
    -- the offset of a session, and no session's event plus offset lies between. The calendar keeps
    -- the session laws, and its sessions close by the end of their UTC date.
    pub event_next_fire-IsEarliest :
        (now fire : ℕ) (last_run : Option ℕ)
        → event_next_fire s (aware now) (aware_run last_run) ≡ ok (some fire)
        → IsEarliest s session (later_of now last_run) fire
    unfolding event_next_fire
    event_next_fire-IsEarliest now fire none h = fire_after-IsEarliest now fire h
    event_next_fire-IsEarliest now fire (some l) h = fire_after-IsEarliest (max now l) fire h

    -- The bound of eight sessions on the walk never trips: RuntimeError is not raised unless the
    -- calendar raises it. The calendar keeps the session laws, and its sessions close by the end of
    -- their UTC date.
    pub event_next_fire-ne_runtime_error :
        (now : ℕ) (last_run : Option ℕ)
        → ((x : ℕ) → s.calendar.next_session x ≢ raise runtime_error)
        → ((x : ℕ) → s.calendar.last_completed_session x ≢ raise runtime_error)
        → event_next_fire s (aware now) (aware_run last_run) ≢ raise runtime_error
    unfolding event_next_fire
    event_next_fire-ne_runtime_error now none quiet quiet' h = fire_after-ne now quiet quiet' h
    event_next_fire-ne_runtime_error now (some l) quiet quiet' h =
        fire_after-ne (max now l) quiet quiet' h

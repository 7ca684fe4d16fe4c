-- ===== src/Calendar/Following.antt =====
-- The adapter, read as the protocol that the schedules use.
use trader_joe.Base.{
  ℕ, ◌≤◌, ◌<◌, ◌≡◌, inl, inr, true, false, arith, some, Option, ltb, leb, mem, Bool-cases,
  ltb-false→le, ltb→lt, leb→le, leb-false→lt, sym, ◌∙◌, subst,
}
use trader_joe.Base.Raised.{ok}
use trader_joe.Calendar.{Zone, ZoneLaws, IsNext, IsCompleted, SessionLaws}
use trader_joe.Calendar.Overlap.{local_date_mono}
use trader_joe.Calendar.Completed.{last_completed_session-IsCompleted}
use trader_joe.Calendar.Adapter.{
  ExchangeCalendar, ExchangeLaws, Adapter, adapter, last_completed_session, next_session,
  trading_calendar,
}

module _ (cal : ExchangeCalendar) (z : Zone) (zl : ZoneLaws z) (laws : ExchangeLaws cal z)
    (start : ℕ) where
  abbrev calendar : Adapter
  calendar = adapter cal z (some start)

  -- What `next_session` answers is the first session strictly after the day, be it a session or not.
  pub next_session-IsNext :
      (d s : ℕ) → next_session calendar d ≡ ok s → IsNext (λ t. mem t cal.sessions) d s
  unfolding next_session adapter
  next_session-IsNext d s h = elim (Bool-cases (ltb d start)) [
    | inl e ↦ absurd (ground arith)
    | inr e ↦ elim (Bool-cases (ltb d cal.first_session)) [
      | inl f ↦
          let same : cal.first_session ≡ s = cc (rw (e, f) at h) in
          record {
            listed = rw (← same) laws.first_listed;
            after = omega (arith, ltb→lt _ _ f);
            least = λ t m lt. omega (arith, laws.bounded t m);
          }
      | inr f ↦ elim (Bool-cases (mem d cal.sessions)) [
        | inl m ↦ laws.next_lem d s m (rw (e, f, laws.is_session_lem, m) at h)
        | inr m ↦ laws.date_next_lem d s m (rw (e, f, laws.is_session_lem, m) at h)
      ]
    ]
  ]

  -- It returns for every covered day before the last session.
  pub next_session_some :
      (d : ℕ) → start ≤ d → d < cal.last_session → (s : ℕ) × (next_session calendar d ≡ ok s)
  unfolding next_session adapter
  next_session_some d h lt = elim (Bool-cases (ltb d cal.first_session)) [
    | inl f ↦ (cal.first_session, rw (e, f))
    | inr f ↦ elim (Bool-cases (mem d cal.sessions)) [
      | inl m ↦ let (s, es) = laws.next_some d m lt in (s, rw (e, f, laws.is_session_lem, m) es)
      | inr m ↦
          let (s, es) = laws.date_next_some d (ltb-false→le _ _ f) lt in
          (s, rw (e, f, laws.is_session_lem, m) es)
    ]
  ]
    where
      e : ltb d start ≡ false
      e = ground arith

  completed :
      (now : ℕ) (r : Option ℕ)
      → last_completed_session calendar now ≡ ok r
      → IsCompleted (trading_calendar calendar).schedule (λ t. mem t cal.sessions) now r
  completed now r h = elim (Bool-cases (ltb (z.local_date now) start)) [
    | inl e ↦ absurd (refused e h)
    | inr e ↦
        let (q, eq, c) =
          last_completed_session-IsCompleted cal z zl laws start now (ltb-false→le _ _ e) in
        subst (IsCompleted (trading_calendar calendar).schedule (λ t. mem t cal.sessions) now)
          (cc (sym eq ∙ h)) c
  ]
    where
      refused : ltb (z.local_date now) start ≡ true → last_completed_session calendar now ≡ ok r → ⊥
      refused e p = unfold last_completed_session adapter in cc (rw e at p)

  in_order :
      (s t : ℕ)
      → mem s cal.sessions ≡ true
      → mem t cal.sessions ≡ true
      → s < t
      → cal.closes s ≤ cal.opens t
  in_order s t m n lt = elim (Bool-cases (leb (cal.closes s) (cal.opens t))) [
    | inl e ↦ leb→le _ _ e
    | inr e ↦ absurd (
        omega (
          arith,
          laws.close_date s m,
          laws.open_date t n,
          leb-false→lt _ _ e,
          local_date_mono z zl (cal.opens t) (cal.closes s),
        ))
  ]

  -- The adapter, read as the protocol, keeps every law that the schedules rely on: sessions open
  -- before they close and do not overlap, `next_session` answers the first session after a day, and
  -- `last_completed_session` the latest closed one.
  pub trading_calendar-SessionLaws :
      SessionLaws (trading_calendar calendar).schedule (λ t. mem t cal.sessions)
  unfolding trading_calendar adapter
  trading_calendar-SessionLaws = record {
    opens_first = laws.opens_first;
    in_order = in_order;
    next_lem = next_session-IsNext;
    completed_lem = completed;
  }

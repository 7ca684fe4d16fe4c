-- ===== src/SingleFlight/Sharing.antt =====
-- The leader of a key and the callers that attach to it.
use trader_joe.Base.{
  ℕ, ◌+◌, ◌<◌, ◌≡◌, inl, inr, refl, ◌∙◌, sym, subst, ap, Bool, true, false, not, Option, none, some,
  List, [], ◌∷◌, arith, filter, ◌==◌, ==_refl, ==→eq, All, All-map, All-zip, All-filter,
  All-filter_self, filter_same, Bool-cases,
}
use trader_joe.SingleFlight.{
  Result, Entries, SingleFlight, lookup, follower, leader, attach_or_lead, run, release, settle,
  Holds, Reachable, begin, calls, settles, is_settled,
}

-- No two entries share a key or a future.
pub Distinct : Entries → Type 0
Distinct [] = Unit
Distinct ((k, f) ∷ es) = All (λ e. ((e.0 == k) ≡ false) × ((e.1 == f) ≡ false)) es × Distinct es

pub record IsShared (s : SingleFlight) : Type 0 where
  pub same : s.executing ≡ s.in_flight
  pub distinct : Distinct s.in_flight
  pub issued : All (λ e. e.1 < s.next) s.in_flight
  pub unsettled : All (λ e. is_settled e.1 s.settled ≡ false) s.in_flight
  pub past : All (λ r. r.0 < s.next) s.settled

lookup-none : (key : ℕ) (es : Entries) → lookup key es ≡ none → All (λ e. (e.0 == key) ≡ false) es
lookup-none key [] h = tt
lookup-none key ((k, f) ∷ es) h = elim (Bool-cases (k == key)) [
  | inl e ↦ absurd (cc (rw e at h))
  | inr e ↦ (e, lookup-none key es (rw e at h))
]

lookup-Holds : (key future : ℕ) (es : Entries) → lookup key es ≡ some future → Holds key future es
lookup-Holds key future [] h = absurd (cc)
lookup-Holds key future ((k, f) ∷ es) h = elim (Bool-cases (k == key)) [
  | inl e ↦ inl (==→eq k key e, cc (rw e at h))
  | inr e ↦ inr (lookup-Holds key future es (rw e at h))
]

All-Holds :
    (P : ℕ × ℕ → Type 0) (key future : ℕ) (es : Entries)
    → All P es
    → Holds key future es
    → P (key, future)
All-Holds P key future [] all h = elim h [ ]
All-Holds P key future ((k, f) ∷ es) all (inl (e, g)) = rw (sym e, sym g) all.0
All-Holds P key future ((k, f) ∷ es) all (inr h) = All-Holds P key future es all.1 h

other : (a b : ℕ) → (a == b) ≡ false → (b == a) ≡ false
other a b h = ground (arith, h)

Holds-lookup :
    (key future : ℕ) (es : Entries)
    → Distinct es
    → Holds key future es
    → lookup key es ≡ some future
unfolding Distinct
Holds-lookup key future [] d h = elim h [ ]
Holds-lookup key future ((k, f) ∷ es) d (inl (e, g)) = rw (e, g, ==_refl key) refl
Holds-lookup key future ((k, f) ∷ es) (apart, d) (inr h) =
    let differs = (All-Holds _ key future es apart h).0 in
    rw (other key k differs) (Holds-lookup key future es d h)

both_keep :
    (k f : ℕ) (es : Entries)
    → All (λ e. ((e.0 == k) ≡ false) × ((e.1 == f) ≡ false)) es
    → filter (λ e. not (e.1 == f)) es ≡ filter (λ e. not (e.0 == k)) es
both_keep k f es apart = filter_same _ _ es (All-map agree es apart)
  where
    agree :
        (e : ℕ × ℕ) → ((e.0 == k) ≡ false) × ((e.1 == f) ≡ false) → not (e.1 == f) ≡ not (e.0 == k)
    agree e (a, b) = rw (a, b) refl

-- Released by its key, or ended by its future, the same entry goes.
same_entry :
    (key future : ℕ) (es : Entries)
    → Distinct es
    → Holds key future es
    → filter (λ e. not (e.1 == future)) es ≡ filter (λ e. not (e.0 == key)) es
unfolding Distinct
same_entry key future [] d h = elim h [ ]
same_entry key future ((k, f) ∷ es) (apart, d) (inl (e, g)) =
    subst
      (λ (x : ℕ).
        filter (λ e. not (e.1 == x)) ((k, f) ∷ es) ≡ filter (λ e. not (e.0 == key)) ((k, f) ∷ es))
      g
      (subst
        (λ (y : ℕ).
          filter (λ e. not (e.1 == f)) ((k, f) ∷ es) ≡ filter (λ e. not (e.0 == y)) ((k, f) ∷ es))
        e (rw (==_refl k, ==_refl f) (both_keep k f es apart)))
same_entry key future ((k, f) ∷ es) (apart, d) (inr h) =
    let (by_key, by_future) = All-Holds _ key future es apart h in
    rw (other key k by_key, other future f by_future)
      (ap (◌∷◌ (k, f)) (same_entry key future es d h))

Distinct-filter : (p : ℕ × ℕ → Bool) (es : Entries) → Distinct es → Distinct (filter p es)
unfolding Distinct
Distinct-filter p [] d = tt
Distinct-filter p ((k, f) ∷ es) (apart, d) = elim (Bool-cases (p (k, f))) [
  | inl e ↦ rw e (All-filter _ p es apart, Distinct-filter p es d)
  | inr e ↦ rw e (Distinct-filter p es d)
]

release-Holds :
    (key future : ℕ) (es : Entries)
    → Distinct es
    → Holds key future es
    → release es key future ≡ filter (λ e. not (e.0 == key)) es
unfolding release
release-Holds key future es d h = rw (Holds-lookup key future es d h, ==_refl future) refl

attach_or_lead-IsShared :
    (found : Option ℕ) (s : SingleFlight) (key : ℕ)
    → lookup key s.in_flight ≡ found
    → IsShared s
    → IsShared (attach_or_lead found s key).0
unfolding attach_or_lead Distinct
attach_or_lead-IsShared (some future) s key e v = v
attach_or_lead-IsShared none s key e v = record {
  same = ap (◌∷◌ (key, s.next)) v.same;
  distinct = (All-zip apart s.in_flight (lookup-none key s.in_flight e) v.issued, v.distinct);
  issued = (omega arith, All-map later s.in_flight v.issued);
  unsettled = (unused s.settled v.past, v.unsettled);
  past = All-map later_result s.settled v.past;
}
  where
    apart :
        (e : ℕ × ℕ)
        → (e.0 == key) ≡ false
        → e.1 < s.next
        → ((e.0 == key) ≡ false) × ((e.1 == s.next) ≡ false)
    apart e a b = (a, ground (arith, b))

    later : (e : ℕ × ℕ) → e.1 < s.next → e.1 < s.next + 1
    later e h = omega (arith, h)

    later_result : (r : ℕ × Result) → r.0 < s.next → r.0 < s.next + 1
    later_result r h = omega (arith, h)

    unused : (rs : List (ℕ × Result)) → All (λ r. r.0 < s.next) rs → is_settled s.next rs ≡ false
    unused [] h = refl
    unused ((f, r) ∷ rs) (h, hs) =
        let ne : (f == s.next) ≡ false = ground (arith, h) in rw ne (unused rs hs)

settle-IsShared :
    (s : SingleFlight) (key future : ℕ) (result : Result)
    → IsShared s
    → Holds key future s.in_flight
    → IsShared (settle s key future result)
unfolding settle
settle-IsShared s key future result v h = record {
  same = ap (filter stays) v.same ∙ sym gone;
  distinct = subst Distinct (sym gone) (Distinct-filter stays s.in_flight v.distinct);
  issued = subst (All is_issued) (sym gone) (All-filter is_issued stays s.in_flight v.issued);
  unsettled = subst (All is_open) (sym gone) (
      All-zip still_open (filter stays s.in_flight) (All-filter_self stays s.in_flight)
        (All-filter was_open stays s.in_flight v.unsettled));
  past = (All-Holds _ key future s.in_flight v.issued h, v.past);
}
  where
    stays : ℕ × ℕ → Bool
    stays e = not (e.1 == future)

    is_issued : ℕ × ℕ → Type 0
    is_issued e = e.1 < s.next

    was_open : ℕ × ℕ → Type 0
    was_open e = is_settled e.1 s.settled ≡ false

    is_open : ℕ × ℕ → Type 0
    is_open e = is_settled e.1 ((future, result) ∷ s.settled) ≡ false

    gone : release s.in_flight key future ≡ filter stays s.in_flight
    gone =
        release-Holds key future s.in_flight v.distinct h
        ∙ sym (same_entry key future s.in_flight v.distinct h)

    still_open : (e : ℕ × ℕ) → stays e ≡ true → was_open e → is_open e
    still_open e a b = ground (arith, a, b)

Reachable-IsShared : (s : SingleFlight) → Reachable s → IsShared s
unfolding run Distinct
Reachable-IsShared _ begin = record {
  same = refl;
  distinct = tt;
  issued = tt;
  unsettled = tt;
  past = tt;
}
Reachable-IsShared _ (calls s key r) =
    attach_or_lead-IsShared (lookup key s.in_flight) s key refl (Reachable-IsShared s r)
Reachable-IsShared _ (settles s key future result r h) =
    let v = Reachable-IsShared s r in
    settle-IsShared s key future result v (subst (Holds key future) v.same h)

-- However calls for keys and ends of executions interleave, and however those end, the map holds exactly the calls
-- that execute, no two of them for the same key, and none whose future is settled.
pub one_leader_each :
    (s : SingleFlight)
    → Reachable s
    → (s.executing ≡ s.in_flight)
      × Distinct s.in_flight
      × All (λ e. is_settled e.1 s.settled ≡ false) s.in_flight
one_leader_each s r = let v = Reachable-IsShared s r in (v.same, v.distinct, v.unsettled)

-- A caller that attaches does so to the execution for its own key, and that has not ended: no result is served from a
-- call that was over when the caller came.
pub run-follower :
    (s : SingleFlight) (key future : ℕ)
    → Reachable s
    → (run s key).1 ≡ follower future
    → Holds key future s.executing × (is_settled future s.settled ≡ false)
unfolding run attach_or_lead
run-follower s key future r e =
    let v = Reachable-IsShared s r in
    let h = found (lookup key s.in_flight) refl e in
    (
      subst (Holds key future) (sym v.same) h,
      All-Holds (λ e. is_settled e.1 s.settled ≡ false) key future s.in_flight v.unsettled h,
    )
  where
    found :
        (o : Option ℕ)
        → lookup key s.in_flight ≡ o
        → (attach_or_lead o s key).1 ≡ follower future
        → Holds key future s.in_flight
    found none same role = let role' : leader s.next ≡ follower future = role in absurd (cc)
    found (some other_future) same role =
        let role' : follower other_future ≡ follower future = role in
        lookup-Holds key future s.in_flight (cc)

-- ===== src/Completeness/Runs.antt =====
-- The walk of `gap_intervals` over an ascending list of sessions.
use mathlib.Core.List.{append_assoc, append-nil}
use trader_joe.Base.{
  ℕ, ◌+◌, ◌≤◌, ◌<◌, ◌≡◌, refl, sym, inl, inr, Bool, true, false, ◌&&◌, ◌||◌, List, [], ◌∷◌, ◌++◌,
  arith, leb, length, length-append, mem, filter, All, All-append, All-zip, All-split, All-swap,
  IsAscending-split, IsAscending, Bool-cases, subst,
}
use trader_joe.Completeness.{GapInterval, last_of, close_run, walk_runs}

-- The sessions that the runs count.
abbrev pub total : List GapInterval → ℕ
total [] = 0
total (r ∷ rs) = r.sessions + total rs

-- Whether a session lies in one of the runs, both ends inclusive.
abbrev pub in_runs : ℕ → List GapInterval → Bool
in_runs s [] = false
in_runs s (r ∷ rs) = (leb r.first_session s && leb s r.last_session) || in_runs s rs

total-append : (xs ys : List GapInterval) → total (xs ++ ys) ≡ total xs + total ys
total-append [] ys = omega arith
total-append (x ∷ xs) ys = omega (arith, total-append xs ys)

in_runs-append :
    (s : ℕ) (xs ys : List GapInterval) → in_runs s (xs ++ ys) ≡ in_runs s xs || in_runs s ys
in_runs-append s [] ys = refl
in_runs-append s (x ∷ xs) ys = ground (arith, in_runs-append s xs ys)

total-close_run : (run : List ℕ) → total (close_run run) ≡ length run
unfolding close_run
total-close_run [] = refl
total-close_run (s ∷ run) = omega arith

-- The runs count every missing session of the walk, and the run that was open.
pub total-walk_runs :
    (missing run ss : List ℕ)
    → total (walk_runs missing run ss) ≡ length run + length (filter (λ s. mem s missing) ss)
unfolding walk_runs
total-walk_runs missing run [] = omega (arith, total-close_run run)
total-walk_runs missing run (s ∷ ss) = elim (Bool-cases (mem s missing)) [
  | inl e ↦
      rw e
        (omega (arith, total-walk_runs missing (run ++ s ∷ []) ss, length-append {0} run (s ∷ [])))
  | inr e ↦ rw e (
      omega (
        arith,
        total-append (close_run run) (walk_runs missing [] ss),
        total-walk_runs missing [] ss,
        total-close_run run,
      ))
]

-- What an ascending list ends in is above all the rest.
last_of-above :
    (s : ℕ) (run : List ℕ) → IsAscending (s ∷ run) → All (λ x. x ≤ last_of s run) (s ∷ run)
last_of-above s [] h = omega arith
last_of-above s (x ∷ xs) h =
    let rest = last_of-above x xs h.1 in (omega (arith, h.0.0, rest.0), rest)

last_of-below : (s y : ℕ) (run : List ℕ) → All (λ x. x < y) (s ∷ run) → last_of s run < y
last_of-below s y [] h = h.0
last_of-below s y (x ∷ xs) h = last_of-below x y xs h.1

-- Every session of a closed run lies in it, and what is above them all does not.
close_run-holds : (run : List ℕ) → IsAscending run → All (λ x. in_runs x (close_run run) ≡ true) run
unfolding close_run
close_run-holds [] h = tt
close_run-holds (s ∷ run) h = (
  ground (arith, (last_of-above s run h).0),
  inner run (last_of s run) h.0 (last_of-above s run h).1,
)
  where
    inner :
        (xs : List ℕ) (l : ℕ)
        → All (λ y. s < y) xs
        → All (λ y. y ≤ l) xs
        → All
            (λ x.
              in_runs x
                (record { first_session = s; last_session = l; sessions = length (s ∷ run) } ∷ [])
              ≡ true)
            xs
    inner [] l a b = tt
    inner (y ∷ ys) l a b = (ground (arith, a.0, b.0), inner ys l a.1 b.1)

close_run-above : (run : List ℕ) (y : ℕ) → All (λ x. x < y) run → in_runs y (close_run run) ≡ false
unfolding close_run
close_run-above [] y h = refl
close_run-above (s ∷ run) y h = ground (arith, last_of-below s y run h)

close_run-low : (run : List ℕ) (y : ℕ) → All (λ x. y < x) run → in_runs y (close_run run) ≡ false
unfolding close_run
close_run-low [] y h = refl
close_run-low (s ∷ run) y h = ground (arith, h.0)

-- No run begins below the sessions walked.
walk_runs-low :
    (missing run ss : List ℕ) (y : ℕ)
    → All (λ x. y < x) run
    → All (λ x. y < x) ss
    → in_runs y (walk_runs missing run ss) ≡ false
unfolding walk_runs
walk_runs-low missing run [] y h k = close_run-low run y h
walk_runs-low missing run (s ∷ ss) y h k = elim (Bool-cases (mem s missing)) [
  | inl e ↦ rw e (
      walk_runs-low missing (run ++ s ∷ []) ss y (All-append (λ x. y < x) run (s ∷ []) h (k.0, tt))
        k.1)
  | inr e ↦
      rw (e, in_runs-append y (close_run run) (walk_runs missing [] ss), close_run-low run y h)
        (walk_runs-low missing [] ss y tt k.1)
]

abbrev pub Agrees : List ℕ → List GapInterval → ℕ → Type 0
Agrees missing rs x = in_runs x rs ≡ mem x missing

-- The step over a session that is not missing, given the rest of the walk.
passed_by :
    (missing run ss : List ℕ) (s : ℕ)
    → mem s missing ≡ false
    → All (λ x. mem x missing ≡ true) run
    → IsAscending run × IsAscending (s ∷ ss) × All (λ x. All (λ y. x < y) (s ∷ ss)) run
    → All (Agrees missing (walk_runs missing [] ss)) ss
    → All (Agrees missing (close_run run ++ walk_runs missing [] ss)) run
      × All (Agrees missing (close_run run ++ walk_runs missing [] ss)) (s ∷ ss)
passed_by missing run ss s e m (run_up, ss_up, cross) later =
    let after = walk_runs missing [] ss in
    let swapped = All-swap (λ x y. x < y) run (s ∷ ss) cross in
    let joined = λ (y : ℕ). in_runs-append y (close_run run) after in
    (
      All-zip inside run (close_run-holds run run_up) m,
      (
        rw (joined s, close_run-above run s swapped.0, walk_runs-low missing [] ss s tt ss_up.0, e),
        All-zip outside ss swapped.1 later,
      ),
    )
  where
    inside :
        (x : ℕ)
        → in_runs x (close_run run) ≡ true
        → mem x missing ≡ true
        → Agrees missing (close_run run ++ walk_runs missing [] ss) x
    inside x a b = rw (in_runs-append x (close_run run) (walk_runs missing [] ss), a, b)

    outside :
        (y : ℕ)
        → All (λ x. x < y) run
        → Agrees missing (walk_runs missing [] ss) y
        → Agrees missing (close_run run ++ walk_runs missing [] ss) y
    outside y a b =
        rw (in_runs-append y (close_run run) (walk_runs missing [] ss), close_run-above run y a) b

walk_longer :
    (missing run ss : List ℕ) (s : ℕ)
    → mem s missing ≡ true
    → walk_runs missing run (s ∷ ss) ≡ walk_runs missing (run ++ s ∷ []) ss
unfolding walk_runs
walk_longer missing run ss s e = rw e

walk_ended :
    (missing run ss : List ℕ) (s : ℕ)
    → mem s missing ≡ false
    → walk_runs missing run (s ∷ ss) ≡ close_run run ++ walk_runs missing [] ss
unfolding walk_runs
walk_ended missing run ss s e = rw e

-- A session of an ascending walk lies in one of the runs exactly if it is missing.
pub walk_runs-Agrees :
    (missing run ss : List ℕ)
    → IsAscending (run ++ ss)
    → All (λ x. mem x missing ≡ true) run
    → All (Agrees missing (walk_runs missing run ss)) run
      × All (Agrees missing (walk_runs missing run ss)) ss
walk_runs-Agrees missing run [] h m =
    unfold walk_runs in (All-zip both run (close_run-holds run (rw append-nil at h)) m, tt)
  where
    both :
        (x : ℕ)
        → in_runs x (close_run run) ≡ true
        → mem x missing ≡ true
        → Agrees missing (close_run run) x
    both x a b = rw (a, b)
walk_runs-Agrees missing run (s ∷ ss) h m = elim (Bool-cases (mem s missing)) [
  | inl e ↦
      let longer = walk_runs missing (run ++ s ∷ []) ss in
      let with_run = All-append (λ x. mem x missing ≡ true) run (s ∷ []) m (e, tt) in
      let later = walk_runs-Agrees missing (run ++ s ∷ []) ss (rw append_assoc h) with_run in
      let here = All-split (Agrees missing longer) run (s ∷ []) later.0 in
      subst AllAgree (sym (walk_longer missing run ss s e)) (here.0, (here.1.0, later.1))
  | inr e ↦
      let parts = IsAscending-split run (s ∷ ss) h in
      subst AllAgree (sym (walk_ended missing run ss s e))
        (passed_by missing run ss s e m parts (walk_runs-Agrees missing [] ss parts.1.1 tt).1)
]
  where
    AllAgree : List GapInterval → Type 0
    AllAgree rs = All (Agrees missing rs) run × All (Agrees missing rs) (s ∷ ss)

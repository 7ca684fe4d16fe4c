-- ===== src/Refresh/Plan.antt =====
-- What is planned and what is taken.
use trader_joe.Base.{
  ℕ, ◌+◌, ◌-◌, ◌/◌, ◌≤◌, ◌≡◌, refl, Option, List, [], ◌∷◌, ◌++◌, min, arith, if◌then◌else◌, length,
  take, length-append, length-take,
}
use trader_joe.Refresh.{
  CatalogRow, RunRecord, Planned, Choice, productive, again, skip, Due, put, choose, planned_of,
  split, insert_planned, in_order, plan, take_batch,
}

-- All that a plan holds.
abbrev pub size : Due → ℕ
size d = length d.productive + length d.again + d.skipped

size-put : (c : Choice) (p : Planned) (d : Due) → size (put c p d) ≡ size d + 1
size-put productive p d = omega arith
size-put again p d = omega arith
size-put skip p d = omega arith

size-split :
    (history : List RunRecord) (last_close : Option ℕ) (rows : List (CatalogRow × ℕ))
    → size (split history last_close rows) ≡ length rows
unfolding split
size-split history last_close [] = refl
size-split history last_close ((row, start) ∷ rows) =
    let planned = planned_of history row start in
    let choice = if row.is_valid then choose planned.last_attempt start last_close else skip in
    omega (
      arith,
      size-put choice planned (split history last_close rows),
      size-split history last_close rows,
    )

length-insert_planned :
    (p : Planned) (ps : List Planned) → length (insert_planned p ps) ≡ length ps + 1
length-insert_planned p [] = refl
length-insert_planned p (q ∷ qs) = ground (arith, length-insert_planned p qs)

length-in_order : (ps : List Planned) → length (in_order ps) ≡ length ps
unfolding in_order
length-in_order [] = refl
length-in_order (p ∷ ps) = omega (arith, length-insert_planned p (in_order ps), length-in_order ps)

-- Every dataset that is owed is in one of the two lists or is counted as skipped.
pub size-plan :
    (history : List RunRecord) (last_close : Option ℕ) (rows : List (CatalogRow × ℕ))
    → size (plan history last_close rows) ≡ length rows
unfolding plan
size-plan history last_close rows =
    let d = split history last_close rows in
    omega (
      arith,
      length-in_order d.productive,
      length-in_order d.again,
      size-split history last_close rows,
    )

pub length-take_batch :
    (others repeats : List Planned) (at_most : ℕ)
    → length (take_batch others repeats at_most) ≡ min at_most (length others + length repeats)
unfolding take_batch
length-take_batch others repeats at_most =
    let first = take (at_most - min (length repeats) (at_most / 2)) others in
    let whole = length-append first (take (at_most - length first) repeats) in
    let front = length-take (at_most - min (length repeats) (at_most / 2)) others in
    let back = length-take (at_most - length first) repeats in omega (arith, whole, front, back)

-- The batch is a first part of the productive list and then a first part of the list of those due again. It is as long
-- as the cap allows, it holds at least half the cap (rounded down) of those due again, or all of them, and at least the
-- other half of the productive ones, or all of them: neither class starves the other.
pub take_batch-is_fair :
    (others repeats : List Planned) (at_most : ℕ)
    → (m : ℕ) × (n : ℕ) × (take_batch others repeats at_most ≡ take m others ++ take n repeats)
      × (length (take_batch others repeats at_most) ≡ min at_most (length others + length repeats))
      × (min (length others) (at_most - at_most / 2) ≤ length (take m others))
      × (min (length repeats) (at_most / 2) ≤ length (take n repeats))
unfolding take_batch
take_batch-is_fair others repeats at_most =
    let m = at_most - min (length repeats) (at_most / 2) in
    let n = at_most - length (take m others) in
    let front = length-take m others in
    let back = length-take n repeats in
    (
      m,
      n,
      refl,
      length-take_batch others repeats at_most,
      omega (arith, front),
      omega (arith, front, back),
    )

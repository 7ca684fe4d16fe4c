-- ===== src/Usage/Cap.antt =====
-- The cap on the labels of a dataset and a day, as `_apply_cap` keeps it over a batch.
use trader_joe.Base.{
  ℕ, ◌≤◌, ◌<◌, ◌≡◌, refl, inl, inr, ap, Bool, true, false, ◌&&◌, List, [], ◌∷◌, max, arith, All,
  ltb, ◌==◌, ltb→lt, length, ==→eq, ==_refl, ◌⊎◌, Bool-cases,
}
use trader_joe.Calendar.{utc_date}
use trader_joe.Usage.{
  NewRead, Seen, same, holds, put, ids_of, counts_toward_cap, max_ids_per_dataset_day, cap_one,
  cap_all, overflow_id, with_client_id,
}

pub length-cap_all :
    (seen : Seen) (reads : List NewRead) → length (cap_all seen reads).1 ≡ length reads
unfolding cap_all
length-cap_all seen [] = refl
length-cap_all seen (read ∷ reads) = omega (arith, length-cap_all (cap_one seen read).0 reads)

both : (a b : Bool) → (a && b) ≡ true → (a ≡ true) × (b ≡ true)
both true true e = (refl, refl)
both true false e = absurd (cc)
both false b e = absurd (cc)

-- What happens to one read.
cap_one-cases :
    (seen : Seen) (read : NewRead)
    → ((cap_one seen read ≡ (seen, read))
        × ((counts_toward_cap read.client_id ≡ false)
            ⊎ (holds read.client_id (ids_of seen read) ≡ true)))
      ⊎ (((cap_one seen read
              ≡ (put seen read.dataset_id (utc_date read.read_at) read.client_id, read))
            × (length (ids_of seen read) < max_ids_per_dataset_day))
          ⊎ (cap_one seen read ≡ (seen, with_client_id read overflow_id)))
unfolding cap_one
cap_one-cases seen read = elim (Bool-cases (counts_toward_cap read.client_id)) [
  | inr e ↦ inl (rw e refl, inl e)
  | inl e ↦ elim (Bool-cases (holds read.client_id (ids_of seen read))) [
    | inl k ↦ inl (rw (e, k) refl, inr k)
    | inr k ↦ elim (Bool-cases (ltb (length (ids_of seen read)) max_ids_per_dataset_day)) [
      | inl l ↦ inr (inl (rw (e, k, l) refl, ltb→lt _ _ l))
      | inr l ↦ inr (inr (rw (e, k, l) refl))
    ]
  ]
]

put_bound :
    (seen : Seen) (read : NewRead) (day d t : ℕ)
    → length (seen read.dataset_id day) < max_ids_per_dataset_day
    → length (put seen read.dataset_id day read.client_id d t)
      ≤ max max_ids_per_dataset_day (length (seen d t))
put_bound seen read day d t h = elim (Bool-cases ((d == read.dataset_id) && (t == day))) [
  | inl e ↦
      let (dataset, on_day) = both _ _ e in
      let here : seen d t ≡ seen read.dataset_id day =
        rw (==→eq d read.dataset_id dataset, ==→eq t day on_day) refl in
      rw e (omega (arith, h, ap (λ (ids : List (List ℕ)). length ids) here))
  | inr e ↦ rw e (omega arith)
]

cap_one_bound :
    (seen : Seen) (read : NewRead) (d t : ℕ)
    → length ((cap_one seen read).0 d t) ≤ max max_ids_per_dataset_day (length (seen d t))
cap_one_bound seen read d t = elim (cap_one-cases seen read) [
  | inl (e, _) ↦ rw e (omega arith)
  | inr (inl (e, h)) ↦ rw e (put_bound seen read (utc_date read.read_at) d t h)
  | inr (inr e) ↦ rw e (omega arith)
]

same_refl : (id : List ℕ) → same id id ≡ true
same_refl [] = refl
same_refl (x ∷ xs) = rw (==_refl x, same_refl xs) refl

holds-put : (seen : Seen) (d t : ℕ) (id : List ℕ) → holds id (put seen d t id d t) ≡ true
holds-put seen d t id = rw (==_refl d, ==_refl t, same_refl id) refl

-- An id is kept only if it is exempt or among those seen for its dataset and day.
abbrev pub IsSeen : Seen → NewRead → Type 0
IsSeen seen read =
    counts_toward_cap read.client_id ≡ true → holds read.client_id (ids_of seen read) ≡ true

abbrev Grows : Seen → Seen → Type 0
Grows seen seen' =
    (d t : ℕ) (id : List ℕ) → holds id (seen d t) ≡ true → holds id (seen' d t) ≡ true

put-Grows : (seen : Seen) (dataset day : ℕ) (new : List ℕ) → Grows seen (put seen dataset day new)
put-Grows seen dataset day new d t id h = elim (Bool-cases ((d == dataset) && (t == day))) [
  | inl e ↦ rw (e, h) (elim (Bool-cases (same id new)) [ inl k ↦ rw k refl | inr k ↦ rw k refl ])
  | inr e ↦ rw e h
]

cap_one-Grows : (seen : Seen) (read : NewRead) → Grows seen (cap_one seen read).0
cap_one-Grows seen read d t id h = elim (cap_one-cases seen read) [
  | inl (e, _) ↦ rw e h
  | inr (inl (e, _)) ↦
      rw e (put-Grows seen read.dataset_id (utc_date read.read_at) read.client_id d t id h)
  | inr (inr e) ↦ rw e h
]

overflow_exempt : counts_toward_cap overflow_id ≡ false
unfolding counts_toward_cap
overflow_exempt = refl

cap_one-IsSeen : (seen : Seen) (read : NewRead) → IsSeen (cap_one seen read).0 (cap_one seen read).1
cap_one-IsSeen seen read = elim (cap_one-cases seen read) [
  | inl (e, inl exempt) ↦ rw e (λ c. absurd (cc))
  | inl (e, inr known) ↦ rw e (λ c. known)
  | inr (inl (e, _)) ↦
      rw e (λ c. holds-put seen read.dataset_id (utc_date read.read_at) read.client_id)
  | inr (inr e) ↦ rw e (λ c. absurd (cc (overflow_exempt)))
]

cap_all-Grows : (seen : Seen) (reads : List NewRead) → Grows seen (cap_all seen reads).0
unfolding cap_all
cap_all-Grows seen [] d t id h = h
cap_all-Grows seen (read ∷ reads) d t id h =
    cap_all-Grows (cap_one seen read).0 reads d t id (cap_one-Grows seen read d t id h)

cap_all-IsSeen :
    (seen : Seen) (reads : List NewRead)
    → All (IsSeen (cap_all seen reads).0) (cap_all seen reads).1
unfolding cap_all
cap_all-IsSeen seen [] = tt
cap_all-IsSeen seen (read ∷ reads) =
    let (seen', kept) = cap_one seen read in
    (
      λ c.
          cap_all-Grows seen' reads kept.dataset_id (utc_date kept.read_at) kept.client_id
            (cap_one-IsSeen seen read c),
      cap_all-IsSeen seen' reads,
    )

cap_all_bound :
    (seen : Seen) (reads : List NewRead) (d t : ℕ)
    → length ((cap_all seen reads).0 d t) ≤ max max_ids_per_dataset_day (length (seen d t))
unfolding cap_all
cap_all_bound seen [] d t = omega arith
cap_all_bound seen (read ∷ reads) d t =
    omega (arith, cap_one_bound seen read d t, cap_all_bound (cap_one seen read).0 reads d t)

-- The cap over a batch: the rows are as many as the reads; every row whose label counts has a label of the final set
-- of its dataset and day; and that set holds at most 32 labels, or no more than the database already had.
pub cap_all_lem :
    (seen : Seen) (reads : List NewRead)
    → (length (cap_all seen reads).1 ≡ length reads)
      × All (IsSeen (cap_all seen reads).0) (cap_all seen reads).1
      × ((d t : ℕ)
          → length ((cap_all seen reads).0 d t) ≤ max max_ids_per_dataset_day (length (seen d t)))
cap_all_lem seen reads =
    (length-cap_all seen reads, cap_all-IsSeen seen reads, cap_all_bound seen reads)

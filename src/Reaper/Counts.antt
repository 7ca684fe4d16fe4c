-- ===== src/Reaper/Counts.antt =====
-- What a pass counts, and what it may delete.
use trader_joe.Base.{
  ℕ, ◌+◌, ◌≡◌, ◌≢◌, ◌↔◌, refl, inl, inr, true, false, not, ◌&&◌, Option, none, some, List, [], ◌∷◌,
  ◌++◌, arith, ◌==◌, ==→eq, filter, length, mem, Bool-cases, Option-cases, leb, length-append,
  leb-false→lt,
}
use trader_joe.Reaper.{
  Entry, Database, Deletion, entry_not_found, left, done, find, is_pending, delete_found,
  reaper_delete_entry, Outcomes, no_outcomes, Turn, Deleting, counted, delete_one, delete_all,
  insert, sorted, minus, pending_ids, Settings, delete_pending, run_pass,
}

-- All that is counted.
abbrev pub total : Outcomes → ℕ
total o = length o.deleted + o.skipped + o.left_alone + o.already_gone + o.failed

total-counted :
    (id : ℕ) (answer : Deletion) (o : Outcomes) → total (counted id answer o) ≡ total o + 1
total-counted id entry_not_found o = omega arith
total-counted id left o = omega arith
total-counted id done o = omega (arith, length-append o.deleted (id ∷ []))

total-delete_one :
    (running : List ℕ) (now : ℕ) (turns : ℕ → Turn) (id : ℕ) (d : Deleting)
    → total (delete_one running now turns id d).outcomes ≡ total d.outcomes + 1
unfolding delete_one
total-delete_one running now turns id d = elim (Bool-cases (mem id running)) [
  | inl e ↦ rw e (omega arith)
  | inr e ↦ elim (Bool-cases (turns id).fails) [
    | inl f ↦ rw (e, f) (omega arith)
    | inr f ↦
        rw (e, f)
          (total-counted id (reaper_delete_entry ((turns id).meanwhile d.db) id now).0 d.outcomes)
  ]
]

total-delete_all :
    (running : List ℕ) (now : ℕ) (turns : ℕ → Turn) (ids : List ℕ) (d : Deleting)
    → total (delete_all running now turns ids d).outcomes ≡ total d.outcomes + length ids
unfolding delete_all
total-delete_all running now turns [] d = omega arith
total-delete_all running now turns (id ∷ ids) d = omega (
  arith,
  total-delete_one running now turns id d,
  total-delete_all running now turns ids (delete_one running now turns id d),
)

length-insert : (x : ℕ) (xs : List ℕ) → length (insert x xs) ≡ length xs + 1
length-insert x [] = refl
length-insert x (y ∷ ys) = ground (arith, length-insert x ys)

length-sorted : (xs : List ℕ) → length (sorted xs) ≡ length xs
unfolding sorted
length-sorted [] = refl
length-sorted (x ∷ xs) = omega (arith, length-insert x (sorted xs), length-sorted xs)

-- A pass that deletes counts every pending dataset once, whatever others commit between its transactions and
-- whichever of them fail: deleted, skipped, left alone, already gone or failed.
pub run_pass-total :
    (s : Settings) (now : ℕ) (turns : ℕ → Turn) (previous : Option (List ℕ)) (db : Database)
    → s.enabled ≡ true
    → s.recording ≡ true
    → total (run_pass s now turns previous db).outcomes ≡ length (pending_ids db now)
unfolding run_pass delete_pending
run_pass-total s now turns previous db on recorded =
    elim (Bool-cases (leb 1 (length (pending_ids db now)))) [
      | inl e ↦
          let begun : Deleting = record { db = db; outcomes = no_outcomes; events = [] } in
          let all = total-delete_all db.running now turns (sorted (pending_ids db now)) begun in
          rw (on, recorded, e) (omega (arith, all, length-sorted (pending_ids db now)))
      | inr e ↦ rw (on, recorded, e) (omega (arith, leb-false→lt 1 (length (pending_ids db now)) e))
    ]

-- Off, or without the audit tables, a pass changes no data and publishes no deletion: it answers 0.
pub run_pass-disabled :
    (s : Settings) (now : ℕ) (turns : ℕ → Turn) (previous : Option (List ℕ)) (db : Database)
    → s.enabled && s.recording ≡ false
    → ((run_pass s now turns previous db).db ≡ db)
      × ((run_pass s now turns previous db).answer ≡ 0)
      × ((run_pass s now turns previous db).previous ≡ some (minus (pending_ids db now) []))
unfolding run_pass delete_pending
run_pass-disabled s now turns previous db off = elim (Bool-cases s.enabled) [
  | inr e ↦ rw e (refl, refl, refl)
  | inl e ↦ elim (Bool-cases s.recording) [
    | inr f ↦ rw (e, f) (refl, refl, refl)
    | inl f ↦ absurd (cc (rw (e, f) at off))
  ]
]

find-deleted : (id : ℕ) (es : List Entry) → find id (filter (λ e. not (e.id == id)) es) ≡ none
find-deleted id [] = refl
find-deleted id (e ∷ es) = elim (Bool-cases (e.id == id)) [
  | inl h ↦ rw h (find-deleted id es)
  | inr h ↦ rw (h, h) (find-deleted id es)
]

differ : (id other : ℕ) → (other == id) ≡ false → (id == other) ≡ false
differ id other h = ground (arith, h)

find-kept :
    (id other : ℕ) (es : List Entry)
    → (other == id) ≡ false
    → find other (filter (λ e. not (e.id == id)) es) ≡ find other es
find-kept id other [] ne = refl
find-kept id other (e ∷ es) ne = elim (Bool-cases (e.id == id)) [
  | inl h ↦ rw (h, ==→eq e.id id h, differ id other ne) (find-kept id other es ne)
  | inr h ↦ elim (Bool-cases (e.id == other)) [
    | inl k ↦ rw (h, k) refl
    | inr k ↦ rw (h, k) (find-kept id other es ne)
  ]
]

-- What one deletion decides and leaves.
pub record IsDecided (db : Database) (id now : ℕ) (answer : Deletion) (db' : Database)
    : Type 0 where
  pub deletes : (answer ≡ done) ↔ (
      ((e : Entry) × (find id db.entries ≡ some e) × (is_pending now e ≡ true))
      × (mem id db.running ≡ false))
  pub misses : (answer ≡ entry_not_found) ↔ (find id db.entries ≡ none)
  pub gone :
      answer ≡ done
      → (find id db'.entries ≡ none)
        × ((other : ℕ) → (other == id) ≡ false → find other db'.entries ≡ find other db.entries)
        × (db'.deletions ≡ db.deletions ++ (id ∷ []))
  pub untouched : answer ≢ done → db' ≡ db

-- One deletion. It deletes the dataset exactly when, at the moment its row is locked, the dataset is stored, has
-- expired and has no running ingest; then its row is not found any more, every other row is found as it was, and the
-- deletion is recorded. Otherwise nothing changes, and it answers that there is no such dataset exactly when there is
-- none.
pub reaper_delete_entry_lem :
    (db : Database) (id now : ℕ)
    → IsDecided db id now (reaper_delete_entry db id now).0 (reaper_delete_entry db id now).1
unfolding reaper_delete_entry delete_found
reaper_delete_entry_lem db id now = elim (Option-cases (find id db.entries)) [
  | inl e ↦ rw e (record {
    deletes = ((λ h. absurd (cc)), (λ h. let ((found, f, p), r) = h in absurd (cc)));
    misses = ((λ h. e), (λ h. refl));
    gone = λ h. absurd (cc);
    untouched = λ h. refl;
  })
  | inr (found, e) ↦ elim (Bool-cases (is_pending now found)) [
    | inl p ↦ elim (Bool-cases (mem id db.running)) [
      | inl r ↦
          rw (e, p, r)
            (record {
              deletes = ((λ h. absurd (cc)), (λ h. absurd (cc (h.1, r))));
              misses = ((λ h. absurd (cc)), (λ h. absurd (cc)));
              gone = λ h. absurd (cc);
              untouched = λ h. refl;
            })
      | inr r ↦
          rw (e, p, r)
            (record {
              deletes = ((λ h. ((found, e, p), r)), (λ h. refl));
              misses = ((λ h. absurd (cc)), (λ h. absurd (cc)));
              gone = λ h. (find-deleted id db.entries, (λ o. find-kept id o db.entries), refl);
              untouched = λ h. absurd (h refl);
            })
    ]
    | inr p ↦
        rw (e, p)
          (record {
            deletes = ((λ h. absurd (cc)), (λ h. let ((f, f_is, q), r) = h in absurd (cc)));
            misses = ((λ h. absurd (cc)), (λ h. absurd (cc)));
            gone = λ h. absurd (cc);
            untouched = λ h. refl;
          })
  ]
]

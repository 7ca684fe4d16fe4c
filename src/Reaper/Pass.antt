-- ===== src/Reaper/Pass.antt =====
-- What a pass may delete.
use trader_joe.Base.{
  ℕ, ◌≡◌, refl, inl, inr, true, false, ◌&&◌, Option, List, [], ◌∷◌, arith, leb, length, mem, All,
  All-append, All-map, ==_refl, Bool-cases,
}
use trader_joe.Reaper.{
  Database, Deletion, entry_not_found, left, done, reaper_delete_entry, Outcomes, no_outcomes, Turn,
  Deleting, counted, delete_one, delete_all, insert, sorted, pending_ids, Settings, delete_pending,
  run_pass,
}

counted-All :
    (P : ℕ → Type 0) (id : ℕ) (answer : Deletion) (o : Outcomes)
    → P id
    → All P o.deleted
    → All P (counted id answer o).deleted
counted-All P id entry_not_found o p all = all
counted-All P id left o p all = all
counted-All P id done o p all = All-append P o.deleted (id ∷ []) all (p, tt)

delete_one-All :
    (P : ℕ → Type 0) (running : List ℕ) (now : ℕ) (turns : ℕ → Turn) (id : ℕ) (d : Deleting)
    → (mem id running ≡ false → P id)
    → All P d.outcomes.deleted
    → All P (delete_one running now turns id d).outcomes.deleted
unfolding delete_one
delete_one-All P running now turns id d p all = elim (Bool-cases (mem id running)) [
  | inl e ↦ rw e all
  | inr e ↦ elim (Bool-cases (turns id).fails) [
    | inl f ↦ rw (e, f) all
    | inr f ↦
        rw (e, f)
          (counted-All P id (reaper_delete_entry ((turns id).meanwhile d.db) id now).0 d.outcomes
            (p e) all)
  ]
]

delete_all-All :
    (P : ℕ → Type 0) (running : List ℕ) (now : ℕ) (turns : ℕ → Turn) (ids : List ℕ) (d : Deleting)
    → All (λ id. mem id running ≡ false → P id) ids
    → All P d.outcomes.deleted
    → All P (delete_all running now turns ids d).outcomes.deleted
unfolding delete_all
delete_all-All P running now turns [] d ps all = all
delete_all-All P running now turns (id ∷ ids) d (p, ps) all =
    delete_all-All P running now turns ids (delete_one running now turns id d) ps
      (delete_one-All P running now turns id d p all)

All-insert : (P : ℕ → Type 0) (x : ℕ) (xs : List ℕ) → P x → All P xs → All P (insert x xs)
All-insert P x [] p all = (p, tt)
All-insert P x (y ∷ ys) p (q, all) = elim (Bool-cases (leb x y)) [
  | inl e ↦ rw e (p, (q, all))
  | inr e ↦ rw e (q, All-insert P x ys p all)
]

All-sorted : (P : ℕ → Type 0) (xs : List ℕ) → All P xs → All P (sorted xs)
unfolding sorted
All-sorted P [] all = tt
All-sorted P (x ∷ xs) (p, all) = All-insert P x (sorted xs) p (All-sorted P xs all)

mem_here : (x : ℕ) (xs : List ℕ) → mem x (x ∷ xs) ≡ true
mem_here x xs = rw (==_refl x) refl

mem_later : (x id : ℕ) (xs : List ℕ) → mem id xs ≡ true → mem id (x ∷ xs) ≡ true
mem_later x id xs h = ground (arith, h)

All-mem_own : (xs : List ℕ) → All (λ id. mem id xs ≡ true) xs
All-mem_own [] = tt
All-mem_own (x ∷ xs) = (mem_here x xs, All-map later xs (All-mem_own xs))
  where
    later : (id : ℕ) → mem id xs ≡ true → mem id (x ∷ xs) ≡ true
    later id = mem_later x id xs

-- Whatever others commit during a pass and whichever transactions fail, a pass deletes only datasets that were past
-- their expiry, and had no running ingest, when it listed them.
pub run_pass-All :
    (s : Settings) (now : ℕ) (turns : ℕ → Turn) (previous : Option (List ℕ)) (db : Database)
    → All
        (λ id. (mem id (pending_ids db now) ≡ true) × (mem id db.running ≡ false))
        (run_pass s now turns previous db).outcomes.deleted
unfolding run_pass delete_pending
run_pass-All s now turns previous db =
    elim (Bool-cases (s.enabled && s.recording && leb 1 (length (pending_ids db now)))) [
      | inr e ↦ rw e tt
      | inl e ↦ rw e (
          delete_all-All Listed db.running now turns (sorted (pending_ids db now))
            (record { db = db; outcomes = no_outcomes; events = [] }) all_listed tt)
    ]
  where
    Listed : ℕ → Type 0
    Listed id = (mem id (pending_ids db now) ≡ true) × (mem id db.running ≡ false)

    keep : (id : ℕ) → mem id (pending_ids db now) ≡ true → mem id db.running ≡ false → Listed id
    keep id m idle = (m, idle)

    all_listed : All (λ id. mem id db.running ≡ false → Listed id) (sorted (pending_ids db now))
    all_listed =
        All-sorted _ (pending_ids db now)
          (All-map keep (pending_ids db now) (All-mem_own (pending_ids db now)))

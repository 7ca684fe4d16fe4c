-- ===== src/Reaper.antt =====
-- server/data/store/app/reaper.py, with the deletion that it calls (reaper_delete_entry of
-- server/data/store/app/database/crud/stock/store_dataset_entry.py). The database is a state: the datasets with their
-- expiry, those with a running ingest, and the deletion record. A transaction is one step.
pub mod Counts
pub mod Pass
mod Tests
use trader_joe.Base.{
  ℕ, ◌+◌, Bool, true, false, not, ◌&&◌, ◌||◌, Option, none, some, List, [], ◌∷◌, ◌++◌, map, ltb,
  leb, ◌==◌, if◌then◌else◌, length, filter, mem,
}

pub record Entry : Type 0 where
  pub id : ℕ
  pub expiry : Option ℕ

pub record Database : Type 0 where
  pub entries : List Entry
  pub running : List ℕ
  pub deletions : List ℕ

abbrev pub has_expired : ℕ → Option ℕ → Bool
has_expired now none = false
has_expired now (some expiry) = leb expiry now

abbrev pub is_pending : ℕ → Entry → Bool
is_pending now e = has_expired now e.expiry

abbrev pub ids_of : List Entry → List ℕ
ids_of es = map (λ e. e.id) es

unfoldable pub pending_ids : Database → ℕ → List ℕ
pending_ids db now = ids_of (filter (is_pending now) db.entries)

abbrev pub find : ℕ → List Entry → Option Entry
find id [] = none
find id (e ∷ es) = let rest = find id es in if e.id == id then some e else rest

pub data Deletion : Type 0 where
  entry_not_found : Deletion
  left : Deletion
  done : Deletion

-- The row and its bars go, and the deletion is recorded, in one transaction.
abbrev pub delete_and_record : Database → ℕ → Database
delete_and_record db id = record db {
  entries = filter (λ e. not (e.id == id)) db.entries;
  deletions = db.deletions ++ (id ∷ []);
}

-- The expiry and the running ingest are read again under the row's lock.
unfoldable pub delete_found : Database → ℕ → ℕ → Option Entry → Deletion × Database
delete_found db id now none = (entry_not_found, db)
delete_found db id now (some e) =
    if is_pending now e && not (mem id db.running)
    then (done, delete_and_record db id)
    else (left, db)

unfoldable pub reaper_delete_entry : Database → ℕ → ℕ → Deletion × Database
unfolding delete_found
reaper_delete_entry db id now = delete_found db id now (find id db.entries)

pub record Outcomes : Type 0 where
  pub deleted : List ℕ
  pub skipped : ℕ
  pub left_alone : ℕ
  pub already_gone : ℕ
  pub failed : ℕ

abbrev pub no_outcomes : Outcomes
no_outcomes = record { deleted = []; skipped = 0; left_alone = 0; already_gone = 0; failed = 0 }

pub data Event : Type 0 where
  dataset_deleted : (id : ℕ) → Event
  reaper_pending_changed : Event

-- What happens around one dataset's turn: what others commit before it, and whether its transaction fails.
pub record Turn : Type 0 where
  pub meanwhile : Database → Database
  pub fails : Bool

pub record Deleting : Type 0 where
  pub db : Database
  pub outcomes : Outcomes
  pub events : List Event

abbrev pub counted : ℕ → Deletion → Outcomes → Outcomes
counted id entry_not_found o = record o { already_gone = o.already_gone + 1 }
counted id left o = record o { left_alone = o.left_alone + 1 }
counted id done o = record o { deleted = o.deleted ++ (id ∷ []) }

abbrev pub published : ℕ → Deletion → List Event
published id done = dataset_deleted id ∷ []
published id _ = []

-- One round of `_delete`. A transaction that fails is rolled back.
unfoldable pub delete_one : List ℕ → ℕ → (ℕ → Turn) → ℕ → Deleting → Deleting
unfolding reaper_delete_entry
delete_one running now turns id d =
    if mem id running
    then record d { outcomes = record d.outcomes { skipped = d.outcomes.skipped + 1 } }
    else let db = (turns id).meanwhile d.db in
      if (turns id).fails
      then record d { db = db; outcomes = record d.outcomes { failed = d.outcomes.failed + 1 } }
      else let (answer, after) = reaper_delete_entry db id now in
        record {
          db = after;
          outcomes = counted id answer d.outcomes;
          events = d.events ++ published id answer;
        }

unfoldable pub delete_all : List ℕ → ℕ → (ℕ → Turn) → List ℕ → Deleting → Deleting
unfolding delete_one
delete_all running now turns [] d = d
delete_all running now turns (id ∷ ids) d =
    delete_all running now turns ids (delete_one running now turns id d)

-- `sorted`, by insertion.
abbrev pub insert : ℕ → List ℕ → List ℕ
insert x [] = x ∷ []
insert x (y ∷ ys) = let rest = insert x ys in if leb x y then x ∷ y ∷ ys else y ∷ rest

unfoldable pub sorted : List ℕ → List ℕ
sorted [] = []
sorted (x ∷ xs) = insert x (sorted xs)

-- `pending - deleted`
unfoldable pub minus : List ℕ → List ℕ → List ℕ
minus xs ys = filter (λ x. not (mem x ys)) xs

abbrev pub all_in : List ℕ → List ℕ → Bool
all_in [] ys = true
all_in (x ∷ xs) ys = let rest = all_in xs ys in mem x ys && rest

-- Equality of sets.
abbrev pub same_set : List ℕ → List ℕ → Bool
same_set xs ys = all_in xs ys && all_in ys xs

-- What the first transaction of a pass reads of the settings and the tables.
pub record Settings : Type 0 where
  pub enabled : Bool
  pub recording : Bool

pub record Reaped : Type 0 where
  pub previous : Option (List ℕ)
  pub db : Database
  pub outcomes : Outcomes
  pub events : List Event
  pub answer : ℕ

abbrev pub is_change : Option (List ℕ) → List ℕ → List ℕ → Bool
is_change none remaining deleted = true
is_change (some previous) remaining deleted =
    not (same_set remaining previous) || leb 1 (length deleted)

unfoldable pub delete_pending : Settings → Database → ℕ → (ℕ → Turn) → Deleting
unfolding delete_all pending_ids sorted
delete_pending s db now turns =
    if s.enabled && s.recording && leb 1 (length (pending_ids db now))
    then delete_all db.running now turns (sorted (pending_ids db now))
        (record { db = db; outcomes = no_outcomes; events = [] })
    else record { db = db; outcomes = no_outcomes; events = [] }

-- `run_pass`, over the pending ids of the pass before.
unfoldable pub run_pass : Settings → ℕ → (ℕ → Turn) → Option (List ℕ) → Database → Reaped
unfolding delete_pending minus
run_pass s now turns previous db =
    let d = delete_pending s db now turns in
    let remaining = minus (pending_ids db now) d.outcomes.deleted in
    record {
      previous = some remaining;
      db = d.db;
      outcomes = d.outcomes;
      events =
          d.events
          ++ (if is_change previous remaining d.outcomes.deleted
              then reaper_pending_changed ∷ []
              else []);
      answer = length d.outcomes.deleted;
    }

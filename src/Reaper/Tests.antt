-- ===== src/Reaper/Tests.antt =====
-- A store of four datasets, of which three have expired and one of those has a running ingest.
use trader_joe.Base.{ℕ, ◌≡◌, refl, true, false, none, some, [], ◌∷◌, mem, All}
use trader_joe.Reaper.{
  Database, delete_found, reaper_delete_entry, Turn, dataset_deleted, reaper_pending_changed,
  delete_one, delete_all, sorted, minus, pending_ids, Settings, delete_pending, run_pass,
}
use trader_joe.Reaper.Counts.{total, run_pass-total, IsDecided, reaper_delete_entry_lem}
use trader_joe.Reaper.Pass.{run_pass-All}

abbrev store : Database
store = record {
  entries =
      record { id = 3; expiry = some 10 }
      ∷ record { id = 1; expiry = some 20 }
      ∷ record { id = 2; expiry = some 30 }
      ∷ record { id = 4; expiry = none }
      ∷ [];
  running = 2 ∷ [];
  deletions = [];
}

abbrev quiet : ℕ → Turn
quiet id = record { meanwhile = λ db. db; fails = false }

-- The expiry of dataset 3 is moved while the pass runs.
abbrev extended : ℕ → Turn
extended id = record {
  meanwhile = λ db. record db { entries = record { id = 3; expiry = some 99 } ∷ [] };
  fails = false;
}

abbrev on : Settings
on = record { enabled = true; recording = true }

abbrev dry_run : Settings
dry_run = record { enabled = false; recording = true }

program : Unit {0}
unfolding run_pass delete_pending delete_all delete_one reaper_delete_entry delete_found sorted
    minus pending_ids
program = tt

two_deleted : (run_pass on 50 quiet none store).outcomes.deleted ≡ 1 ∷ 3 ∷ []
unfolding program
two_deleted = refl

deletions_published :
    (run_pass on 50 quiet none store).events
    ≡ dataset_deleted 1 ∷ dataset_deleted 3 ∷ reaper_pending_changed ∷ []
unfolding program
deletions_published = refl

extended_survives : (run_pass on 50 extended none store).outcomes.deleted ≡ []
unfolding program
extended_survives = refl

run_pass-total_example : total (run_pass on 50 extended none store).outcomes ≡ 3
unfolding program
run_pass-total_example = run_pass-total on 50 extended none store refl refl

run_pass-All_example :
    All
      (λ id. (mem id (pending_ids store 50) ≡ true) × (mem id (2 ∷ []) ≡ false))
      (run_pass on 50 quiet none store).outcomes.deleted
run_pass-All_example = run_pass-All on 50 quiet none store

reaper_delete_entry_lem_example :
    IsDecided store 3 50 (reaper_delete_entry store 3 50).0 (reaper_delete_entry store 3 50).1
reaper_delete_entry_lem_example = reaper_delete_entry_lem store 3 50

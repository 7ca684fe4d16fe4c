-- ===== src/Entries/Audit.antt =====
-- What the operator's writes leave in the override log and in the deletion log.
use trader_joe.Base.{
  ℕ, ◌≡◌, ◌≢◌, inl, inr, refl, ap, ◌∙◌, Bool, true, false, Option, none, some, ==_refl, Bool-cases,
}
use trader_joe.Entries.{
  StoreDatasetEntry, set_expiry, set_collecting, delete, by_operator, Store, Attempt, find,
  update_row,
}
use trader_joe.Entries.Writes.{is_subscription}
use trader_joe.Entries.Operator.{
  operator, OperatorOverrideInput, Ruling, own, overriding, not_allowed, overriding_reason, logged,
  write_row, expiring, collecting, set_expiry_of, operator_set_expiry, write_intent, write_collect,
  set_collecting_of, operator_set_collecting, delete_counted, delete_and_record, audited_always,
  delete_of, operator_delete_entry,
}
use trader_joe.Entries.Rulings.{
  Audits, Records, IsRuled, ruled, audited-Audits, audited_always-Audits, left_log,
}

module _ (meanwhile before_delete : Store → Store) (s : Store) (recording : Bool) (id : ℕ)
    (override : Option OperatorOverrideInput) (now : ℕ) where
  write_row-Audits :
      (e : StoreDatasetEntry) (found : Option StoreDatasetEntry)
      (f : StoreDatasetEntry → StoreDatasetEntry) (ruling : Ruling)
      → IsRuled e.spec.owner override ruling
      → ruling ≢ not_allowed
      → Audits e id set_expiry override s
          (meanwhile s)
          (write_row (meanwhile s) found id f ruling e.spec.owner set_expiry)
  unfolding write_row
  write_row-Audits e none f ruling r h = inr refl
  write_row-Audits e (some _) f ruling r h =
      left_log e id set_expiry override s (meanwhile s) ruling (update_row id f (meanwhile s)) r
        refl h

  write_intent-Audits :
      (e : StoreDatasetEntry) (intent : Option Bool) (collect : Bool) (ruling : Ruling)
      → IsRuled e.spec.owner override ruling
      → ruling ≢ not_allowed
      → Audits e id set_collecting override s
          (meanwhile s)
          (write_intent (meanwhile s) intent id collect ruling e.spec.owner now)
  write_intent-Audits e none collect ruling r h = inr refl
  write_intent-Audits e (some before) collect ruling r h =
      left_log e id set_collecting override s (meanwhile s) ruling
        (update_row id (collecting collect now) (meanwhile s)) r refl h

  write_collect-Audits :
      (e : StoreDatasetEntry) (found : Option StoreDatasetEntry) (collect : Bool) (ruling : Ruling)
      → IsRuled e.spec.owner override ruling
      → ruling ≢ not_allowed
      → Audits e id set_collecting override s
          (meanwhile s)
          (write_collect (meanwhile s) found id collect ruling e.spec.owner now)
  unfolding write_collect
  write_collect-Audits e none collect ruling r h = inr refl
  write_collect-Audits e (some row) collect ruling r h =
      write_intent-Audits e row.collect collect ruling r h

  operator_set_expiry-Audits :
      (expiry : Option ℕ) (e : StoreDatasetEntry)
      → find id s.entries ≡ some e
      → Audits e id set_expiry override s
          (meanwhile s)
          (operator_set_expiry meanwhile s recording id expiry override now)
  unfolding operator_set_expiry set_expiry_of
  operator_set_expiry-Audits expiry e found =
      let ruling = overriding_reason e.spec.owner operator override in
      rw found (
        audited-Audits e id set_expiry override s (meanwhile s) recording ruling _ (λ h.
          write_row-Audits e (find id (meanwhile s).entries) (expiring expiry now) ruling
            (ruled e.spec.owner override) h))

  operator_set_collecting-Audits :
      (collect : Bool) (e : StoreDatasetEntry)
      → find id s.entries ≡ some e
      → Audits e id set_collecting override s
          (meanwhile s)
          (operator_set_collecting meanwhile s recording id collect override now)
  unfolding operator_set_collecting set_collecting_of
  operator_set_collecting-Audits collect e found =
      let ruling = overriding_reason e.spec.owner operator override in
      elim (Bool-cases (is_subscription e.spec.update_type)) [
        | inr h ↦ rw (found, h) (inl refl)
        | inl h ↦
            rw (found, h)
              (audited-Audits e id set_collecting override s (meanwhile s) recording ruling _ (λ k.
                write_collect-Audits e (find id (meanwhile s).entries) collect ruling
                  (ruled e.spec.owner override) k))
      ]

  kept_tables :
      (ruling : Ruling) (row owner : ℕ) (t : Store)
      → ((logged ruling row owner delete t).deletions ≡ t.deletions)
        × ((logged ruling row owner delete t).entries ≡ t.entries)
        × ((logged ruling row owner delete t).bars ≡ t.bars)
  kept_tables own row owner t = (refl, refl, refl)
  kept_tables (overriding reason) row owner t = (refl, refl, refl)
  kept_tables not_allowed row owner t = (refl, refl, refl)

  delete_counted-Audits :
      (e : StoreDatasetEntry) (found : Option StoreDatasetEntry) (bars : ℕ) (t : Store)
      (ruling : Ruling)
      → IsRuled e.spec.owner override ruling
      → ruling ≢ not_allowed
      → Audits e e.id delete override s t
          (delete_counted t found e bars by_operator operator ruling)
  unfolding delete_counted
  delete_counted-Audits e none bars t ruling r h = inr refl
  delete_counted-Audits e (some _) bars t ruling r h =
      left_log e e.id delete override s t ruling _ r refl h

  delete_counted-Records :
      (e : StoreDatasetEntry) (found : Option StoreDatasetEntry) (counted t : Store)
      (ruling : Ruling)
      → Records e counted t
          (delete_counted t found e (counted.bars e.id) by_operator operator ruling)
  unfolding delete_counted
  delete_counted-Records e none counted t ruling = tt
  delete_counted-Records e (some _) counted t ruling =
      let (log, rows, bars) = kept_tables ruling e.id e.spec.owner _ in
      (log, rows, ap (λ (f : ℕ → ℕ). f e.id) bars ∙ rw (==_refl e.id) refl)

  operator_delete_entry-Audits :
      (e : StoreDatasetEntry)
      → find id s.entries ≡ some e
      → Audits e e.id delete override s
          (before_delete (meanwhile s))
          (operator_delete_entry meanwhile before_delete s recording id override)
  unfolding operator_delete_entry delete_of delete_and_record
  operator_delete_entry-Audits e found =
      let ruling = overriding_reason e.spec.owner operator override in
      let t = before_delete (meanwhile s) in
      rw found (
        audited_always-Audits e e.id delete override s t recording ruling _ (λ h.
          delete_counted-Audits e (find e.id t.entries) ((meanwhile s).bars e.id) t ruling
            (ruled e.spec.owner override) h))

  audited_always-Records :
      (e : StoreDatasetEntry) (counted t : Store) (granted : Bool) (ruling : Ruling)
      (next : Attempt (Unit {0}))
      → Records e counted t next
      → Records e counted t (audited_always s granted ruling next)
  audited_always-Records e counted t true own next h = h
  audited_always-Records e counted t false own next h = tt
  audited_always-Records e counted t true (overriding reason) next h = h
  audited_always-Records e counted t false (overriding reason) next h = tt
  audited_always-Records e counted t granted not_allowed next h = tt

  operator_delete_entry-Records :
      (e : StoreDatasetEntry)
      → find id s.entries ≡ some e
      → Records e
          (meanwhile s)
          (before_delete (meanwhile s))
          (operator_delete_entry meanwhile before_delete s recording id override)
  unfolding operator_delete_entry delete_of delete_and_record
  operator_delete_entry-Records e found =
      let ruling = overriding_reason e.spec.owner operator override in
      let t = before_delete (meanwhile s) in
      rw found (
        audited_always-Records e (meanwhile s) t recording ruling _
          (delete_counted-Records e (find e.id t.entries) (meanwhile s) t ruling))

  -- The operator's three writes of a dataset that is there, whatever others commit between their statements. One that
  -- commits on the operator's own dataset leaves the override log as others left it; on another owner's it appends
  -- exactly one row, with the operator as the actor and a confirmed override's stripped reason, which is not blank. One
  -- that refuses leaves the store as it or others left it. A deletion that commits also appends one deletion row with
  -- what was read of the dataset and the number of bars that it had when they were counted, which others can have
  -- changed since, and takes the row and its bars out.
  pub operator_writes-Audits :
      (expiry : Option ℕ) (collect : Bool) (e : StoreDatasetEntry)
      → find id s.entries ≡ some e
      → Audits e id set_expiry override s
          (meanwhile s)
          (operator_set_expiry meanwhile s recording id expiry override now)
        × Audits e id set_collecting override s
            (meanwhile s)
            (operator_set_collecting meanwhile s recording id collect override now)
        × Audits e e.id delete override s
            (before_delete (meanwhile s))
            (operator_delete_entry meanwhile before_delete s recording id override)
        × Records e
            (meanwhile s)
            (before_delete (meanwhile s))
            (operator_delete_entry meanwhile before_delete s recording id override)
  operator_writes-Audits expiry collect e found = (
    operator_set_expiry-Audits expiry e found,
    operator_set_collecting-Audits collect e found,
    operator_delete_entry-Audits e found,
    operator_delete_entry-Records e found,
  )

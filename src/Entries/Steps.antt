-- ===== src/Entries/Steps.antt =====
-- The writes as steps that interleave, and what every one of them keeps.
use trader_joe.Base.{ℕ, inl, inr, Bool, false, Option, none, some, Bool-cases, Option-cases}
use trader_joe.Entries.{
  Range, StoreDatasetEntry, Store, by_operator, store_of, find, find_exact_collision, is_growth,
}
use trader_joe.Entries.Writes.{
  AssetDatasetStoreCreate, range_of, check_own_overlap, key_of, upsert_entry,
  upsert_entry_in_transaction, grow, update_entry, update_entry_lifecycle, delete_entry_by_id,
  is_subscription,
}
use trader_joe.Entries.Operator.{
  OperatorOverrideInput, operator, overriding_reason, set_expiry_of, operator_set_expiry,
  set_collecting_of, operator_set_collecting, delete_of, operator_delete_entry,
}
use trader_joe.Entries.Grown.{write_found}
use trader_joe.Entries.Kept.{IsWellFormed, upsert_entry_in_transaction-IsWellFormed}
use trader_joe.Entries.Branches.{
  owned_row-IsWellFormed, delete_found_row-IsWellFormed, audited-IsWellFormed,
  audited_always-IsWellFormed, touch-IsWellFormed, write_row-IsWellFormed,
  write_collect_of-IsWellFormed, delete_and_record-IsWellFormed,
}

-- One write, with its arguments.
pub data Write : Type 0 where
  upserts : (entry : AssetDatasetStoreCreate) (collect : Option Bool) → Write
  refreshes :
      (entry : AssetDatasetStoreCreate) (preserve_lifecycle : Bool) (collect : Option Bool) → Write
  updates : (id owner start : ℕ) (end : Option ℕ) → Write
  touches : (id owner : ℕ) → Write
  deletes : (id owner : ℕ) → Write
  sets_expiry :
      (recording : Bool) (id : ℕ) (expiry : Option ℕ) (override : Option OperatorOverrideInput)
      → Write
  sets_collecting :
      (recording : Bool) (id : ℕ) (collect : Bool) (override : Option OperatorOverrideInput) → Write
  operator_deletes : (recording : Bool) (id : ℕ) (override : Option OperatorOverrideInput) → Write

-- What a write leaves, when others commit inside it: `others 0` after its
-- first statement and `others 1` after the second, where it makes three.
unfoldable pub apply : (ℕ → Store → Store) → ℕ → Write → Store → Store
apply others now (upserts entry collect) s = store_of (upsert_entry (others 0) s entry collect now)
apply others now (refreshes entry preserve_lifecycle collect) s =
    (upsert_entry_in_transaction s entry preserve_lifecycle collect now).0
apply others now (updates id owner start end) s =
    store_of (update_entry (others 0) (others 1) s id owner start end now)
apply others now (touches id owner) s = store_of (update_entry_lifecycle (others 0) s id owner now)
apply others now (deletes id owner) s = store_of (delete_entry_by_id (others 0) s id owner)
apply others now (sets_expiry recording id expiry override) s =
    store_of (operator_set_expiry (others 0) s recording id expiry override now)
apply others now (sets_collecting recording id collect override) s =
    store_of (operator_set_collecting (others 0) s recording id collect override now)
apply others now (operator_deletes recording id override) s =
    store_of (operator_delete_entry (others 0) (others 1) s recording id override)

module _ (others : ℕ → Store → Store)
    (kept : (n : ℕ) (s : Store) → IsWellFormed s → IsWellFormed (others n s)) where
  grow-IsWellFormed :
      (s : Store) (range : Range) (now : ℕ) (e : StoreDatasetEntry)
      → IsWellFormed s
      → IsWellFormed (store_of (grow (others 0) (others 1) s range now e))
  unfolding grow
  grow-IsWellFormed s range now e w = elim (Bool-cases (is_growth e.range range)) [
    | inr h ↦ rw h w
    | inl h ↦ elim (Option-cases (find_exact_collision (others 0 s) e range)) [
      | inl free ↦
          rw (h, free)
            (write_found (others 1 (others 0 s)) e.id range now (kept 1 (others 0 s) (kept 0 s w)))
      | inr (other, taken) ↦ rw (h, taken) (kept 0 s w)
    ]
  ]

  upsert_entry-IsWellFormed :
      (s : Store) (entry : AssetDatasetStoreCreate) (collect : Option Bool) (now : ℕ)
      → IsWellFormed s
      → IsWellFormed (store_of (upsert_entry (others 0) s entry collect now))
  unfolding upsert_entry
  upsert_entry-IsWellFormed s entry collect now w =
      elim (Option-cases (check_own_overlap s (key_of entry))) [
        | inl e ↦
            rw (e, store_of)
              (upsert_entry_in_transaction-IsWellFormed (others 0 s) entry false collect now
                (kept 0 s w))
        | inr (refusal, e) ↦ rw (e, store_of) w
      ]

  set_expiry_of-IsWellFormed :
      (s : Store) (recording : Bool) (id : ℕ) (expiry : Option ℕ)
      (override : Option OperatorOverrideInput) (now : ℕ) (found : Option StoreDatasetEntry)
      → IsWellFormed s
      → IsWellFormed (store_of (set_expiry_of (others 0) s recording id expiry override now found))
  unfolding set_expiry_of
  set_expiry_of-IsWellFormed s recording id expiry override now none w = w
  set_expiry_of-IsWellFormed s recording id expiry override now (some e) w =
      let ruling = overriding_reason e.spec.owner operator override in
      audited-IsWellFormed s recording ruling _ w (
        write_row-IsWellFormed (others 0 s) (find id (others 0 s).entries) id expiry now ruling
          e.spec.owner (kept 0 s w))

  set_collecting_of-IsWellFormed :
      (s : Store) (recording : Bool) (id : ℕ) (collect : Bool)
      (override : Option OperatorOverrideInput) (now : ℕ) (found : Option StoreDatasetEntry)
      → IsWellFormed s
      → IsWellFormed
          (store_of (set_collecting_of (others 0) s recording id collect override now found))
  unfolding set_collecting_of
  set_collecting_of-IsWellFormed s recording id collect override now none w = w
  set_collecting_of-IsWellFormed s recording id collect override now (some e) w =
      let ruling = overriding_reason e.spec.owner operator override in
      elim (Bool-cases (is_subscription e.spec.update_type)) [
        | inr h ↦ rw h w
        | inl h ↦ rw h (
            audited-IsWellFormed s recording ruling _ w (
              write_collect_of-IsWellFormed (others 0 s) id collect ruling e.spec.owner now
                (kept 0 s w)))
      ]

  delete_of-IsWellFormed :
      (s : Store) (recording : Bool) (id : ℕ) (override : Option OperatorOverrideInput)
      (found : Option StoreDatasetEntry)
      → IsWellFormed s
      → IsWellFormed (store_of (delete_of (others 0) (others 1) s recording id override found))
  unfolding delete_of
  delete_of-IsWellFormed s recording id override none w = w
  delete_of-IsWellFormed s recording id override (some e) w =
      let ruling = overriding_reason e.spec.owner operator override in
      audited_always-IsWellFormed s recording ruling _ w (
        delete_and_record-IsWellFormed (others 1) (kept 1) (others 0 s) e by_operator operator
          ruling (kept 0 s w))

  -- Every write keeps the table well formed, whether it commits or refuses, provided that what others commit inside it
  -- does: no two rows share an id or an identity, every id was issued, and exactly the subscriptions have a collect
  -- intent.
  pub apply-IsWellFormed :
      (now : ℕ) (write : Write) (s : Store)
      → IsWellFormed s
      → IsWellFormed (apply others now write s)
  unfolding apply operator_set_expiry operator_set_collecting operator_delete_entry update_entry
      update_entry_lifecycle delete_entry_by_id
  apply-IsWellFormed now (upserts entry collect) s w =
      upsert_entry-IsWellFormed s entry collect now w
  apply-IsWellFormed now (refreshes entry preserve_lifecycle collect) s w =
      upsert_entry_in_transaction-IsWellFormed s entry preserve_lifecycle collect now w
  apply-IsWellFormed now (updates id owner start end) s w =
      owned_row-IsWellFormed s (find id s.entries) id owner _ w
        (λ e. grow-IsWellFormed s (range_of start end) now e w)
  apply-IsWellFormed now (touches id owner) s w =
      owned_row-IsWellFormed s (find id s.entries) id owner _ w
        (λ e. touch-IsWellFormed (others 0 s) id now (kept 0 s w))
  apply-IsWellFormed now (deletes id owner) s w =
      owned_row-IsWellFormed s (find id s.entries) id owner _ w (λ e.
        delete_found_row-IsWellFormed (others 0 s) (find id (others 0 s).entries) id (kept 0 s w))
  apply-IsWellFormed now (sets_expiry recording id expiry override) s w =
      set_expiry_of-IsWellFormed s recording id expiry override now (find id s.entries) w
  apply-IsWellFormed now (sets_collecting recording id collect override) s w =
      set_collecting_of-IsWellFormed s recording id collect override now (find id s.entries) w
  apply-IsWellFormed now (operator_deletes recording id override) s w =
      delete_of-IsWellFormed s recording id override (find id s.entries) w

-- ===== src/Usage/Buffer.antt =====
-- The recorder's buffer and the account of the reads it takes in.
use trader_joe.Base.{
  ℕ, ◌+◌, ◌-◌, ◌≤◌, ◌≡◌, refl, List, [], ◌∷◌, ◌++◌, arith, length, length-append, length-drop,
}
use trader_joe.Usage.{
  NewRead, UsageRecorder, usage_recorder, trim, wake_if_full, append, append_all, Flushed,
}

-- The buffer is within its bound.
pub IsBounded : UsageRecorder → Type 0
IsBounded r = length r.buffer ≤ r.buffer_max

-- What has been taken in and is not yet written.
abbrev pub held : UsageRecorder → ℕ
held r = r.dropped + length r.buffer

trim_lem :
    (r : UsageRecorder)
    → IsBounded (trim r) × (held (trim r) ≡ held r) × ((trim r).buffer_max ≡ r.buffer_max)
unfolding IsBounded trim
trim_lem r =
    let shorter = length-drop (length r.buffer - r.buffer_max) r.buffer in
    (omega (arith, shorter), omega (arith, shorter), refl)

append_lem :
    (r : UsageRecorder) (read : NewRead)
    → IsBounded (append r read) × (held (append r read) ≡ held r + 1)
unfolding append wake_if_full IsBounded
append_lem r read =
    let longer = length-append r.buffer (read ∷ []) in
    let (bounded, kept, _) = trim_lem (record r { buffer = r.buffer ++ (read ∷ []) }) in
    (bounded, omega (arith, kept, longer))

append_all_lem :
    (r : UsageRecorder) (reads : List NewRead)
    → IsBounded r
    → IsBounded (append_all r reads) × (held (append_all r reads) ≡ held r + length reads)
unfolding append_all
append_all_lem r [] b = (b, omega arith)
append_all_lem r (read ∷ reads) b =
    let (bounded, counted) = append_lem r read in
    let (b', counted') = append_all_lem (append r read) reads bounded in
    (b', omega (arith, counted, counted'))

abbrev pub Accounts : ℕ → Flushed → Type 0
Accounts taken f = IsBounded f.recorder × (length f.rows + held f.recorder ≡ taken)

-- However many reads are recorded in a row, the buffer stays within its bound, and the reads in it and those counted
-- as dropped are all that were recorded.
pub append_all-usage_recorder :
    (flush_batch_size buffer_max : ℕ) (reads : List NewRead)
    → IsBounded (append_all (usage_recorder flush_batch_size buffer_max) reads)
      × (held (append_all (usage_recorder flush_batch_size buffer_max) reads) ≡ length reads)
unfolding IsBounded usage_recorder
append_all-usage_recorder flush_batch_size buffer_max reads =
    let (bounded, counted) =
      append_all_lem (usage_recorder flush_batch_size buffer_max) reads (omega arith) in
    (bounded, omega (arith, counted))

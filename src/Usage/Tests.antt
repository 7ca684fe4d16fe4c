-- ===== src/Usage/Tests.antt =====
-- The recorder with a batch of two and a buffer of three, and the labels that are refused.
use trader_joe.Base.{ℕ, ◌≤◌, ◌≡◌, refl, true, false, some, List, [], ◌∷◌, max, All, length}
use trader_joe.Usage.{
  ui, sdk, classify_client_label, operator_principal, unattributed_label, refusal,
  has_control_character, NewRead, Seen, cap_all, max_ids_per_dataset_day, UsageRecorder,
  usage_recorder, append, append_all, trim, wake_if_full,
}
use trader_joe.Usage.Cap.{IsSeen, cap_all_lem}

abbrev a_read : NewRead
a_read = record {
  dataset_id = 1;
  client_id = 97 ∷ [];
  client_kind = sdk;
  route = 114 ∷ [];
  bars_returned = 5;
  read_at = 0;
}

abbrev four : List NewRead
four = a_read ∷ a_read ∷ a_read ∷ a_read ∷ []

abbrev one_buffered : UsageRecorder
one_buffered = record {
  flush_batch_size = 2;
  buffer_max = 3;
  wake = false;
  buffer = a_read ∷ [];
  dropped = 0;
  tables_ready = true;
  warned_missing = false;
}

abbrev nobody : Seen
nobody d t = []

program : Unit {0}
unfolding classify_client_label refusal has_control_character usage_recorder append append_all trim
    wake_if_full
program = tt

operator_is_ui : (classify_client_label (some operator_principal)).client_kind ≡ ui
unfolding program
operator_is_ui = refl

reserved_is_refused : classify_client_label (some (95 ∷ 97 ∷ [])) ≡ unattributed_label
unfolding program
reserved_is_refused = refl

oldest_dropped : (append_all (usage_recorder 2 3) four).dropped ≡ 1
unfolding program
oldest_dropped = refl

cap_all_lem_example :
    (length (cap_all nobody four).1 ≡ 4)
    × All (IsSeen (cap_all nobody four).0) (cap_all nobody four).1
    × ((d t : ℕ) → length ((cap_all nobody four).0 d t) ≤ max max_ids_per_dataset_day 0)
cap_all_lem_example = cap_all_lem nobody four

-- ===== src/Settings/Mutation.antt =====
-- src/settings.rs: `mutate_store`, the transaction that every writing request goes through. It takes
-- place under the store's exclusive lock, so that the file does not change in between.
pub mod Atomic
pub mod Bounds
pub mod Reopening
pub mod Replay
use agent_runner_opencode.Prelude.{
  ltb, leb, if◌then◌else◌, length, lookup, insert_key, retain, ℕ, ◌-◌, Bool, ◌&&◌, ◌||◌, not,
  Option, none, some, List, ◌==◌,
}
use agent_runner_opencode.Json.{Value}
use agent_runner_opencode.Failure.{Result, ok, err, ◌>>=◌, ◌>>◌, refuse_if}
use agent_runner_opencode.Settings.Store.{
  max_settings_store_bytes, max_settings_records, max_settings_history_events,
  max_settings_mutation_receipts, settings_receipt_retention_ms, SettingsRecord,
  SettingsMutationReceipt, SettingsStore, Platform, settings_capacity_failure,
  settings_mutation_request_conflict,
}
use agent_runner_opencode.Settings.Requests.{Clock, Change}
use agent_runner_opencode.Settings.History.{Request, append_settings_history}
use agent_runner_opencode.Settings.Persistence.{
  System, ensure_contained, ensure_config_root, acquire_store_lock, read_store_path,
  serialize_store, write_store_path,
}

-- `now.saturating_sub(recorded) <= retention`
abbrev pub is_retained : ℕ → SettingsMutationReceipt → Bool
is_retained now receipt = leb (now - receipt.recorded_at_unix_ms) settings_receipt_retention_ms

unfoldable pub prune_expired_settings_receipts : SettingsStore → ℕ → SettingsStore
prune_expired_settings_receipts store now = record store {
  mutation_receipts = retain (is_retained now) store.mutation_receipts;
}

abbrev pub same_binding : Request → SettingsMutationReceipt → Bool
same_binding request receipt =
    receipt.operation == request.operation && receipt.binding_sha256 == request.binding_sha256

module _ (p : Platform) (clock : Clock) (system : System) (request : Request) where
  open request use {request_id, operation, binding_sha256}

  abbrev pub exceeds_capacity : SettingsStore → ℕ → Bool
  exceeds_capacity store size =
      ltb max_settings_records (length store.records)
      || ltb max_settings_history_events (length store.history)
      || ltb max_settings_mutation_receipts (length store.mutation_receipts)
      || ltb max_settings_store_bytes size

  abbrev pub receipt_of : Value → SettingsMutationReceipt
  receipt_of result = record {
    operation = operation;
    binding_sha256 = binding_sha256;
    result = result;
    recorded_at_unix_ms = clock.receipt_now;
  }

  -- The history event and the receipt of a change.
  unfoldable pub recorded : List SettingsRecord → SettingsStore × Value → SettingsStore
  unfolding append_settings_history
  recorded before (changed, result) =
      let logged = append_settings_history p request clock.history_now before changed in
      record logged {
        mutation_receipts = insert_key request_id (receipt_of result) logged.mutation_receipts;
      }

  -- The check of the serialized size and of the steady-state bounds.
  unfoldable pub admitted : SettingsStore → Value → Change
  admitted next result = do
    bytes ← serialize_store p next request_id
    refuse_if (exceeds_capacity next (length (p.octets bytes)))
        (settings_capacity_failure request_id)
    ok (next, result)

  -- `mutate_store` between the receipt's lookup and the write: the store to write and the result.
  unfoldable pub mutated : (SettingsStore → Change) → SettingsStore → Change
  unfolding admitted
  mutated mutation store = do
    let pruned = prune_expired_settings_receipts store clock.prune_now
    refuse_if
        (leb max_settings_mutation_receipts (length pruned.mutation_receipts)
          && not store.predecessor_capacity_recovery)
        (settings_capacity_failure request_id)
    change ← mutation pruned
    admitted (recorded pruned.records change) change.1

  abbrev pub answered : Value → Result (Unit {0}) → Result Value
  answered result (ok done) = ok result
  answered result (err e) = err e

  unfoldable pub committed : Change → Option p.Bytes → Result Value × Option p.Bytes
  committed (err e) file = (err e, file)
  committed (ok (next, result)) file =
      let (written, file') = write_store_path p system next request_id file in
      (answered result written, file')

  -- A request whose receipt is there is answered from it, or refused.
  unfoldable pub replayed : SettingsMutationReceipt → Result Value
  replayed receipt =
      if same_binding request receipt
      then ok receipt.result
      else err (settings_mutation_request_conflict request_id)

  unfoldable pub decided :
      (SettingsStore → Change)
      → SettingsStore
      → Option SettingsMutationReceipt
      → Option p.Bytes
      → Result Value × Option p.Bytes
  unfolding replayed committed mutated
  decided mutation store (some receipt) file = (replayed receipt, file)
  decided mutation store none file = committed (mutated mutation store) file

  -- What `mutate_store` does before it looks at receipts.
  unfoldable pub opened : Option p.Bytes → Result SettingsStore
  opened file = do
    ensure_config_root system request_id
    ensure_contained system.parent_confined request_id
    ensure_contained system.store_confined request_id
    acquire_store_lock system request_id
    read_store_path p system request_id file

  unfoldable pub run_opened :
      (SettingsStore → Change)
      → Result SettingsStore
      → Option p.Bytes
      → Result Value × Option p.Bytes
  unfolding decided
  run_opened mutation (err e) file = (err e, file)
  run_opened mutation (ok store) file =
      decided mutation store (lookup request_id store.mutation_receipts) file

  -- The answer of a mutation, and the store file after it.
  unfoldable pub mutate_store :
      (SettingsStore → Change) → Option p.Bytes → Result Value × Option p.Bytes
  unfolding opened run_opened
  mutate_store mutation file = run_opened mutation (opened file) file

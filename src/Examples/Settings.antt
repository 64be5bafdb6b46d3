-- ===== src/Examples/Settings.antt =====
-- Tests and examples of the settings store.
use agent_runner_opencode.Settings.Handler.{settings_delete, asked, handled, handled-DistinctIds}
use agent_runner_opencode.Settings.Records.Laws.{DistinctIds}
use agent_runner_opencode.Settings.Records.{id_taken}
use agent_runner_opencode.Prelude.{
  length, lookup, insert_key, retain, ◌≡◌, refl, sym, ap, ◌∙◌, subst, ◌≢◌, ◌⊎◌, Bool, true, Option,
  some, arith,
}
use agent_runner_opencode.Failure.{internal, err, ok}
use agent_runner_opencode.Json.{Value}
use agent_runner_opencode.Settings.Store.{
  SettingsStore, is_plain_store, settings_not_found_failure, settings_mutation_request_conflict,
}
use agent_runner_opencode.Settings.History.Chain.{IsChain}
use agent_runner_opencode.Settings.Requests.{settings_delete_result, Change, delete}
use agent_runner_opencode.Settings.Requests.Created.{ok_inj}
use agent_runner_opencode.Settings.Requests.Changes.{delete-ChangesRecords}
use agent_runner_opencode.Settings.Persistence.{
  System, acquire_store_lock, read_file_bounded_or, upgrade_persisted_store, read_store_bytes,
  parse_store_bytes, read_store_path, write_store_path,
}
use agent_runner_opencode.Settings.Mutation.{
  prune_expired_settings_receipts, receipt_of, recorded, mutated, opened, mutate_store,
}
use agent_runner_opencode.Settings.Mutation.Atomic.{mutate_store_atomic}
use agent_runner_opencode.Settings.Mutation.Bounds.{
  ChangesRecords, IsNumbered, WithinBounds, mutate_store_written,
}
use agent_runner_opencode.Settings.Mutation.Replay.{
  WritesPlain, rebound, mutate_store_replays, mutate_store_conflicts, mutate_store_recovers,
}
use agent_runner_opencode.Json.Plain.{is_plain}
use agent_runner_opencode.Settings.Values.{migrated_values_for_account}
use agent_runner_opencode.Settings.History.{new_event}
use agent_runner_opencode.Examples.Data.{
  platform, platform-DecodesEncoded, clock, system, system-CanOpen, request, two_records, deletion,
  unsynced_system,
}

-- The removal of a record, as a request asks for it.
abbrev removal : SettingsStore → Change
removal = delete platform clock "request-1" (some deletion)

-- The file that stands for a store with two records.
abbrev stored : Option platform.Bytes
stored = some two_records

removal-ChangesRecords : ChangesRecords removal
removal-ChangesRecords = delete-ChangesRecords platform clock "request-1" (some deletion)

removal_answers :
    (mutate_store platform clock system request removal stored).0
    ≡ ok (settings_delete_result "main")
unfolding mutate_store delete acquire_store_lock read_store_path read_store_bytes
    read_file_bounded_or parse_store_bytes upgrade_persisted_store prune_expired_settings_receipts
    retain recorded insert_key write_store_path
removal_answers = refl

unsynced_answers :
    (mutate_store platform clock unsynced_system request removal stored).0
    ≡ err (internal "request-1" "settings_store_parent_sync_failed")
unfolding mutate_store delete acquire_store_lock read_store_path read_store_bytes
    read_file_bounded_or parse_store_bytes upgrade_persisted_store prune_expired_settings_receipts
    retain recorded insert_key write_store_path
unsynced_answers = refl

unsynced_changes : (mutate_store platform clock unsynced_system request removal stored).1 ≢ stored
unfolding mutate_store delete acquire_store_lock read_store_path read_store_bytes
    read_file_bounded_or parse_store_bytes upgrade_persisted_store prune_expired_settings_receipts
    retain recorded insert_key write_store_path
unsynced_changes h = cc h

-- Is the store that is written plain?
abbrev is_plain_change : Change → Bool
is_plain_change (err e) = true
is_plain_change (ok (next, result)) = is_plain_store next

removal_plain :
    (s : System) → is_plain_change (mutated platform clock s request removal two_records) ≡ true
unfolding mutated delete prune_expired_settings_receipts retain recorded insert_key is_plain_store
    is_plain migrated_values_for_account new_event
removal_plain s = refl

written_plain :
    (s : System) (store next : SettingsStore) (result : Value)
    → two_records ≡ store
    → mutated platform clock s request removal store ≡ ok (next, result)
    → is_plain_store next ≡ true
written_plain s store next result same made =
    sym (ap is_plain_change (ap (mutated platform clock s request removal) same ∙ made))
    ∙ removal_plain s

removal-WritesPlain : WritesPlain platform clock system request removal stored
unfolding opened acquire_store_lock read_store_path read_store_bytes read_file_bounded_or
    parse_store_bytes upgrade_persisted_store
removal-WritesPlain store next result opens made =
    written_plain system store next result (ok_inj opens) made

unsynced-WritesPlain : WritesPlain platform clock unsynced_system request removal stored
unfolding opened acquire_store_lock read_store_path read_store_bytes read_file_bounded_or
    parse_store_bytes upgrade_persisted_store
unsynced-WritesPlain store next result opens made =
    written_plain unsynced_system store next result (ok_inj opens) made

mutate_store_replays_example :
    mutate_store platform clock system request removal
      (mutate_store platform clock system request removal stored).1
    ≡ (
      ok (settings_delete_result "main"),
      (mutate_store platform clock system request removal stored).1,
    )
mutate_store_replays_example =
    mutate_store_replays platform clock clock system system request removal platform-DecodesEncoded
      removal-ChangesRecords system-CanOpen stored removal-WritesPlain removal
      (settings_delete_result "main") removal_answers

mutate_store_conflicts_example :
    mutate_store platform clock system
      (rebound request "settings.create" "b2")
      removal
      (mutate_store platform clock system request removal stored).1
    ≡ (
      err (settings_mutation_request_conflict "request-1"),
      (mutate_store platform clock system request removal stored).1,
    )
mutate_store_conflicts_example =
    mutate_store_conflicts platform clock clock system system request removal
      platform-DecodesEncoded removal-ChangesRecords system-CanOpen stored removal-WritesPlain
      removal "settings.create" "b2" (settings_delete_result "main") refl removal_answers

mutate_store_recovers_example :
    let outcome = mutate_store platform clock unsynced_system request removal stored in
    (v : Value) × (mutate_store platform clock system request removal outcome.1 ≡ (ok v, outcome.1))
mutate_store_recovers_example =
    mutate_store_recovers platform clock clock unsynced_system system request removal
      platform-DecodesEncoded removal-ChangesRecords system-CanOpen stored unsynced-WritesPlain
      removal unsynced_changes

opened-IsNumbered :
    (store : SettingsStore)
    → opened platform clock system request stored ≡ ok store
    → IsNumbered store.history
unfolding opened acquire_store_lock read_store_path read_store_bytes read_file_bounded_or
    parse_store_bytes upgrade_persisted_store
opened-IsNumbered store h =
    let same : two_records ≡ store = ok_inj h in
    subst (λ (s : SettingsStore). IsNumbered s.history) same (tt, omega arith)

mutate_store_written_example :
    let outcome = mutate_store platform clock system request removal stored in
    (outcome.1 ≡ stored)
    ⊎ ((next : SettingsStore) × (bytes : SettingsStore) × (result : Value) × (outcome.1
          ≡ some bytes)
        × (platform.encode next ≡ some bytes)
        × WithinBounds next (length (platform.octets bytes))
        × IsChain next.history
        × (lookup "request-1" next.mutation_receipts
            ≡ some (receipt_of platform clock system request result)))
mutate_store_written_example =
    mutate_store_written platform clock system request removal stored removal-ChangesRecords
      opened-IsNumbered

-- The removal of a record that is not there.
abbrev absent_removal : SettingsStore → Change
absent_removal = delete platform clock "request-1" (some (record deletion { id = "absent" }))

absent_answers :
    (mutate_store platform clock system request absent_removal stored).0
    ≡ err (settings_not_found_failure "request-1")
unfolding mutate_store delete acquire_store_lock read_store_path read_store_bytes
    read_file_bounded_or parse_store_bytes upgrade_persisted_store prune_expired_settings_receipts
    retain recorded insert_key write_store_path
absent_answers = refl

mutate_store_atomic_example :
    (mutate_store platform clock system request absent_removal stored).1 ≡ stored
mutate_store_atomic_example =
    mutate_store_atomic platform clock system request absent_removal stored
      (settings_not_found_failure "request-1") absent_answers (λ h. cc h)

opened-DistinctIds :
    (store : SettingsStore)
    → opened platform clock system
        (asked platform clock system request (settings_delete (some deletion)))
        stored
      ≡ ok store
    → DistinctIds store.records
unfolding opened acquire_store_lock read_store_path read_store_bytes read_file_bounded_or
    parse_store_bytes upgrade_persisted_store id_taken
opened-DistinctIds store h =
    let same : two_records ≡ store = ok_inj h in
    subst (λ (s : SettingsStore). DistinctIds s.records) same (refl, (refl, tt))

handled-DistinctIds_example :
    let outcome = handled platform clock system request (settings_delete (some deletion)) stored in
    (outcome.1 ≡ stored)
    ⊎ ((next : SettingsStore) × (bytes : SettingsStore) × (outcome.1 ≡ some bytes)
        × (platform.encode next ≡ some bytes)
        × DistinctIds next.records)
handled-DistinctIds_example =
    handled-DistinctIds platform clock system request (settings_delete (some deletion)) stored
      opened-DistinctIds

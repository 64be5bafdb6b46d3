-- ===== src/Examples/Requests.antt =====
-- Tests and examples of the requests that change the records of a store.
use agent_runner_opencode.Prelude.{
  length, find, All, ℕ, zero, suc, ◌+◌, ◌≤◌, ◌<◌, String, ◌≡◌, refl, sym, ◌≢◌, true, false, none,
  some, [], ◌∷◌, arith, ◌==◌, eq_iff,
}
use agent_runner_opencode.Failure.{err, ok}
use agent_runner_opencode.Json.{Value, object}
use agent_runner_opencode.Account.{account_for_wrapper, profile_for_wrapper_reference}
use agent_runner_opencode.Settings.Store.{
  max_settings_history_events, SettingsRecord, SettingsStore, default_store,
  stale_settings_version_failure,
}
use agent_runner_opencode.Settings.Definition.{wrapper_value, validate_values}
use agent_runner_opencode.Settings.Definition.Sound.{IsRoutable, validate_values-IsRoutable}
use agent_runner_opencode.Settings.History.{
  last_event, event_digest, event_body, new_event, append_settings_history,
}
use agent_runner_opencode.Settings.History.Chain.{IsChain, append_settings_history-IsChain}
use agent_runner_opencode.Settings.Values.{
  is_secret_key, sanitize_value, normalize_settings_value, migrated_values_for_account,
}
use agent_runner_opencode.Settings.Records.{
  version_token, update_record, settings_id_base, settings_id_for_base, id_taken,
  unique_settings_id,
}
use agent_runner_opencode.Settings.Records.Laws.{DistinctIds}
use agent_runner_opencode.Settings.Records.Fresh.{unique_settings_id_total}
use agent_runner_opencode.Settings.Requests.{
  settings_record_result, settings_delete_result, candidate, new_record, create, update, delete,
  PersistedRuntimeRecord, resolve_persisted_runtime_record,
}
use agent_runner_opencode.Settings.Requests.Created.{create_total}
use agent_runner_opencode.Settings.Requests.Changes.{update_lost}
use agent_runner_opencode.Settings.Requests.Effects.{update_writes, delete_frees}
use agent_runner_opencode.Settings.Requests.Routes.{RoutesTo, resolve_valid}
use agent_runner_opencode.Settings.Migration.{
  LegacyTable, legacy_provider_activations, upsert_all, legacy_actions, settings_migrate_result,
  migrate,
}
use agent_runner_opencode.Settings.Migration.Activated.{Resolves, migrate-Resolves}
use agent_runner_opencode.Examples.Data.{
  platform, clock, request, stored_values, first_record, second_record, two_records, deletion,
  update_fields, creation,
}

-- The store after the update, which has the one changed record first.
abbrev updated_store : SettingsStore
updated_store =
    update_record platform (clock.version_now 0) two_records 0 "main"
      (normalize_settings_value (sanitize_value stored_values)) "request-1"

stored_valid : validate_values (normalize_settings_value (sanitize_value stored_values)) ≡ []
unfolding validate_values normalize_settings_value sanitize_value migrated_values_for_account
    is_secret_key profile_for_wrapper_reference account_for_wrapper
stored_valid = refl

updates :
    (update platform clock "request-1" (some update_fields) two_records)
    ≡ ok (
      updated_store,
      settings_record_result
          (record first_record {
            version =
                version_token platform
                  (clock.version_now 0)
                  "main"
                  (normalize_settings_value (sanitize_value stored_values))
                  "request-1";
            values = normalize_settings_value (sanitize_value stored_values);
          })
          [],
    )
unfolding update validate_values normalize_settings_value sanitize_value migrated_values_for_account
    is_secret_key profile_for_wrapper_reference account_for_wrapper
updates = refl

-- What the update answers with.
abbrev updated_result : Value
updated_result =
    settings_record_result
      (record first_record {
        version =
            version_token platform (clock.version_now 0) "main"
              (normalize_settings_value (sanitize_value stored_values)) "request-1";
        values = normalize_settings_value (sanitize_value stored_values);
      })
      []

two_distinct : DistinctIds two_records.records
unfolding id_taken
two_distinct = (refl, (refl, tt))

update_writes_example :
    let vs = normalize_settings_value (sanitize_value stored_values) in
    let token = version_token platform (clock.version_now 0) "main" vs "request-1" in
    (old : SettingsRecord) × (validate_values vs ≡ [])
    × (find (λ r. r.id == "main") two_records.records ≡ some old)
    × (old.version ≡ "v1")
    × (find (λ r. r.id == "main") updated_store.records
        ≡ some (record old { version = token; values = vs }))
update_writes_example =
    update_writes platform clock "request-1" update_fields two_records updated_store updated_result
      updates

token_renewed :
    (version_token platform
        (clock.version_now 0)
        "main"
        (normalize_settings_value (sanitize_value stored_values))
        "request-1"
      == "v1")
    ≡ false
unfolding version_token
token_renewed = refl

update_lost_example :
    update platform clock "request-2" (some update_fields) updated_store
    ≡ err (stale_settings_version_failure "request-2")
update_lost_example =
    update_lost platform clock "request-1" update_fields two_records updated_store updated_result
      updates token_renewed clock "request-2" stored_values stored_valid

-- The store after the removal.
abbrev removed_store : SettingsStore
removed_store = record two_records { records = second_record ∷ [] }

deletes :
    delete platform clock "request-1" (some deletion) two_records
    ≡ ok (removed_store, settings_delete_result "main")
unfolding delete
deletes = refl

delete_frees_example :
    (old : SettingsRecord) × (find (λ r. r.id == "main") two_records.records ≡ some old)
    × (old.version ≡ "v1")
    × DistinctIds removed_store.records
    × (id_taken removed_store.records "main" ≡ false)
delete_frees_example =
    delete_frees platform clock "request-1" deletion two_records removed_store
      (settings_delete_result "main") deletes two_distinct

-- A store with one record, and the two candidates that a create tries there.
abbrev one_record : SettingsStore
one_record = record default_store { records = first_record ∷ [] }

abbrev candidates : ℕ → String
candidates =
    candidate platform clock "request-1" (normalize_settings_value (sanitize_value stored_values))

candidates_apart : candidates 0 ≢ candidates 1
unfolding settings_id_for_base settings_id_base validate_values normalize_settings_value
    sanitize_value migrated_values_for_account is_secret_key profile_for_wrapper_reference
    account_for_wrapper
candidates_apart h =
    let differ : (candidates 0 == candidates 1) ≡ false = refl in
    let same : (candidates 0 == candidates 1) ≡ true = (eq_iff (candidates 0) (candidates 1)).1 h in
    cc (differ, same)

candidates_distinct :
    (i j : ℕ)
    → i < length one_record.records + 1
    → j < length one_record.records + 1
    → candidates i ≡ candidates j
    → i ≡ j
candidates_distinct zero zero h k e = refl
candidates_distinct zero (suc zero) h k e = absurd (candidates_apart e)
candidates_distinct (suc zero) zero h k e = absurd (candidates_apart (sym e))
candidates_distinct (suc zero) (suc zero) h k e = refl
candidates_distinct (suc (suc i)) j h k e = absurd (omega (arith, h))
candidates_distinct i (suc (suc j)) h k e = absurd (omega (arith, k))

create_total_example :
    (changed : SettingsStore) × (v : Value) × (create platform clock "request-1"
        (some creation)
        one_record
      ≡ ok (changed, v))
create_total_example =
    create_total platform clock "request-1" creation one_record stored_valid candidates_distinct

unique_settings_id_total_example :
    (id : String) × (unique_settings_id one_record candidates ≡ some id)
    × (id_taken one_record.records id ≡ false)
unique_settings_id_total_example =
    unique_settings_id_total candidates one_record candidates_distinct

stored_as_valid : validate_values stored_values ≡ []
unfolding validate_values normalize_settings_value sanitize_value migrated_values_for_account
    is_secret_key profile_for_wrapper_reference account_for_wrapper
stored_as_valid = refl

resolve_valid_example :
    (resolved : PersistedRuntimeRecord) × (resolve_persisted_runtime_record two_records "main"
        "request-1"
      ≡ ok resolved)
    × (resolved.record_id ≡ "main")
    × (resolved.record_version ≡ "v1")
    × (account_for_wrapper (wrapper_value stored_values) ≡ some resolved.account)
    × RoutesTo stored_values resolved.model
resolve_valid_example =
    resolve_valid two_records "main" "request-1" first_record refl stored_as_valid

validate_values-IsRoutable_example : IsRoutable stored_values
validate_values-IsRoutable_example = validate_values-IsRoutable stored_values stored_as_valid

-- A legacy table of two providers.
abbrev legacy_table : LegacyTable
legacy_table = ("main", some "opencode2") ∷ ("fresh", some "opencode") ∷ []

migrates :
    migrate platform clock "request-1" (some (some legacy_table)) two_records
    ≡ ok (
      upsert_all platform clock "request-1" 0 two_records
          (legacy_provider_activations (some legacy_table)),
      settings_migrate_result (legacy_actions (some legacy_table)) false [],
    )
unfolding migrate profile_for_wrapper_reference account_for_wrapper
migrates = refl

migrate-Resolves_example :
    All
      (Resolves platform clock "request-1"
        (upsert_all platform clock "request-1" 0 two_records
          (legacy_provider_activations (some legacy_table)))
        "request-2")
      (legacy_provider_activations (some legacy_table))
migrate-Resolves_example =
    migrate-Resolves platform clock "request-1" legacy_table two_records
      (upsert_all platform clock "request-1" 0 two_records
        (legacy_provider_activations (some legacy_table)))
      (settings_migrate_result (legacy_actions (some legacy_table)) false []) "request-2"
      ((refl, tt), (tt, tt)) migrates

append_settings_history-IsChain_example :
    let appended = append_settings_history platform request 30 [] two_records in
    IsChain appended.history
    × (length appended.history ≤ max_settings_history_events)
    × (last_event appended.history ≡ some (new_event platform request 30 [] two_records))
    × (event_digest (last_event appended.history)
        ≡ platform.sha256_hex
            (platform.print (object (event_body platform request 30 [] two_records))))
append_settings_history-IsChain_example =
    append_settings_history-IsChain platform request 30 [] two_records tt (omega arith)

-- What a create makes of the store with one record.
abbrev created_store : SettingsStore
created_store = record one_record {
  records =
      first_record
      ∷ new_record platform clock "request-1" none
          (normalize_settings_value (sanitize_value stored_values)) (candidates 0)
      ∷ [];
}

one_distinct : DistinctIds one_record.records
unfolding id_taken
one_distinct = (refl, tt)

creates :
    create platform clock "request-1" (some creation) one_record
    ≡ ok (
      created_store,
      settings_record_result
          (new_record platform clock "request-1" none
            (normalize_settings_value (sanitize_value stored_values))
            (candidates 0))
          [],
    )
unfolding create settings_id_for_base settings_id_base validate_values normalize_settings_value
    sanitize_value migrated_values_for_account is_secret_key profile_for_wrapper_reference
    account_for_wrapper unique_settings_id id_taken
creates = refl

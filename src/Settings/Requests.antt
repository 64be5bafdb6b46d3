-- ===== src/Settings/Requests.antt =====
-- src/settings.rs: what `create_params`, `update_params`, `delete_params` and `migrate_params` do to a
-- store, and what `get_params`, `list_params` and `resolve_persisted_runtime_record` read from it. The
-- parsed parameters are arguments: `none` is what `serde_json::from_value` refuses.
pub mod Created
pub mod Changes
pub mod Effects
pub mod Routes
use agent_runner_opencode.Prelude.{if◌then◌else◌, ℕ, String, true, Option, List, [], ◌∷◌, ◌++◌, map}
use agent_runner_opencode.Json.{
  Value, boolean, text, array, Items, nil, cons, get, pointer, or_null, json,
}
use agent_runner_opencode.Failure.{
  invalid_request, invalid_settings, internal, Result, ok, err, ◌>>=◌, ◌>>◌, ok_or,
}
use agent_runner_opencode.Account.{AccountProfile}
use agent_runner_opencode.Models.{ModelAlias}
use agent_runner_opencode.Settings.Definition.{
  Diagnostic, wrapper_value, model_name_value, validate_values,
}
use agent_runner_opencode.Settings.Store.{
  SettingsRecord, SettingsStore, Platform, settings_not_found_failure,
}
use agent_runner_opencode.Settings.Values.{
  sanitize_value, account_for_settings_reference, normalize_settings_value, alias_of,
  settings_valid,
}
use agent_runner_opencode.Settings.Records.{
  find_record, record_index, ensure_version, version_token, record_at, update_record, remove_at,
  record_display_name, settings_id_base, settings_id_for_base, unique_settings_id,
}

-- The readings of the clock that one mutation makes.
pub record Clock : Type 0 where
  pub prune_now : ℕ
  pub attempt_now : ℕ → ℕ
  pub version_now : ℕ → ℕ
  pub history_now : ℕ
  pub receipt_now : ℕ

pub record SettingsCreateParams : Type 0 where
  pub display_name : Option String
  pub values : Value

pub record SettingsUpdateParams : Type 0 where
  pub id : String
  pub version : String
  pub values : Value

pub record SettingsDeleteParams : Type 0 where
  pub id : String
  pub version : String

unfoldable pub ensure_valid_settings : String → List Diagnostic → Result (Unit {0})
ensure_valid_settings request_id diagnostics =
    if settings_valid diagnostics
    then ok tt
    else err (invalid_settings request_id "settings_validation_failed")

-- A diagnostic in a response, without its `message`.
abbrev pub diagnostic_json : Diagnostic → Value
diagnostic_json d =
    json (("severity", text d.severity) ∷ ("path", text d.path) ∷ ("code", text d.code) ∷ [])

abbrev pub diagnostics_json : List Diagnostic → Items
diagnostics_json [] = nil
diagnostics_json (d ∷ ds) = cons (diagnostic_json d) (diagnostics_json ds)

unfoldable pub record_json : SettingsRecord → Value
record_json r = json (
    ("id", text r.id)
    ∷ ("display_name", text r.display_name)
    ∷ ("version", text r.version)
    ∷ ("values", r.values)
    ∷ [])

unfoldable pub summary_values : Value → Value
summary_values vs =
    let summary =
      ("provider", or_null (get vs "provider"))
      ∷ ("wrapper", or_null (get vs "wrapper"))
      ∷ ("model", or_null (pointer vs "model" "name"))
      ∷ [] in
    let diagnostics = validate_values vs in
    let repair = json (
      ("status", text "repair_required")
      ∷ ("diagnostics", array (diagnostics_json diagnostics))
      ∷ []) in
    if settings_valid diagnostics then json summary else json (("migration", repair) ∷ summary)

unfoldable pub record_summary : SettingsRecord → Value
unfolding summary_values
record_summary r = json (
    ("id", text r.id)
    ∷ ("display_name", text r.display_name)
    ∷ ("version", text r.version)
    ∷ ("summary", summary_values r.values)
    ∷ [])

abbrev pub items : List Value → Items
items [] = nil
items (v ∷ vs) = cons v (items vs)

unfoldable pub settings_list_result : List SettingsRecord → Value
unfolding record_summary
settings_list_result records = json (("records", array (items (map record_summary records))) ∷ [])

unfoldable pub settings_record_result : SettingsRecord → List Diagnostic → Value
unfolding record_json
settings_record_result r diagnostics =
    json (("record", record_json r) ∷ ("diagnostics", array (diagnostics_json diagnostics)) ∷ [])

unfoldable pub settings_delete_result : String → Value
settings_delete_result id = json (("deleted", boolean true) ∷ ("id", text id) ∷ [])

abbrev pub Change : Type 0
Change = Result (SettingsStore × Value)

module _ (p : Platform) (clock : Clock) (request_id : String) where
  open clock use {attempt_now, version_now}

  abbrev pub candidate : Value → ℕ → String
  candidate vs attempt =
      settings_id_for_base p (settings_id_base vs) request_id (attempt_now attempt) attempt

  unfoldable pub new_record : Option String → Value → String → SettingsRecord
  new_record display_name vs id = record {
    id = id;
    display_name = record_display_name display_name vs;
    version = version_token p (version_now 0) id vs request_id;
    values = vs;
  }

  -- The mutation of `create_params`. The last failure stands for a search that has not ended, which
  -- the source does not have: it would go on searching.
  unfoldable pub create : Option SettingsCreateParams → SettingsStore → Change
  unfolding ensure_valid_settings new_record settings_record_result
  create params store = do
    fields ← ok_or params (invalid_request request_id "invalid_settings_create_params")
    let vs = normalize_settings_value (sanitize_value fields.values)
    let diagnostics = validate_values vs
    ensure_valid_settings request_id diagnostics
    id ← ok_or (unique_settings_id store (candidate vs)) (internal request_id "search_unfinished")
    let new = new_record fields.display_name vs id
    ok (
      record store { records = store.records ++ new ∷ [] },
      settings_record_result new diagnostics,
    )

  abbrev pub indexed : List SettingsRecord → ℕ → Result SettingsRecord
  indexed records index = ok_or (record_at records index) (settings_not_found_failure request_id)

  -- The mutation of `update_params`.
  unfoldable pub update : Option SettingsUpdateParams → SettingsStore → Change
  unfolding ensure_valid_settings record_index ensure_version update_record settings_record_result
  update params store = do
    fields ← ok_or params (invalid_request request_id "invalid_settings_update_params")
    let vs = normalize_settings_value (sanitize_value fields.values)
    let diagnostics = validate_values vs
    ensure_valid_settings request_id diagnostics
    index ← record_index store fields.id request_id
    old ← indexed store.records index
    ensure_version old fields.version request_id
    let changed = update_record p (version_now 0) store index fields.id vs request_id
    updated ← indexed changed.records index
    ok (changed, settings_record_result updated diagnostics)

  -- The mutation of `delete_params`.
  unfoldable pub delete : Option SettingsDeleteParams → SettingsStore → Change
  unfolding record_index ensure_version settings_delete_result
  delete params store = do
    fields ← ok_or params (invalid_request request_id "invalid_settings_delete_params")
    index ← record_index store fields.id request_id
    old ← indexed store.records index
    ensure_version old fields.version request_id
    ok (record store { records = remove_at index store.records }, settings_delete_result fields.id)

unfoldable pub get_result : SettingsStore → String → String → Result Value
unfolding find_record record_json
get_result store id request_id = do
  found ← find_record store id request_id
  ok (json (("record", record_json found) ∷ []))

pub record PersistedRuntimeRecord : Type 0 where
  pub record_id : String
  pub record_version : String
  pub account : AccountProfile
  pub model : Option ModelAlias

-- `resolve_persisted_runtime_record` after the store was read.
unfoldable pub resolve_persisted_runtime_record :
    SettingsStore → String → String → Result PersistedRuntimeRecord
unfolding find_record ensure_valid_settings
resolve_persisted_runtime_record store reference request_id = do
  found ← find_record store reference request_id
  ensure_valid_settings request_id (validate_values found.values)
  account ←
      ok_or (account_for_settings_reference (wrapper_value found.values))
        (settings_not_found_failure request_id)
  ok (record {
    record_id = found.id;
    record_version = found.version;
    account = account;
    model = alias_of (model_name_value found.values);
  })

-- ===== src/Settings/Migration.antt =====
-- src/settings.rs: `settings.migrate`, the activation of legacy provider tables as exact records. The
-- TOML parser is not of the repository: its table, or `none` where it refuses, is an argument.
pub mod Tables
pub mod Activated
use agent_runner_opencode.Prelude.{
  if◌then◌else◌, any, filter, position, codes, begins, concat, same_codes, split_codes, ℕ, ◌+◌,
  String, Bool, false, ◌&&◌, not, Option, none, some, List, [], ◌∷◌, ◌++◌, map, ◌==◌,
}
use agent_runner_opencode.Json.{Value, boolean, text, array, json, values}
use agent_runner_opencode.Failure.{invalid_request, ok, ◌>>=◌, ◌>>◌, ok_or}
use agent_runner_opencode.Account.{AccountProfile}
use agent_runner_opencode.Settings.Definition.{Diagnostic, diagnostic, is_none}
use agent_runner_opencode.Settings.Store.{SettingsRecord, SettingsStore, Platform}
use agent_runner_opencode.Settings.Values.{account_of, migrated_values_for_account}
use agent_runner_opencode.Settings.Records.{version_token, update_record}
use agent_runner_opencode.Settings.Requests.{
  Clock, ensure_valid_settings, diagnostics_json, items, Change,
}

-- A legacy provider table: the command of each key, as the TOML parser reads them.
abbrev pub LegacyTable : Type 0
LegacyTable = List (String × Option String)

pub record Activation : Type 0 where
  pub settings_id : String
  pub account : AccountProfile

unfoldable pub legacy_provider_account : Option String → Option AccountProfile
legacy_provider_account command = account_of command

abbrev pub activation : String → Option AccountProfile → List Activation
activation settings_id none = []
activation settings_id (some account) = record { settings_id = settings_id; account = account } ∷ []

-- `filter_map` over the table's entries; no table is what the parser refuses.
unfoldable pub legacy_provider_activations : Option LegacyTable → List Activation
unfolding legacy_provider_account
legacy_provider_activations none = []
legacy_provider_activations (some []) = []
legacy_provider_activations (some ((settings_id, command) ∷ table)) =
    activation settings_id (legacy_provider_account command)
    ++ legacy_provider_activations (some table)

module _ (p : Platform) (clock : Clock) (request_id : String) where
  open clock use {version_now}

  -- `upsert_migrated_record` of the activation with an index in the loop.
  unfoldable pub upsert_at : ℕ → SettingsStore → Activation → Option ℕ → SettingsStore
  unfolding update_record
  upsert_at nth store activation (some index) =
      update_record p (version_now nth) store index activation.settings_id
        (migrated_values_for_account activation.account) request_id
  upsert_at nth store activation none =
      let vs = migrated_values_for_account activation.account in
      let new : SettingsRecord = record {
        id = activation.settings_id;
        display_name = activation.account.opencode_wrapper;
        version = version_token p (version_now nth) activation.settings_id vs request_id;
        values = vs;
      } in
      record store { records = store.records ++ new ∷ [] }

  unfoldable pub upsert_migrated_record : ℕ → SettingsStore → Activation → SettingsStore
  unfolding upsert_at
  upsert_migrated_record nth store activation =
      upsert_at nth store activation (position (λ r. r.id == activation.settings_id) store.records)

  -- The loop of `migrate_params` over the activations.
  unfoldable pub upsert_all : ℕ → SettingsStore → List Activation → SettingsStore
  upsert_all nth store [] = store
  upsert_all nth store (a ∷ rest) = upsert_all (nth + 1) (upsert_migrated_record nth store a) rest

-- The components of a path: what is empty or a single dot between two `/` is none.
abbrev pub is_component : List ℕ → Bool
is_component part = not (same_codes part []) && not (same_codes part (codes "."))

abbrev pub last : List (List ℕ) → Option (List ℕ)
last [] = none
last (c ∷ []) = some c
last (c ∷ d ∷ rest) = last (d ∷ rest)

-- `Path::file_name`: the last component, unless it is the parent's.
abbrev pub file_name : String → Option (List ℕ)
file_name path = elim (last (filter is_component (split_codes b'/' (codes path) []))) [
  | none ↦ none
  | some name ↦ if same_codes name (codes "..") then none else some name
]

unfoldable pub legacy_opencode_shaped_command : Option String → Bool
legacy_opencode_shaped_command none = false
legacy_opencode_shaped_command (some command) = elim (file_name command) [
  | none ↦ false
  | some name ↦ begins name (codes "opencode")
]

unfoldable pub is_unrecognized : String × Option String → Bool
unfolding legacy_opencode_shaped_command legacy_provider_account
is_unrecognized (name, command) =
    legacy_opencode_shaped_command command && is_none (legacy_provider_account command)

unfoldable pub legacy_unrecognized_provider_names : Option LegacyTable → List String
unfolding is_unrecognized
legacy_unrecognized_provider_names none = []
legacy_unrecognized_provider_names (some table) = map (λ e. e.0) (filter is_unrecognized table)

abbrev pub legacy_unrecognized_provider_diagnostic : String → Diagnostic
legacy_unrecognized_provider_diagnostic provider =
    diagnostic "error" (concat "legacy.providers_toml." provider) "legacy_provider_unknown"

abbrev pub missing_providers : List Activation → List Diagnostic
missing_providers [] = diagnostic "error" "legacy.providers_toml" "legacy_providers_missing" ∷ []
missing_providers (a ∷ rest) = []

unfoldable pub legacy_diagnostics : Option LegacyTable → List Diagnostic
unfolding legacy_provider_activations legacy_unrecognized_provider_names
legacy_diagnostics table =
    missing_providers (legacy_provider_activations table)
    ++ map legacy_unrecognized_provider_diagnostic (legacy_unrecognized_provider_names table)

abbrev pub activation_action : Activation → Value
activation_action a = json (
    ("kind", text "settings_profile_activation")
    ∷ ("legacy_provider", text a.settings_id)
    ∷ ("settings_id", text a.settings_id)
    ∷ ("profile", text a.account.opencode_wrapper)
    ∷ ("operation", text "create_or_update_exact_settings_record")
    ∷ [])

abbrev pub actions_of : List Activation → List Value
actions_of [] =
    json (
      ("kind", text "settings_profile") ∷ ("operation", text "inspect_legacy_opencode_tables") ∷ [])
    ∷ []
actions_of (a ∷ rest) = map activation_action (a ∷ rest)

unfoldable pub legacy_actions : Option LegacyTable → List Value
unfolding legacy_provider_activations
legacy_actions table = actions_of (legacy_provider_activations table)

unfoldable pub settings_requires_user_input : List Diagnostic → Bool
settings_requires_user_input diagnostics = any (λ d. d.severity == "error") diagnostics

-- The result of a migration, without its `warnings`, which are text for people.
unfoldable pub settings_migrate_result : List Value → Bool → List Diagnostic → Value
settings_migrate_result actions requires_user_input diagnostics = json (
    ("actions", array (items actions))
    ∷ ("requires_user_input", boolean requires_user_input)
    ∷ ("diagnostics", array (diagnostics_json diagnostics))
    ∷ [])

-- `migrate_params` with `dry_run`.
unfoldable pub migrate_dry_run : Option LegacyTable → Value
unfolding legacy_actions legacy_diagnostics settings_requires_user_input settings_migrate_result
migrate_dry_run table =
    settings_migrate_result (legacy_actions table)
      (settings_requires_user_input (legacy_diagnostics table)) (legacy_diagnostics table)

-- The mutation of `migrate_params`; the outer `none` is what the parser of the parameters refuses.
unfoldable pub migrate :
    Platform → Clock → String → Option (Option LegacyTable) → SettingsStore → Change
unfolding legacy_actions legacy_diagnostics settings_requires_user_input settings_migrate_result
    ensure_valid_settings
migrate p clock request_id params store = do
  table ← ok_or params (invalid_request request_id "invalid_settings_migrate_params")
  let diagnostics = legacy_diagnostics table
  ensure_valid_settings request_id diagnostics
  ok (
    upsert_all p clock request_id 0 store (legacy_provider_activations table),
    settings_migrate_result (legacy_actions table) (settings_requires_user_input diagnostics)
        diagnostics,
  )

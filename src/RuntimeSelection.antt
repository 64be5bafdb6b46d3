-- ===== src/RuntimeSelection.antt =====
-- src/runtime_selection.rs: the account and the model that a settings record selects for a launch.
use agent_runner_opencode.Prelude.{if◌then◌else◌, concat, String, Option, none, some, ◌==◌}
use agent_runner_opencode.Failure.{ProviderFailure, invalid_request, Result, ok, err}
use agent_runner_opencode.Account.{AccountProfile}
use agent_runner_opencode.Models.{ModelAlias}
use agent_runner_opencode.Settings.Store.{SettingsStore}
use agent_runner_opencode.Settings.Requests.{
  PersistedRuntimeRecord, resolve_persisted_runtime_record,
}

pub data RuntimeModelBinding : Type 0 where
  any_advertised : RuntimeModelBinding
  exact : ModelAlias → RuntimeModelBinding

pub record RuntimeSelection : Type 0 where
  pub settings_id : String
  pub settings_version : String
  pub account : AccountProfile
  pub model_binding : RuntimeModelBinding

unfoldable pub evidence_label : RuntimeSelection → String
evidence_label selection =
    concat "settings record "
      (concat selection.settings_id (concat " at version " selection.settings_version))

abbrev pub bound_model : RuntimeModelBinding → Option ModelAlias
bound_model any_advertised = none
bound_model (exact model) = some model

abbrev pub exact_model : RuntimeSelection → Option ModelAlias
exact_model selection = bound_model selection.model_binding

abbrev pub binding_of : Option ModelAlias → RuntimeModelBinding
binding_of none = any_advertised
binding_of (some model) = exact model

unfoldable pub map_missing_record : String → ProviderFailure → ProviderFailure
map_missing_record request_id failure =
    if failure.code == "settings_not_found"
    then invalid_request request_id "unknown_settings_id"
    else failure

abbrev pub selection_of : PersistedRuntimeRecord → RuntimeSelection
selection_of persisted = record {
  settings_id = persisted.record_id;
  settings_version = persisted.record_version;
  account = persisted.account;
  model_binding = binding_of persisted.model;
}

abbrev pub selected : String → Result PersistedRuntimeRecord → Result RuntimeSelection
selected request_id (err failure) = err (map_missing_record request_id failure)
selected request_id (ok persisted) = ok (selection_of persisted)

-- `resolve_runtime_selection` of the store that was read.
unfoldable pub resolve_runtime_selection : SettingsStore → String → String → Result RuntimeSelection
unfolding map_missing_record
resolve_runtime_selection store settings_id request_id =
    selected request_id (resolve_persisted_runtime_record store settings_id request_id)

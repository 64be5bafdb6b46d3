-- ===== src/Settings/Requests/Routes.antt =====
-- What a launch resolves from a persisted record.
use agent_runner_opencode.Prelude.{
  Bool-cases, find, eq_of, String, ◌≡◌, refl, ap, ◌∙◌, subst, inl, inr, Option, none, some, List,
  [], ◌∷◌, arith, ◌==◌,
}
use agent_runner_opencode.Failure.{ok}
use agent_runner_opencode.Json.{Value, pointer, as_str}
use agent_runner_opencode.Account.{account_for_wrapper}
use agent_runner_opencode.Models.{ModelAlias}
use agent_runner_opencode.Settings.Store.{SettingsRecord, SettingsStore}
use agent_runner_opencode.Settings.Definition.{
  wrapper_value, model_name_value, provider_model_value, model_variant_value, validate_values,
}
use agent_runner_opencode.Settings.Definition.Sound.{BindsModel, validate_values-IsRoutable}
use agent_runner_opencode.Settings.Records.{find_record}
use agent_runner_opencode.Settings.Requests.{
  ensure_valid_settings, PersistedRuntimeRecord, resolve_persisted_runtime_record,
}
use agent_runner_opencode.Settings.Values.{alias_of}
use agent_runner_opencode.Account.Laws.{reference_of_wrapper}

-- The model of a runtime record is the route that its values pin.
abbrev pub RoutesTo : Value → Option ModelAlias → Type 0
RoutesTo vs none = as_str (pointer vs "model" "selection") ≡ some "requested"
RoutesTo vs (some model) =
    (model_name_value vs ≡ some model.name)
    × (provider_model_value vs ≡ some model.provider_model)
    × (model_variant_value vs ≡ some model.effort)

find_id :
    (id : String) (rs : List SettingsRecord) (r : SettingsRecord)
    → find (λ q. q.id == id) rs ≡ some r
    → r.id ≡ id
find_id id [] r h = cc
find_id id (q ∷ rs) r h = elim (Bool-cases (q.id == id)) [
  | inl here ↦
      let same : q ≡ r = ground (arith, h, here) in
      subst (λ (x : SettingsRecord). x.id ≡ id) same (eq_of q.id id here)
  | inr there ↦ find_id id rs r (ground (arith, h, there))
]

binds→routes : (vs : Value) → BindsModel vs → RoutesTo vs (alias_of (model_name_value vs))
binds→routes vs (inl (requested, unnamed)) = rw unnamed requested
binds→routes vs (inr (model, listed, named, provider_model, variant)) =
    rw (ap alias_of named ∙ listed) (named, provider_model, variant)

-- A record that is found and valid resolves: to its identifier and version, to the account whose
-- wrapper its values name, and to the whole route of the catalogue that they pin, or to none where
-- they leave the model to the request.
pub resolve_valid :
    (store : SettingsStore) (reference request_id : String) (found : SettingsRecord)
    → find (λ r. r.id == reference) store.records ≡ some found
    → validate_values found.values ≡ []
    → (resolved : PersistedRuntimeRecord) × (resolve_persisted_runtime_record store reference
          request_id
        ≡ ok resolved)
      × (resolved.record_id ≡ reference)
      × (resolved.record_version ≡ found.version)
      × (account_for_wrapper (wrapper_value found.values) ≡ some resolved.account)
      × RoutesTo found.values resolved.model
unfolding resolve_persisted_runtime_record find_record ensure_valid_settings
resolve_valid store reference request_id found h valid =
    let routable = validate_values-IsRoutable found.values valid in
    (
      record {
        record_id = found.id;
        record_version = found.version;
        account = routable.account;
        model = alias_of (model_name_value found.values);
      },
      rw h (
          rw valid
            (rw (reference_of_wrapper _ routable.account routable.names_account.wrapper) refl)),
      find_id reference store.records found h,
      refl,
      routable.names_account.wrapper,
      binds→routes found.values routable.binds_model,
    )

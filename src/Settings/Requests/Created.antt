-- ===== src/Settings/Requests/Created.antt =====
-- What a create does to a store, and when it succeeds.
use agent_runner_opencode.Prelude.{
  length, eq_of, ℕ, ◌+◌, ◌<◌, String, ◌≡◌, refl, sym, ap, ◌∙◌, subst, true, false, Option, none,
  some, List, [], ◌∷◌, ◌++◌, arith,
}
use agent_runner_opencode.Settings.Definition.{Diagnostic, validate_values}
use agent_runner_opencode.Failure.{ProviderFailure, internal, Result, ok, ok_or, >>=-eq-ok}
use agent_runner_opencode.Json.{Value}
use agent_runner_opencode.Settings.Store.{SettingsRecord, SettingsStore, Platform}
use agent_runner_opencode.Settings.Records.{ensure_version, id_taken, unique_settings_id}
use agent_runner_opencode.Settings.Records.Fresh.{first_free_sound, unique_settings_id_total}
use agent_runner_opencode.Settings.Requests.{
  Clock, SettingsCreateParams, ensure_valid_settings, settings_record_result, candidate, new_record,
  create,
}
use agent_runner_opencode.Settings.Mutation.Bounds.{ChangesRecords}
use agent_runner_opencode.Settings.Values.{sanitize_value, normalize_settings_value, settings_valid}
use agent_runner_opencode.Settings.Records.Laws.{DistinctIds, push-DistinctIds}

pub ok_inj {ℓ} : {A : Type ℓ} {a b : A} → Result.ok a ≡ ok b → a ≡ b
ok_inj h = cc

pub ok_or-eq-ok {ℓ} :
    {A : Type ℓ} (o : Option A) (e : ProviderFailure) {a : A} → ok_or o e ≡ ok a → o ≡ some a
ok_or-eq-ok none e h = cc
ok_or-eq-ok (some b) e h = ap some (ok_inj h)

settings_valid→nil : (ds : List Diagnostic) → settings_valid ds ≡ true → ds ≡ []
settings_valid→nil [] h = refl
settings_valid→nil (d ∷ ds) h = cc

pub ensure_valid→nil :
    (request_id : String) (ds : List Diagnostic) {u : Unit {0}}
    → ensure_valid_settings request_id ds ≡ ok u
    → ds ≡ []
unfolding ensure_valid_settings
ensure_valid→nil request_id ds h = settings_valid→nil ds (ground arith)

pub ensure_version→eq :
    (r : SettingsRecord) (version request_id : String) {u : Unit {0}}
    → ensure_version r version request_id ≡ ok u
    → r.version ≡ version
unfolding ensure_version
ensure_version→eq r version request_id h = eq_of r.version version (ground arith)

module _ (p : Platform) (clock : Clock) (request_id : String) where
  -- A create that succeeds appends one record with valid values and an identifier that no record has.
  pub create_sound :
      (params : Option SettingsCreateParams) (store changed : SettingsStore) (v : Value)
      → create p clock request_id params store ≡ ok (changed, v)
      → (new : SettingsRecord) × (changed ≡ record store { records = store.records ++ new ∷ [] })
        × (id_taken store.records new.id ≡ false)
        × (validate_values new.values ≡ [])
  unfolding create unique_settings_id new_record
  create_sound none store changed v h = cc
  create_sound (some fields) store changed v h =
      let vs = normalize_settings_value (sanitize_value fields.values) in
      let (_u, valid, rest) =
        >>=-eq-ok (ensure_valid_settings request_id (validate_values vs)) _ h in
      let (id, found, made) =
        >>=-eq-ok
          (ok_or (unique_settings_id store (candidate p clock request_id vs))
            (internal request_id "search_unfinished"))
          _ rest in
      (
        new_record p clock request_id fields.display_name vs id,
        sym (ap (λ x. x.0) (ok_inj made)),
        first_free_sound (length store.records + 1) store.records (candidate p clock request_id vs)
            0 id (ok_or-eq-ok _ _ found),
        ensure_valid→nil request_id (validate_values vs) valid,
      )

  pub create-ChangesRecords :
      (params : Option SettingsCreateParams) → ChangesRecords (create p clock request_id params)
  create-ChangesRecords params store changed v h =
      let (new, same, _free, _valid) = create_sound params store changed v h in
      same
      ∙ ap (λ rs. record store { records = rs }) (sym (ap (λ (s : SettingsStore). s.records) same))

  -- A create of values that are valid once sanitized and normalized succeeds, where the first
  -- candidates for the identifier, one more than there are records, are all different.
  pub create_total :
      (fields : SettingsCreateParams) (store : SettingsStore)
      → let vs = normalize_settings_value (sanitize_value fields.values) in
        validate_values vs ≡ []
        → ((i j : ℕ)
            → i < length store.records + 1
            → j < length store.records + 1
            → candidate p clock request_id vs i ≡ candidate p clock request_id vs j
            → i ≡ j)
        → (changed : SettingsStore) × (v : Value) × (create p clock request_id (some fields) store
            ≡ ok (changed, v))
  unfolding create ensure_valid_settings
  create_total fields store valid distinct =
      let vs = normalize_settings_value (sanitize_value fields.values) in
      let (id, found, _free) =
        unique_settings_id_total (candidate p clock request_id vs) store distinct in
      let new = new_record p clock request_id fields.display_name vs id in
      (
        record store { records = store.records ++ new ∷ [] },
        settings_record_result new (validate_values vs),
        rw valid (rw found refl),
      )

  -- A create keeps the identifiers distinct.
  pub create-DistinctIds :
      (params : Option SettingsCreateParams) (store changed : SettingsStore) (v : Value)
      → create p clock request_id params store ≡ ok (changed, v)
      → DistinctIds store.records
      → DistinctIds changed.records
  create-DistinctIds params store changed v h distinct =
      let (new, same, free, _valid) = create_sound params store changed v h in
      subst (λ (s : SettingsStore). DistinctIds s.records) (sym same)
        (push-DistinctIds store.records new free distinct)

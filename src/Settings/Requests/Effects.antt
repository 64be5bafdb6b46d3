-- ===== src/Settings/Requests/Effects.antt =====
-- What an update and a delete change, and what they keep.
use agent_runner_opencode.Prelude.{find, String, ◌≡◌, false, some, [], ◌==◌}
use agent_runner_opencode.Failure.{ok}
use agent_runner_opencode.Json.{Value}
use agent_runner_opencode.Settings.Store.{SettingsRecord, SettingsStore, Platform}
use agent_runner_opencode.Settings.Definition.{validate_values}
use agent_runner_opencode.Settings.Records.{version_token, id_taken}
use agent_runner_opencode.Settings.Records.Laws.{DistinctIds}
use agent_runner_opencode.Settings.Requests.{
  Clock, SettingsUpdateParams, SettingsDeleteParams, update, delete,
}
use agent_runner_opencode.Settings.Requests.Changes.{update_sound, delete_sound}
use agent_runner_opencode.Settings.Values.{sanitize_value, normalize_settings_value}

module _ (p : Platform) (clock : Clock) (request_id : String) where
  module _ (fields : SettingsUpdateParams) (store changed : SettingsStore) (v : Value)
      (h : update p clock request_id (some fields) store ≡ ok (changed, v)) where
    -- An update that succeeds was given the version of the record that its identifier finds, and
    -- valid values. Afterwards the identifier finds this record with the sanitized and normalized
    -- values and a version that is derived from them.
    pub update_writes :
        let vs = normalize_settings_value (sanitize_value fields.values) in
        let token = version_token p (clock.version_now 0) fields.id vs request_id in
        (old : SettingsRecord) × (validate_values vs ≡ [])
        × (find (λ r. r.id == fields.id) store.records ≡ some old)
        × (old.version ≡ fields.version)
        × (find (λ r. r.id == fields.id) changed.records
            ≡ some (record old { version = token; values = vs }))
    update_writes =
        let (old, valid, found, current, after, _others, _distinct) =
          update_sound p clock request_id fields store changed v h in
        (old, valid, found, current, after)

    -- An update that succeeds leaves what every other identifier finds.
    pub update_others :
        (other : String)
        → (fields.id == other) ≡ false
        → find (λ r. r.id == other) changed.records ≡ find (λ r. r.id == other) store.records
    update_others =
        let (_old, _valid, _found, _current, _after, others, _distinct) =
          update_sound p clock request_id fields store changed v h in
        others

    -- An update that succeeds keeps the identifiers distinct.
    pub update-DistinctIds : DistinctIds store.records → DistinctIds changed.records
    update-DistinctIds =
        let (_old, _valid, _found, _current, _after, _others, distinct) =
          update_sound p clock request_id fields store changed v h in
        distinct

  module _ (fields : SettingsDeleteParams) (store changed : SettingsStore) (v : Value)
      (h : delete p clock request_id (some fields) store ≡ ok (changed, v)) where
    -- A delete that succeeds was given the version of the record that its identifier finds, and where
    -- the identifiers were distinct they still are, and no record has the deleted one any more.
    pub delete_frees :
        DistinctIds store.records
        → (old : SettingsRecord) × (find (λ r. r.id == fields.id) store.records ≡ some old)
          × (old.version ≡ fields.version)
          × DistinctIds changed.records
          × (id_taken changed.records fields.id ≡ false)
    delete_frees distinct =
        let (old, found, current, _others, frees) =
          delete_sound p clock request_id fields store changed v h in
        (old, found, current, (frees distinct).0, (frees distinct).1)

    -- A delete that succeeds leaves what every other identifier finds.
    pub delete_others :
        (other : String)
        → (fields.id == other) ≡ false
        → find (λ r. r.id == other) changed.records ≡ find (λ r. r.id == other) store.records
    delete_others =
        let (_old, _found, _current, others, _frees) =
          delete_sound p clock request_id fields store changed v h in
        others

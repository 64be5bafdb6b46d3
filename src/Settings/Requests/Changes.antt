-- ===== src/Settings/Requests/Changes.antt =====
-- What an update and a delete do to the records of a store, and what they leave alone.
use agent_runner_opencode.Prelude.{
  find, position, ℕ, String, ◌≡◌, refl, sym, ap, ◌∙◌, subst, false, Option, none, some, [], ◌==◌,
}
use agent_runner_opencode.Settings.Definition.{validate_values}
use agent_runner_opencode.Failure.{ok, err, >>=-eq-ok}
use agent_runner_opencode.Json.{Value}
use agent_runner_opencode.Settings.Store.{
  SettingsRecord, SettingsStore, Platform, stale_settings_version_failure,
}
use agent_runner_opencode.Settings.Records.{
  record_index, ensure_version, version_token, record_at, change_at, update_record, remove_at,
  id_taken,
}
use agent_runner_opencode.Settings.Requests.{
  Clock, SettingsUpdateParams, SettingsDeleteParams, ensure_valid_settings, indexed, update, delete,
}
use agent_runner_opencode.Settings.Mutation.Bounds.{ChangesRecords}
use agent_runner_opencode.Settings.Values.{sanitize_value, normalize_settings_value}
use agent_runner_opencode.Settings.Records.Laws.{
  DistinctIds, change_at-DistinctIds, remove_at-DistinctIds, position_record, find-change_at,
  find-change_at_ne, find-remove_at_ne, id_taken-remove_self, find-position,
}
use agent_runner_opencode.Settings.Requests.Created.{
  ok_inj, ok_or-eq-ok, ensure_valid→nil, ensure_version→eq,
}

module _ (p : Platform) (clock : Clock) (request_id : String) where
  -- The parts of an update that succeeds.
  update_parts :
      (fields : SettingsUpdateParams) (store changed : SettingsStore) (v : Value)
      → update p clock request_id (some fields) store ≡ ok (changed, v)
      → let vs = normalize_settings_value (sanitize_value fields.values) in
        (index : ℕ) × (old : SettingsRecord) × (validate_values vs ≡ [])
        × (position (λ r. r.id == fields.id) store.records ≡ some index)
        × (record_at store.records index ≡ some old)
        × (old.version ≡ fields.version)
        × (changed ≡ update_record p (clock.version_now 0) store index fields.id vs request_id)
  unfolding update record_index
  update_parts fields store changed v h =
      let vs = normalize_settings_value (sanitize_value fields.values) in
      let (_u, valid, rest) =
        >>=-eq-ok (ensure_valid_settings request_id (validate_values vs)) _ h in
      let (index, at, rest_at) = >>=-eq-ok (record_index store fields.id request_id) _ rest in
      let (old, read, rest_read) =
        >>=-eq-ok (indexed p clock request_id store.records index) _ rest_at in
      let (_w, current, rest_current) =
        >>=-eq-ok (ensure_version old fields.version request_id) _ rest_read in
      let changed_store =
        update_record p (clock.version_now 0) store index fields.id vs request_id in
      let (updated, _reread, made) =
        >>=-eq-ok (indexed p clock request_id changed_store.records index) _ rest_current in
      (
        index,
        old,
        ensure_valid→nil request_id (validate_values vs) valid,
        ok_or-eq-ok _ _ at,
        ok_or-eq-ok _ _ read,
        ensure_version→eq old fields.version request_id current,
        sym (ap (λ x. x.0) (ok_inj made)),
      )

  pub update-ChangesRecords :
      (params : Option SettingsUpdateParams) → ChangesRecords (update p clock request_id params)
  unfolding update update_record
  update-ChangesRecords none store changed v h = cc
  update-ChangesRecords (some fields) store changed v h =
      let (index, _old, _valid, _at, _read, _current, same) =
        update_parts fields store changed v h in
      same
      ∙ ap (λ rs. record store { records = rs }) (sym (ap (λ (s : SettingsStore). s.records) same))

  -- All that an update which succeeds says of the records.
  pub update_sound :
      (fields : SettingsUpdateParams) (store changed : SettingsStore) (v : Value)
      → update p clock request_id (some fields) store ≡ ok (changed, v)
      → let vs = normalize_settings_value (sanitize_value fields.values) in
        let token = version_token p (clock.version_now 0) fields.id vs request_id in
        (old : SettingsRecord) × (validate_values vs ≡ [])
        × (find (λ r. r.id == fields.id) store.records ≡ some old)
        × (old.version ≡ fields.version)
        × (find (λ r. r.id == fields.id) changed.records
            ≡ some (record old { version = token; values = vs }))
        × ((other : String)
            → (fields.id == other) ≡ false
            → find (λ r. r.id == other) changed.records ≡ find (λ r. r.id == other) store.records)
        × (DistinctIds store.records → DistinctIds changed.records)
  unfolding update_record
  update_sound fields store changed v h =
      let vs = normalize_settings_value (sanitize_value fields.values) in
      let token = version_token p (clock.version_now 0) fields.id vs request_id in
      let f : SettingsRecord → SettingsRecord = λ r. record r { version = token; values = vs } in
      let (index, old, valid, at, read, current, same) = update_parts fields store changed v h in
      let (named, read', _named, found) = position_record fields.id store.records index at in
      let one : named ≡ old = cc (read, read') in
      let records : changed.records ≡ change_at f index store.records =
        ap (λ (s : SettingsStore). s.records) same in
      (
        old,
        valid,
        found ∙ ap some one,
        current,
        ap (find (λ r. r.id == fields.id)) records
            ∙ find-change_at f fields.id store.records index old (λ q. refl) at
                (found ∙ ap some one),
        λ other apart.
            ap (find (λ r. r.id == other)) records
            ∙ find-change_at_ne f fields.id other store.records index (λ q. refl) at apart,
        λ distinct.
            subst DistinctIds (sym records)
              (change_at-DistinctIds f index store.records (λ q. refl) distinct),
      )

  -- The parts of a delete that succeeds.
  delete_parts :
      (fields : SettingsDeleteParams) (store changed : SettingsStore) (v : Value)
      → delete p clock request_id (some fields) store ≡ ok (changed, v)
      → (index : ℕ) × (old : SettingsRecord) × (position (λ r. r.id == fields.id) store.records
          ≡ some index)
        × (record_at store.records index ≡ some old)
        × (old.version ≡ fields.version)
        × (changed ≡ record store { records = remove_at index store.records })
  unfolding delete record_index
  delete_parts fields store changed v h =
      let (index, at, rest_at) = >>=-eq-ok (record_index store fields.id request_id) _ h in
      let (old, read, rest_read) =
        >>=-eq-ok (indexed p clock request_id store.records index) _ rest_at in
      let (_w, current, made) =
        >>=-eq-ok (ensure_version old fields.version request_id) _ rest_read in
      (
        index,
        old,
        ok_or-eq-ok _ _ at,
        ok_or-eq-ok _ _ read,
        ensure_version→eq old fields.version request_id current,
        sym (ap (λ x. x.0) (ok_inj made)),
      )

  pub delete-ChangesRecords :
      (params : Option SettingsDeleteParams) → ChangesRecords (delete p clock request_id params)
  unfolding delete
  delete-ChangesRecords none store changed v h = cc
  delete-ChangesRecords (some fields) store changed v h =
      let (index, _old, _at, _read, _current, same) = delete_parts fields store changed v h in
      same
      ∙ ap (λ rs. record store { records = rs }) (sym (ap (λ (s : SettingsStore). s.records) same))

  -- All that a delete which succeeds says of the records.
  pub delete_sound :
      (fields : SettingsDeleteParams) (store changed : SettingsStore) (v : Value)
      → delete p clock request_id (some fields) store ≡ ok (changed, v)
      → (old : SettingsRecord) × (find (λ r. r.id == fields.id) store.records ≡ some old)
        × (old.version ≡ fields.version)
        × ((other : String)
            → (fields.id == other) ≡ false
            → find (λ r. r.id == other) changed.records ≡ find (λ r. r.id == other) store.records)
        × (DistinctIds store.records
            → DistinctIds changed.records × (id_taken changed.records fields.id ≡ false))
  delete_sound fields store changed v h =
      let (index, old, at, read, current, same) = delete_parts fields store changed v h in
      let (named, read', _named, found) = position_record fields.id store.records index at in
      let one : named ≡ old = cc (read, read') in
      let records : changed.records ≡ remove_at index store.records =
        ap (λ (s : SettingsStore). s.records) same in
      (
        old,
        found ∙ ap some one,
        current,
        λ other apart.
            ap (find (λ r. r.id == other)) records
            ∙ find-remove_at_ne fields.id other store.records index at apart,
        λ distinct. (
          subst DistinctIds (sym records) (remove_at-DistinctIds index store.records distinct),
          ap (λ rs. id_taken rs fields.id) records
              ∙ id_taken-remove_self fields.id store.records index distinct at,
        ),
      )

  -- After an update that changed the version, a second update that was prepared with the old version
  -- is refused as stale, whatever valid values it has, whoever asks and whenever.
  pub update_lost :
      (fields : SettingsUpdateParams) (store changed : SettingsStore) (v : Value)
      → update p clock request_id (some fields) store ≡ ok (changed, v)
      → (version_token p
            (clock.version_now 0)
            fields.id
            (normalize_settings_value (sanitize_value fields.values))
            request_id
          == fields.version)
        ≡ false
      → (later : Clock) (other : String) (vs : Value)
      → validate_values (normalize_settings_value (sanitize_value vs)) ≡ []
      → update p later other (some (record fields { values = vs })) changed
        ≡ err (stale_settings_version_failure other)
  unfolding update record_index ensure_version ensure_valid_settings
  update_lost fields store changed v h renewed later other vs valid =
      let (old, _valid, _found, _current, found, _others, _distinct) =
        update_sound fields store changed v h in
      let (index, at, read) = find-position fields.id changed.records _ found in
      rw valid (rw at (rw read (rw renewed refl)))

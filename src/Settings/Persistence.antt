-- ===== src/Settings/Persistence.antt =====
-- src/settings.rs: reading, upgrading and writing the store file, and src/durable_fs.rs for the bounded
-- read. What the system answers is an argument: each fallible call has a flag that says that it succeeds.
use agent_runner_opencode.Prelude.{
  ltb, leb, eqb, if◌then◌else◌, length, take, codes, begins, is_blank, ℕ, ◌+◌, String, Bool, true,
  false, ◌&&◌, ◌||◌, not, Option, none, some, List, map,
}
use agent_runner_opencode.Failure.{
  ProviderFailure, invalid_request, internal, Result, ok, err, ◌>>=◌, ◌>>◌, refuse_if, ok_or,
}
use agent_runner_opencode.Settings.Store.{
  current_store_schema_version, max_settings_store_bytes, max_settings_records,
  max_predecessor_settings_store_bytes, max_predecessor_settings_records, SettingsRecord,
  SettingsStore, default_store, Platform, settings_capacity_failure,
  settings_store_capacity_unsupported, settings_store_upgrade_failure, settings_lock_timeout,
}
use agent_runner_opencode.Settings.Values.{upgrade_persisted_values}

pub data LockOutcome : Type 0 where
  locked timed_out lock_error : LockOutcome

-- What the system answers during one operation. `time_left` is whether the deadline leaves time for
-- the lock (`remaining_timeout`); the confinement flags are the answers of `path_guard`.
pub record System : Type 0 where
  pub config_root : Option String
  pub parent_confined : Bool
  pub store_confined : Bool
  pub lock_confined : Bool
  pub temp_confined : Bool
  pub create_directories : Bool
  pub lock_opens : Bool
  pub time_left : Bool
  pub lock : LockOutcome
  pub store_reads : Bool
  pub temp_creates : Bool
  pub temp_writes : Bool
  pub temp_syncs : Bool
  pub renames : Bool
  pub parent_syncs : Bool

abbrev pub check : Bool → ProviderFailure → Result (Unit {0})
check b e = if b then ok tt else err e

abbrev pub store_io_failure : String → String → ProviderFailure
store_io_failure request_id code = internal request_id code

abbrev pub ensure_contained : Bool → String → Result (Unit {0})
ensure_contained confined request_id =
    check confined (internal request_id "settings_store_confinement_failed")

abbrev pub non_blank : Option String → Bool
non_blank none = false
non_blank (some root) = not (is_blank root)

-- `config_root`
abbrev pub ensure_config_root : System → String → Result (Unit {0})
ensure_config_root system request_id =
    check (non_blank system.config_root) (invalid_request request_id "missing_config_root")

abbrev pub lock_result : LockOutcome → String → Result (Unit {0})
lock_result locked request_id = ok tt
lock_result timed_out request_id = err (settings_lock_timeout request_id)
lock_result lock_error request_id = err (store_io_failure request_id "settings_store_lock_failed")

unfoldable pub acquire_store_lock : System → String → Result (Unit {0})
acquire_store_lock system request_id = do
  ensure_config_root system request_id
  ensure_contained system.parent_confined request_id
  check system.create_directories (store_io_failure request_id "settings_store_create_dir_failed")
  ensure_contained system.lock_confined request_id
  check system.lock_opens (store_io_failure request_id "settings_store_lock_open_failed")
  check system.time_left (settings_lock_timeout request_id)
  lock_result system.lock request_id

abbrev pub predecessor_store_prefix : List ℕ
predecessor_store_prefix = codes "{\"records\":["

abbrev pub predecessor_recovery_store_prefix : List ℕ
predecessor_recovery_store_prefix = codes "{\"schema_version\":0,\"records\":["

unfoldable pub is_predecessor_capacity_store : List ℕ → Bool
is_predecessor_capacity_store octets =
    begins octets predecessor_store_prefix || begins octets predecessor_recovery_store_prefix

-- `read_file_bounded_or` of the bytes of a file: whether the bytes are over the lower bound, or
-- `none` where the size is refused.
unfoldable pub read_file_bounded_or : ℕ → ℕ → (List ℕ → Bool) → List ℕ → Option Bool
read_file_bounded_or maximum maximum_oversized allow octets =
    let read = take (maximum + 1) octets in
    let oversized = ltb maximum (length octets) in
    if not oversized
    then some false
    else if not (allow read)
    then none
    else if ltb maximum_oversized (length octets)
    then none
    else some true

unfoldable pub upgrade_record : SettingsRecord → SettingsRecord
upgrade_record r = elim (upgrade_persisted_values r.values) [
  | some upgraded ↦ record r { values = upgraded }
  | none ↦ r
]

unfoldable pub upgrade_persisted_store : SettingsStore → String → Result SettingsStore
unfolding upgrade_record
upgrade_persisted_store store request_id =
    if ltb current_store_schema_version store.schema_version
    then err (settings_store_upgrade_failure request_id)
    else if eqb store.schema_version current_store_schema_version
    then ok store
    else if ltb store.schema_version 2
    then ok (record store {
      schema_version = current_store_schema_version;
      records = map upgrade_record store.records;
    })
    else ok (record store { schema_version = current_store_schema_version })

module _ (p : Platform) where
  unfoldable pub read_store_bytes : System → String → p.Bytes → Result Bool
  read_store_bytes system request_id bytes = do
    check system.store_reads (store_io_failure request_id "settings_store_read_failed")
    ok_or
        (read_file_bounded_or max_settings_store_bytes max_predecessor_settings_store_bytes
          is_predecessor_capacity_store (p.octets bytes))
        (settings_store_capacity_unsupported request_id)

  unfoldable pub parse_store_bytes : p.Bytes → Bool → String → Result SettingsStore
  parse_store_bytes bytes recovery request_id = do
    store ← ok_or (p.decode bytes) (internal request_id "settings_store_parse_failed")
    let predecessor = eqb store.schema_version 0
    refuse_if (recovery && not predecessor) (settings_store_capacity_unsupported request_id)
    refuse_if (predecessor && ltb max_predecessor_settings_records (length store.records))
        (settings_store_capacity_unsupported request_id)
    upgraded ← upgrade_persisted_store store request_id
    ok (record upgraded { predecessor_capacity_recovery = recovery || predecessor })

  -- `read_store_path` of a file that may not be there.
  unfoldable pub read_store_path : System → String → Option p.Bytes → Result SettingsStore
  read_store_path system request_id none = ok default_store
  read_store_path system request_id (some bytes) = do
    recovery ← read_store_bytes system request_id bytes
    parse_store_bytes bytes recovery request_id

  abbrev pub within_capacity : SettingsStore → ℕ → Bool
  within_capacity store size =
      if eqb store.schema_version 0
      then leb (length store.records) max_predecessor_settings_records
        && leb size max_predecessor_settings_store_bytes
      else leb (length store.records) max_settings_records && leb size max_settings_store_bytes

  unfoldable pub validate_serialized_store_capacity : SettingsStore → ℕ → String → Result (Unit {0})
  validate_serialized_store_capacity store size request_id =
      check (within_capacity store size) (settings_capacity_failure request_id)

  abbrev pub serialize_store : SettingsStore → String → Result p.Bytes
  serialize_store store request_id =
      ok_or (p.encode store) (internal request_id "settings_store_serialize_failed")

  -- `write_store_path` up to the rename: the bytes that the rename publishes.
  unfoldable pub prepare_store : System → SettingsStore → String → Result p.Bytes
  unfolding validate_serialized_store_capacity
  prepare_store system store request_id = do
    ensure_contained system.parent_confined request_id
    check system.create_directories (store_io_failure request_id "settings_store_create_dir_failed")
    ensure_contained system.store_confined request_id
    bytes ← serialize_store store request_id
    validate_serialized_store_capacity store (length (p.octets bytes)) request_id
    check system.temp_creates (store_io_failure request_id "settings_store_temp_create_failed")
    ensure_contained system.temp_confined request_id
    check system.temp_writes (store_io_failure request_id "settings_store_temp_write_failed")
    check system.temp_syncs (store_io_failure request_id "settings_store_temp_sync_failed")
    check system.renames (store_io_failure request_id "settings_store_rename_failed")
    ok bytes

  abbrev pub sync_store_parent : System → String → Result (Unit {0})
  sync_store_parent system request_id =
      check system.parent_syncs (store_io_failure request_id "settings_store_parent_sync_failed")

  abbrev pub published :
      System → String → Result p.Bytes → Option p.Bytes → Result (Unit {0}) × Option p.Bytes
  published system request_id (ok bytes) file = (sync_store_parent system request_id, some bytes)
  published system request_id (err e) file = (err e, file)

  -- `write_store_path`: the answer, and the file after it.
  unfoldable pub write_store_path :
      System → SettingsStore → String → Option p.Bytes → Result (Unit {0}) × Option p.Bytes
  unfolding prepare_store
  write_store_path system store request_id file =
      published system request_id (prepare_store system store request_id) file

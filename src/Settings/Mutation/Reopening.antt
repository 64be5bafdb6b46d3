-- ===== src/Settings/Mutation/Reopening.antt =====
-- Reading the store file again: what was read or written can be read, and of the current schema.
use agent_runner_opencode.Prelude.{
  ltb, eqb, length, ℕ, ◌≤◌, String, ◌≡◌, Bool, true, false, ◌&&◌, not, Option, none, some, List,
  arith,
}
use agent_runner_opencode.Failure.{internal, ok, refuse_if, ok_or, >>=-eq-ok}
use agent_runner_opencode.Settings.Store.{
  current_store_schema_version, max_settings_store_bytes, max_predecessor_settings_store_bytes,
  max_predecessor_settings_records, SettingsStore, Platform, is_plain_store, DecodesEncoded,
  settings_store_capacity_unsupported,
}
use agent_runner_opencode.Settings.Requests.{Clock}
use agent_runner_opencode.Settings.History.{Request}
use agent_runner_opencode.Settings.Persistence.{
  locked, System, non_blank, acquire_store_lock, is_predecessor_capacity_store,
  read_file_bounded_or, upgrade_persisted_store, read_store_bytes, parse_store_bytes,
  read_store_path,
}
use agent_runner_opencode.Settings.Mutation.{opened}

-- The system lets the store be opened and read; what it answers to a write is left open.
pub record CanOpen (system : System) : Type 0 where
  pub config_root : non_blank system.config_root ≡ true
  pub parent_confined : system.parent_confined ≡ true
  pub store_confined : system.store_confined ≡ true
  pub lock_confined : system.lock_confined ≡ true
  pub create_directories : system.create_directories ≡ true
  pub lock_opens : system.lock_opens ≡ true
  pub time_left : system.time_left ≡ true
  pub lock : system.lock ≡ locked
  pub store_reads : system.store_reads ≡ true

acquire_can :
    (system : System) (request_id : String)
    → CanOpen system
    → acquire_store_lock system request_id ≡ ok tt
unfolding acquire_store_lock
acquire_can system request_id can = ground arith

-- Where the store can be opened, opening it is reading it.
pub opened_can :
    (p : Platform) (clock : Clock) (system : System) (request : Request) (file : Option p.Bytes)
    → CanOpen system
    → opened p clock system request file ≡ read_store_path p system request.request_id file
unfolding opened
opened_can p clock system request file can =
    ground (arith, acquire_can system request.request_id can)

-- What was read can be read wherever reading succeeds.
read_bytes_again :
    (p : Platform) (system other : System) (request_id : String) (bytes : p.Bytes) (recovery : Bool)
    → read_store_bytes p system request_id bytes ≡ ok recovery
    → other.store_reads ≡ true
    → read_store_bytes p other request_id bytes ≡ ok recovery
unfolding read_store_bytes
read_bytes_again p system other request_id bytes recovery h can = ground (arith, h)

pub read_again :
    (p : Platform) (system other : System) (request_id : String) (file : Option p.Bytes)
    (store : SettingsStore)
    → read_store_path p system request_id file ≡ ok store
    → other.store_reads ≡ true
    → read_store_path p other request_id file ≡ ok store
unfolding read_store_path
read_again p system other request_id none store h can = h
read_again p system other request_id (some bytes) store h can =
    let (recovery, read, parsed) =
      >>=-eq-ok (read_store_bytes p system request_id bytes)
        (λ r. parse_store_bytes p bytes r request_id) h in
    rw (read_bytes_again p system other request_id bytes recovery read can) parsed

pub opened_read :
    (p : Platform) (clock : Clock) (system : System) (request : Request) (file : Option p.Bytes)
    (store : SettingsStore)
    → opened p clock system request file ≡ ok store
    → read_store_path p system request.request_id file ≡ ok store
unfolding opened
opened_read p clock system request file store h = ground (arith, h)

bounded_small :
    (maximum oversized : ℕ) (allow : List ℕ → Bool) (octets : List ℕ)
    → length octets ≤ maximum
    → read_file_bounded_or maximum oversized allow octets ≡ some false
unfolding read_file_bounded_or
bounded_small maximum oversized allow octets h = ground arith

read_small :
    (p : Platform) (system : System) (request_id : String) (bytes : p.Bytes)
    → system.store_reads ≡ true
    → length (p.octets bytes) ≤ max_settings_store_bytes
    → read_store_bytes p system request_id bytes ≡ ok false
unfolding read_store_bytes
read_small p system request_id bytes reads fits = rw (
  reads,
  bounded_small max_settings_store_bytes max_predecessor_settings_store_bytes
      is_predecessor_capacity_store (p.octets bytes) fits,
)

parse_current :
    (p : Platform) (bytes : p.Bytes) (request_id : String) (store : SettingsStore)
    → p.decode bytes ≡ some store
    → store.schema_version ≡ current_store_schema_version
    → parse_store_bytes p bytes false request_id
      ≡ ok (record store { predecessor_capacity_recovery = false })
unfolding parse_store_bytes upgrade_persisted_store
parse_current p bytes request_id store decoded schema = rw decoded (ground (arith, schema))

-- A store of the current schema within the byte bound is read back as it was written.
pub read_written :
    (p : Platform) (system : System) (request_id : String) (next : SettingsStore) (bytes : p.Bytes)
    → DecodesEncoded p
    → is_plain_store next ≡ true
    → system.store_reads ≡ true
    → p.encode next ≡ some bytes
    → next.schema_version ≡ current_store_schema_version
    → length (p.octets bytes) ≤ max_settings_store_bytes
    → read_store_path p system request_id (some bytes)
      ≡ ok (record next { predecessor_capacity_recovery = false })
unfolding read_store_path
read_written p system request_id next bytes codec plain reads encodes schema fits =
    rw (read_small p system request_id bytes reads fits) (
      parse_current p bytes request_id (record next { predecessor_capacity_recovery = false })
        (codec next bytes plain encodes) schema)

upgrade_schema :
    (store upgraded : SettingsStore) (request_id : String)
    → upgrade_persisted_store store request_id ≡ ok upgraded
    → upgraded.schema_version ≡ current_store_schema_version
unfolding upgrade_persisted_store
upgrade_schema store upgraded request_id h = ground (arith, h)

parse_schema :
    (p : Platform) (bytes : p.Bytes) (recovery : Bool) (request_id : String) (store : SettingsStore)
    → parse_store_bytes p bytes recovery request_id ≡ ok store
    → store.schema_version ≡ current_store_schema_version
unfolding parse_store_bytes
parse_schema p bytes recovery request_id store h =
    let (decoded, _d, after_decode) =
      >>=-eq-ok (ok_or (p.decode bytes) (internal request_id "settings_store_parse_failed")) _ h in
    let predecessor = eqb decoded.schema_version 0 in
    let (_u, _r, after_recovery) =
      >>=-eq-ok
        (refuse_if (recovery && not predecessor) (settings_store_capacity_unsupported request_id)) _
        after_decode in
    let (_v, _s, after_records) =
      >>=-eq-ok
        (refuse_if (predecessor && ltb max_predecessor_settings_records (length decoded.records))
          (settings_store_capacity_unsupported request_id))
        _ after_recovery in
    let (upgraded, current, same) =
      >>=-eq-ok (upgrade_persisted_store decoded request_id) _ after_records in
    ground (arith, upgrade_schema decoded upgraded request_id current, same)

-- Whatever was read is of the current schema.
pub read_schema :
    (p : Platform) (system : System) (request_id : String) (file : Option p.Bytes)
    (store : SettingsStore)
    → read_store_path p system request_id file ≡ ok store
    → store.schema_version ≡ current_store_schema_version
unfolding read_store_path
read_schema p system request_id none store h = ground (arith, h)
read_schema p system request_id (some bytes) store h =
    let (recovery, _read, parsed) =
      >>=-eq-ok (read_store_bytes p system request_id bytes)
        (λ r. parse_store_bytes p bytes r request_id) h in
    parse_schema p bytes recovery request_id store parsed

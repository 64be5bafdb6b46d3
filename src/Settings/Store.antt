-- ===== src/Settings/Store.antt =====
-- src/settings.rs: the store, its records and receipts, its bounds, and what the store asks of other
-- crates and of the system.
use agent_runner_opencode.Prelude.{
  ltb, all, Dict, ℕ, ◌*◌, ◌^◌, String, ◌≡◌, Bool, true, false, ◌&&◌, Option, some, List, [], ◌∷◌,
}
use agent_runner_opencode.Json.{Value}
use agent_runner_opencode.Json.Plain.{is_before, is_plain}
use agent_runner_opencode.Failure.{
  ProviderFailure, category_conflict, provider_failure, invalid_request, conflict, internal,
}

abbrev pub current_store_schema_version : ℕ
current_store_schema_version = 3

abbrev pub max_settings_store_bytes : ℕ
max_settings_store_bytes = 4 * 1024 * 1024

abbrev pub max_settings_records : ℕ
max_settings_records = 256

abbrev pub max_predecessor_settings_store_bytes : ℕ
max_predecessor_settings_store_bytes = 16 * 1024 * 1024

abbrev pub max_predecessor_settings_records : ℕ
max_predecessor_settings_records = 4096

abbrev pub max_settings_history_events : ℕ
max_settings_history_events = 1024

abbrev pub max_settings_mutation_receipts : ℕ
max_settings_mutation_receipts = 4096

abbrev pub settings_receipt_retention_ms : ℕ
settings_receipt_retention_ms = 24 * 60 * 60 * 1000

pub record SettingsRecord : Type 0 where
  pub id : String
  pub display_name : String
  pub version : String
  pub values : Value

pub record SettingsMutationReceipt : Type 0 where
  pub operation : String
  pub binding_sha256 : String
  pub result : Value
  pub recorded_at_unix_ms : ℕ

pub record SettingsStore : Type 0 where
  pub schema_version : ℕ
  pub records : List SettingsRecord
  pub history : List Value
  pub mutation_receipts : Dict SettingsMutationReceipt
  pub predecessor_capacity_recovery : Bool

abbrev pub default_store : SettingsStore
default_store = record {
  schema_version = current_store_schema_version;
  records = [];
  history = [];
  mutation_receipts = [];
  predecessor_capacity_recovery = false;
}

-- The calls of other crates: the digest of a text (`sha2`), the text of a JSON value, of a list of
-- records and of a number (`serde_json`, `format!`), and the reading and writing of a whole store (`serde_json` with the
-- derived implementations). `encode` answers `none` where serializing fails, `decode` where parsing does.
pub record Platform : Type 1 where
  pub sha256_hex : String → String
  pub print : Value → String
  pub print_records : List SettingsRecord → String
  pub decimal : ℕ → String
  pub Bytes : Type 0
  pub octets : Bytes → List ℕ
  pub encode : SettingsStore → Option Bytes
  pub decode : Bytes → Option SettingsStore

-- A map whose keys are in order, as a `BTreeMap` has them.
abbrev pub is_ordered {ℓ} : {V : Type ℓ} → Dict V → Bool
is_ordered [] = true
is_ordered ((j, v) ∷ []) = true
is_ordered ((j, v) ∷ (k, w) ∷ rest) = is_before j k && is_ordered ((k, w) ∷ rest)

abbrev pub is_plain_receipt : SettingsMutationReceipt → Bool
is_plain_receipt receipt = is_plain 100 receipt.result && ltb receipt.recorded_at_unix_ms (2 ^ 64)

-- A store of integers of 64 bits without floats, whose values are nested at most 100 levels deep. The
-- parser's limit is 128, of which the store around the values has less than ten.
unfoldable pub is_plain_store : SettingsStore → Bool
is_plain_store store =
    ltb store.schema_version (2 ^ 32)
    && all (λ r. is_plain 100 r.values) store.records
    && all (is_plain 100) store.history
    && all (λ entry. is_plain_receipt entry.1) store.mutation_receipts
    && is_ordered store.mutation_receipts

-- Documented behaviour of `serde_json` with derived implementations: a plain store that was serialized
-- is parsed back, but for the field marked `#[serde(skip)]`, which is read as its default.
abbrev pub DecodesEncoded : Platform → Type 0
DecodesEncoded p =
    (store : SettingsStore) (bytes : p.Bytes)
    → is_plain_store store ≡ true
    → p.encode store ≡ some bytes
    → p.decode bytes ≡ some (record store { predecessor_capacity_recovery = false })

abbrev pub settings_not_found_failure : String → ProviderFailure
settings_not_found_failure request_id = invalid_request request_id "settings_not_found"

abbrev pub stale_settings_version_failure : String → ProviderFailure
stale_settings_version_failure request_id =
    provider_failure request_id category_conflict "stale_settings_version" false 4

abbrev pub settings_capacity_failure : String → ProviderFailure
settings_capacity_failure request_id = conflict request_id "settings_capacity_exhausted"

abbrev pub settings_store_capacity_unsupported : String → ProviderFailure
settings_store_capacity_unsupported request_id =
    invalid_request request_id "settings_store_capacity_unsupported"

abbrev pub settings_store_upgrade_failure : String → ProviderFailure
settings_store_upgrade_failure request_id =
    invalid_request request_id "settings_store_upgrade_required"

abbrev pub settings_mutation_request_conflict : String → ProviderFailure
settings_mutation_request_conflict request_id =
    conflict request_id "settings_mutation_request_conflict"

abbrev pub settings_lock_timeout : String → ProviderFailure
settings_lock_timeout request_id = internal request_id "settings_store_lock_timeout"

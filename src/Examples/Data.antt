-- ===== src/Examples/Data.antt =====
-- Concrete data for the examples: a platform, a clock, a system that answers every call, a request.
use agent_runner_opencode.Prelude.{eqb, if◌then◌else◌, ◌+◌, refl, true, false, none, some, [], ◌∷◌}
use agent_runner_opencode.Json.{Value}
use agent_runner_opencode.Account.{account_one}
use agent_runner_opencode.Settings.Store.{
  SettingsRecord, SettingsStore, default_store, Platform, DecodesEncoded,
}
use agent_runner_opencode.Settings.History.{Request}
use agent_runner_opencode.Settings.Values.{migrated_values_for_account}
use agent_runner_opencode.Settings.Requests.{
  Clock, SettingsCreateParams, SettingsUpdateParams, SettingsDeleteParams,
}
use agent_runner_opencode.Settings.Persistence.{locked, System}
use agent_runner_opencode.Settings.Mutation.Reopening.{CanOpen}

-- The store itself stands for its bytes, and a text for its digest.
abbrev pub platform : Platform
platform = record {
  sha256_hex = λ s. s;
  print = λ _. "{}";
  print_records = λ _. "[]";
  decimal = λ n. if eqb n 0 then "0" else "1";
  Bytes = SettingsStore;
  octets = λ _. [];
  encode = λ store. some (record store { predecessor_capacity_recovery = false });
  decode = λ store. some store;
}

pub platform-DecodesEncoded : DecodesEncoded platform
platform-DecodesEncoded store bytes h = cc

abbrev pub clock : Clock
clock = record {
  prune_now = 10;
  attempt_now = λ attempt. 11 + attempt;
  version_now = λ nth. 20 + nth;
  history_now = 30;
  receipt_now = 40;
}

abbrev pub system : System
system = record {
  config_root = some "/config";
  parent_confined = true;
  store_confined = true;
  lock_confined = true;
  temp_confined = true;
  create_directories = true;
  lock_opens = true;
  time_left = true;
  lock = locked;
  store_reads = true;
  temp_creates = true;
  temp_writes = true;
  temp_syncs = true;
  renames = true;
  parent_syncs = true;
}

pub system-CanOpen : CanOpen system
system-CanOpen = record {
  config_root = refl;
  parent_confined = refl;
  store_confined = refl;
  lock_confined = refl;
  create_directories = refl;
  lock_opens = refl;
  time_left = refl;
  lock = refl;
  store_reads = refl;
}

abbrev pub request : Request
request = record {
  request_id = "request-1";
  provider_instance_id = none;
  operation = "settings.delete";
  binding_sha256 = "b1";
  host_app = "host";
}

abbrev pub stored_values : Value
stored_values = migrated_values_for_account account_one

abbrev pub first_record : SettingsRecord
first_record = record {
  id = "main";
  display_name = "opencode1";
  version = "v1";
  values = stored_values;
}

abbrev pub second_record : SettingsRecord
second_record = record {
  id = "other";
  display_name = "opencode1";
  version = "v7";
  values = stored_values;
}

abbrev pub two_records : SettingsStore
two_records = record default_store { records = first_record ∷ second_record ∷ [] }

abbrev pub deletion : SettingsDeleteParams
deletion = record { id = "main"; version = "v1" }

abbrev pub update_fields : SettingsUpdateParams
update_fields = record { id = "main"; version = "v1"; values = stored_values }

abbrev pub creation : SettingsCreateParams
creation = record { display_name = none; values = stored_values }

-- A system that does everything but synchronize the directory.
abbrev pub unsynced_system : System
unsynced_system = record system { parent_syncs = false }

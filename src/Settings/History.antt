-- ===== src/Settings/History.antt =====
-- src/settings.rs: the history of a store, a bounded chain of events in which each names the digest of
-- the one before it.
pub mod Chain
use agent_runner_opencode.Prelude.{
  if◌then◌else◌, length, drop, Dict, lookup, insert_key, ℕ, ◌+◌, ◌-◌, ◌%◌, ◌^◌, String, Bool, true,
  false, ◌&&◌, not, Option, none, some, List, [], ◌∷◌, ◌++◌, ◌==◌,
}
use agent_runner_opencode.Json.{
  pos_int, Value, null, boolean, number, text, array, object, Fields, Items, cons, nil, get_in,
  as_str, as_u64, insert, from_pairs, json,
}
use agent_runner_opencode.Settings.Definition.{or_empty, is_none}
use agent_runner_opencode.Settings.Store.{
  max_settings_history_events, SettingsRecord, SettingsStore, Platform,
}

-- Who asks for a mutation, as the history records it.
pub record Request : Type 0 where
  pub request_id : String
  pub provider_instance_id : Option String
  pub operation : String
  pub binding_sha256 : String
  pub host_app : String

abbrev pub last_event : List Value → Option Value
last_event [] = none
last_event (e ∷ []) = some e
last_event (e ∷ f ∷ es) = last_event (f ∷ es)

abbrev pub or_zero : Option ℕ → ℕ
or_zero none = 0
or_zero (some n) = n

abbrev pub event_sequence : Option Value → ℕ
event_sequence e = or_zero (as_u64 (get_in e "sequence"))

abbrev pub event_digest : Option Value → String
event_digest e = or_empty (as_str (get_in e "event_sha256"))

abbrev pub records_by_id : List SettingsRecord → Dict SettingsRecord → Dict SettingsRecord
records_by_id [] dict = dict
records_by_id (r ∷ rs) dict = records_by_id rs (insert_key r.id r dict)

abbrev pub dict_keys : Dict SettingsRecord → List String
dict_keys [] = []
dict_keys ((k, r) ∷ rest) = k ∷ dict_keys rest

abbrev pub text_json : Option String → Value
text_json none = null
text_json (some s) = text s

abbrev pub version_of : Option SettingsRecord → Option String
version_of none = none
version_of (some r) = some r.version

-- `history.drain(..expired)` where there are more than the bound.
abbrev pub newest : List Value → List Value
newest history = drop (length history - max_settings_history_events) history

module _ (p : Platform) where
  abbrev pub values_sha256 : Option SettingsRecord → Option String
  values_sha256 none = none
  values_sha256 (some r) = some (p.sha256_hex (p.print r.values))

  -- `record_identity(prior) == record_identity(result)`
  unfoldable pub same_identity : Option SettingsRecord → Option SettingsRecord → Bool
  same_identity none none = true
  same_identity (some a) (some b) =
      a.version == b.version && p.sha256_hex (p.print a.values) == p.sha256_hex (p.print b.values)
  same_identity _ _ = false

  unfoldable pub record_change : String → Option SettingsRecord → Option SettingsRecord → Value
  record_change id prior result = json (
      ("settings_id", text id)
      ∷ ("prior_version", text_json (version_of prior))
      ∷ ("result_version", text_json (version_of result))
      ∷ ("prior_values_sha256", text_json (values_sha256 prior))
      ∷ ("result_values_sha256", text_json (values_sha256 result))
      ∷ ("tombstone", boolean (not (is_none prior) && is_none result))
      ∷ [])

  abbrev pub changes_at : Dict SettingsRecord → Dict SettingsRecord → List String → Items
  changes_at before after [] = nil
  changes_at before after (id ∷ ids) =
      let rest = changes_at before after ids in
      if same_identity (lookup id before) (lookup id after)
      then rest
      else cons (record_change id (lookup id before) (lookup id after)) rest

  -- The identifiers of both sides, each once and in order, are the keys of the two maps put together.
  unfoldable pub settings_record_changes : List SettingsRecord → List SettingsRecord → Value
  unfolding same_identity record_change
  settings_record_changes before after = array (
      changes_at (records_by_id before []) (records_by_id after [])
        (dict_keys (records_by_id (before ++ after) [])))

  unfoldable pub records_digest : List SettingsRecord → String
  records_digest records = p.sha256_hex (p.print_records records)

  -- The event before its own digest is put in. Its number is a `u64`, whose addition wraps around where
  -- overflow is not checked.
  abbrev pub event_body : Request → ℕ → List SettingsRecord → SettingsStore → Fields
  event_body request now before store = from_pairs (
      ("sequence", number (pos_int ((event_sequence (last_event store.history) + 1) % 2 ^ 64)))
      ∷ ("operation", text request.operation)
      ∷ ("request_id", text request.request_id)
      ∷ ("provider_instance_id", text_json request.provider_instance_id)
      ∷ ("host_app", text request.host_app)
      ∷ ("recorded_at_unix_ms", number (pos_int now))
      ∷ ("prior_records_sha256", text (records_digest before))
      ∷ ("result_records_sha256", text (records_digest store.records))
      ∷ ("changes", settings_record_changes before store.records)
      ∷ ("previous_event_sha256", text (event_digest (last_event store.history)))
      ∷ [])

  unfoldable pub new_event : Request → ℕ → List SettingsRecord → SettingsStore → Value
  unfolding settings_record_changes records_digest
  new_event request now before store =
      let body = event_body request now before store in
      object (insert "event_sha256" (text (p.sha256_hex (p.print (object body)))) body)

  unfoldable pub append_settings_history :
      Request → ℕ → List SettingsRecord → SettingsStore → SettingsStore
  append_settings_history request now before store = record store {
    history = newest (store.history ++ new_event request now before store ∷ []);
  }

-- ===== src/Settings/Handler.antt =====
-- src/settings.rs: the four writing commands of `handle`, each as the mutation that the transaction runs,
-- and what holds of the store file whichever of them is asked for.
use agent_runner_opencode.Prelude.{
  ℕ, String, ◌≡◌, sym, ap, ◌∙◌, subst, ◌⊎◌, inl, inr, Option, none, some,
}
use agent_runner_opencode.Failure.{Result, ok}
use agent_runner_opencode.Json.{Value}
use agent_runner_opencode.Settings.Store.{SettingsStore, Platform}
use agent_runner_opencode.Settings.History.{Request}
use agent_runner_opencode.Settings.Persistence.{System}
use agent_runner_opencode.Settings.Records.Laws.{DistinctIds}
use agent_runner_opencode.Settings.Requests.{
  Clock, SettingsCreateParams, SettingsUpdateParams, SettingsDeleteParams, Change, create, update,
  delete,
}
use agent_runner_opencode.Settings.Requests.Created.{create-ChangesRecords, create-DistinctIds}
use agent_runner_opencode.Settings.Requests.Changes.{update-ChangesRecords, delete-ChangesRecords}
use agent_runner_opencode.Settings.Requests.Effects.{update-DistinctIds, delete_frees}
use agent_runner_opencode.Settings.Migration.{LegacyTable, migrate}
use agent_runner_opencode.Settings.Migration.Activated.{migrate_records}
use agent_runner_opencode.Settings.Mutation.{prune_expired_settings_receipts, opened, mutate_store}
use agent_runner_opencode.Settings.Mutation.Atomic.{mutate_store-Cases}
use agent_runner_opencode.Settings.Mutation.Bounds.{ChangesRecords, mutated_sound, recorded_sound}

-- A writing command with its parameters; `none` is what the parser refuses. A migration's parameters
-- are parsed before the transaction, and a dry run is answered without it: what comes here is the
-- table, or `none` where the TOML parser refuses it.
pub data Command : Type 0 where
  settings_create : Option SettingsCreateParams → Command
  settings_update : Option SettingsUpdateParams → Command
  settings_delete : Option SettingsDeleteParams → Command
  settings_migrate : Option LegacyTable → Command

unfoldable pub operation_of : Command → String
operation_of (settings_create params) = "settings.create"
operation_of (settings_update params) = "settings.update"
operation_of (settings_delete params) = "settings.delete"
operation_of (settings_migrate table) = "settings.migrate"

module _ (p : Platform) (clock : Clock) (request_id : String) where
  unfoldable pub mutation_of : Command → SettingsStore → Change
  unfolding create update delete migrate
  mutation_of (settings_create params) store = create p clock request_id params store
  mutation_of (settings_update params) store = update p clock request_id params store
  mutation_of (settings_delete params) store = delete p clock request_id params store
  mutation_of (settings_migrate table) store = migrate p clock request_id (some table) store

  pub mutation_of-ChangesRecords : (command : Command) → ChangesRecords (mutation_of command)
  unfolding mutation_of
  mutation_of-ChangesRecords (settings_create params) =
      create-ChangesRecords p clock request_id params
  mutation_of-ChangesRecords (settings_update params) =
      update-ChangesRecords p clock request_id params
  mutation_of-ChangesRecords (settings_delete params) =
      delete-ChangesRecords p clock request_id params
  mutation_of-ChangesRecords (settings_migrate table) =
      λ store changed v h. (migrate_records p clock request_id (some table) store changed v h).1

  -- Whichever command succeeds keeps the identifiers distinct.
  mutation_of-DistinctIds :
      (command : Command) (store changed : SettingsStore) (v : Value)
      → mutation_of command store ≡ ok (changed, v)
      → DistinctIds store.records
      → DistinctIds changed.records
  unfolding mutation_of update delete
  mutation_of-DistinctIds (settings_create params) store changed v h d =
      create-DistinctIds p clock request_id params store changed v h d
  mutation_of-DistinctIds (settings_update none) store changed v h d = cc
  mutation_of-DistinctIds (settings_update (some fields)) store changed v h d =
      update-DistinctIds p clock request_id fields store changed v h d
  mutation_of-DistinctIds (settings_delete none) store changed v h d = cc
  mutation_of-DistinctIds (settings_delete (some fields)) store changed v h d =
      let (_old, _found, _current, distinct, _free) =
        delete_frees p clock request_id fields store changed v h d in
      distinct
  mutation_of-DistinctIds (settings_migrate table) store changed v h d =
      (migrate_records p clock request_id (some table) store changed v h).0 d

pruned_distinct :
    (store : SettingsStore) (now : ℕ)
    → DistinctIds store.records
    → DistinctIds (prune_expired_settings_receipts store now).records
unfolding prune_expired_settings_receipts
pruned_distinct store now h = h

module _ (p : Platform) (clock : Clock) (system : System) (request : Request) where
  abbrev pub asked : Command → Request
  asked command = record request { operation = operation_of command }

  abbrev pub handled : Command → Option p.Bytes → Result Value × Option p.Bytes
  handled command file =
      mutate_store p clock system (asked command) (mutation_of p clock request.request_id command)
        file

  -- Whichever writing command is asked for, the file stays or a store is published whose identifiers
  -- are distinct, if those of the store that was read are.
  pub handled-DistinctIds :
      (command : Command) (file : Option p.Bytes)
      → ((store : SettingsStore)
          → opened p clock system (asked command) file ≡ ok store
          → DistinctIds store.records)
      → ((handled command file).1 ≡ file)
        ⊎ ((next : SettingsStore) × (bytes : p.Bytes) × ((handled command file).1 ≡ some bytes)
            × (p.encode next ≡ some bytes)
            × DistinctIds next.records)
  handled-DistinctIds command file before =
      let mutation = mutation_of p clock request.request_id command in
      elim (mutate_store-Cases p clock system (asked command) mutation file) [
        | inl kept ↦ inl kept.same_file
        | inr wrote ↦
            let only = mutation_of-ChangesRecords p clock request.request_id command in
            let (changed, made, same, _bounds) =
              mutated_sound p clock system (asked command) mutation wrote.store wrote.next
                wrote.result wrote.bytes wrote.changes wrote.encodes in
            let (_chained, _schema, records, _receipt) =
              recorded_sound p clock system (asked command) mutation wrote.store changed
                wrote.result only made in
            inr (
              wrote.next,
              wrote.bytes,
              wrote.publishes,
              wrote.encodes,
              subst DistinctIds (sym (ap (λ (s : SettingsStore). s.records) same ∙ records)) (
                  mutation_of-DistinctIds p clock request.request_id command _ changed wrote.result
                    made
                    (pruned_distinct wrote.store clock.prune_now (before wrote.store wrote.opens))),
            )
      ]

-- ===== src/Settings/Mutation/Atomic.antt =====
-- What a mutation can do to the store file, over every answer of the system.
use agent_runner_opencode.Prelude.{
  Bool-cases, length, lookup, String, ◌≡◌, refl, ◌≢◌, ◌⊎◌, inl, inr, true, Option, none, some,
  arith,
}
use agent_runner_opencode.Json.{Value}
use agent_runner_opencode.Failure.{ProviderFailure, Result, ok, err}
use agent_runner_opencode.Settings.Store.{SettingsMutationReceipt, SettingsStore, Platform}
use agent_runner_opencode.Settings.Requests.{Clock, Change}
use agent_runner_opencode.Settings.History.{Request}
use agent_runner_opencode.Settings.Persistence.{
  System, store_io_failure, within_capacity, prepare_store, published, write_store_path,
}
use agent_runner_opencode.Settings.Mutation.{
  same_binding, mutated, answered, committed, decided, opened, run_opened, mutate_store,
}

module _ (p : Platform) (system : System) (request_id : String) where
  -- What is published is the serialized store, within the bounds of its schema.
  pub prepare_store_sound :
      (store : SettingsStore) (bytes : p.Bytes)
      → prepare_store p system store request_id ≡ ok bytes
      → (p.encode store ≡ some bytes) × (within_capacity p store (length (p.octets bytes)) ≡ true)
  unfolding prepare_store
  prepare_store_sound store bytes h = ground arith

abbrev pub parent_sync_failure : String → ProviderFailure
parent_sync_failure request_id = store_io_failure request_id "settings_store_parent_sync_failed"

module _ (p : Platform) (clock : Clock) (system : System) (request : Request) where
  open request use {request_id}

  -- The store that a mutation wrote, its result and where it started from.
  pub record Wrote (mutation : SettingsStore → Change) (file : Option p.Bytes)
      (outcome : Result Value × Option p.Bytes) : Type 1 where
    pub store : SettingsStore
    pub next : SettingsStore
    pub result : Value
    pub bytes : p.Bytes
    pub opens : opened p clock system request file ≡ ok store
    pub no_receipt : lookup request_id store.mutation_receipts ≡ none
    pub changes : mutated p clock system request mutation store ≡ ok (next, result)
    pub encodes : p.encode next ≡ some bytes
    pub fits : within_capacity p next (length (p.octets bytes)) ≡ true
    pub publishes : outcome.1 ≡ some bytes
    pub answers : (outcome.0 ≡ ok result) ⊎ (outcome.0 ≡ err (parent_sync_failure request_id))

  -- Nothing was written: the file is the one that was there, and what was answered with is a failure
  -- or the result of a receipt.
  pub record Kept (file : Option p.Bytes) (outcome : Result Value × Option p.Bytes) : Type 1 where
    pub same_file : outcome.1 ≡ file
    pub replays :
        (v : Value)
        → outcome.0 ≡ ok v
        → (store : SettingsStore) × (receipt : SettingsMutationReceipt) × (opened p clock system
              request file
            ≡ ok store)
          × (lookup request_id store.mutation_receipts ≡ some receipt)
          × (same_binding request receipt ≡ true)
          × (receipt.result ≡ v)

  module _ (mutation : SettingsStore → Change) (file : Option p.Bytes) where
    abbrev Cases : Result Value × Option p.Bytes → Type 1
    Cases outcome = Kept file outcome ⊎ Wrote mutation file outcome

    refused : (e : ProviderFailure) → Kept file (err e, file)
    refused e = record { same_file = refl; replays = λ v h. cc }

    written-Cases :
        (store next : SettingsStore) (result : Value) (bytes : Result p.Bytes)
        → opened p clock system request file ≡ ok store
        → lookup request_id store.mutation_receipts ≡ none
        → mutated p clock system request mutation store ≡ ok (next, result)
        → prepare_store p system next request_id ≡ bytes
        → Cases (
          answered p clock system request result (published p system request_id bytes file).0,
          (published p system request_id bytes file).1,
        )
    written-Cases store next result (err e) o l m b = inl (refused e)
    written-Cases store next result (ok bytes) o l m b =
        let (encodes, fits) = prepare_store_sound p system request_id next bytes b in
        inr (record {
          store = store;
          next = next;
          result = result;
          bytes = bytes;
          opens = o;
          no_receipt = l;
          changes = m;
          encodes = encodes;
          fits = fits;
          publishes = refl;
          answers = elim (Bool-cases system.parent_syncs) [
            | inl synced ↦ inl (rw synced)
            | inr unsynced ↦ inr (rw unsynced)
          ];
        })

    committed-Cases :
        (store : SettingsStore) (change : Change)
        → opened p clock system request file ≡ ok store
        → lookup request_id store.mutation_receipts ≡ none
        → mutated p clock system request mutation store ≡ change
        → Cases (committed p clock system request change file)
    unfolding committed write_store_path
    committed-Cases store (err e) o l m = inl (refused e)
    committed-Cases store (ok (next, result)) o l m =
        written-Cases store next result (prepare_store p system next request_id) o l m refl

    decided-Cases :
        (store : SettingsStore) (found : Option SettingsMutationReceipt)
        → opened p clock system request file ≡ ok store
        → lookup request_id store.mutation_receipts ≡ found
        → Cases (decided p clock system request mutation store found file)
    unfolding decided
    decided-Cases store none o l =
        committed-Cases store (mutated p clock system request mutation store) o l refl
    decided-Cases store (some receipt) o l = inl (record {
      same_file = refl;
      replays = λ v h. (store, receipt, o, l, ground (arith, h), ground (arith, h));
    })

    opened-Cases :
        (store : Result SettingsStore)
        → opened p clock system request file ≡ store
        → Cases (run_opened p clock system request mutation store file)
    unfolding run_opened
    opened-Cases (err e) o = inl (refused e)
    opened-Cases (ok store) o =
        decided-Cases store (lookup request_id store.mutation_receipts) o refl

    -- A mutation either leaves the store file as it was, and then answers with a failure or from a
    -- receipt of the same request, or it replaces the file by the serialized result of the change, of
    -- a request without a receipt, and then answers with the result or with the failure to
    -- synchronize the directory after the rename.
    pub mutate_store-Cases : Cases (mutate_store p clock system request mutation file)
    unfolding mutate_store
    mutate_store-Cases = opened-Cases (opened p clock system request file) refl

    -- A mutation that fails for any other reason than the synchronization after the rename leaves the
    -- store file as it was.
    pub mutate_store_atomic :
        (e : ProviderFailure)
        → (mutate_store p clock system request mutation file).0 ≡ err e
        → e ≢ parent_sync_failure request_id
        → (mutate_store p clock system request mutation file).1 ≡ file
    mutate_store_atomic e h ne = elim mutate_store-Cases [
      | inl kept ↦ kept.same_file
      | inr wrote ↦ elim wrote.answers [
        | inl answered_ok ↦ absurd (cc (h, answered_ok))
        | inr unsynced ↦ absurd (ne (ground (arith, h, unsynced)))
      ]
    ]

-- ===== src/Settings/Mutation/Replay.antt =====
-- Asking again: a request that was answered is answered alike, and changes nothing.
use agent_runner_opencode.Prelude.{
  lookup, String, ◌≡◌, refl, ap, ◌∙◌, subst, ◌≢◌, inl, inr, true, false, ◌&&◌, Option, some, arith,
  ◌==◌, eq_iff, eq_refl,
}
use agent_runner_opencode.Failure.{err, ok}
use agent_runner_opencode.Settings.Store.{
  current_store_schema_version, SettingsMutationReceipt, SettingsStore, Platform, is_plain_store,
  DecodesEncoded, settings_mutation_request_conflict,
}
use agent_runner_opencode.Settings.Requests.{Clock, Change}
use agent_runner_opencode.Settings.History.{Request}
use agent_runner_opencode.Settings.Persistence.{System}
use agent_runner_opencode.Settings.Mutation.{
  same_binding, receipt_of, mutated, replayed, decided, opened, run_opened, mutate_store,
}
use agent_runner_opencode.Json.{Value}
use agent_runner_opencode.Settings.Mutation.Atomic.{Wrote, mutate_store-Cases}
use agent_runner_opencode.Settings.Mutation.Bounds.{ChangesRecords, mutated_sound, recorded_sound}
use agent_runner_opencode.Settings.Mutation.Reopening.{
  CanOpen, opened_can, read_again, opened_read, read_written, read_schema,
}

-- The store that a mutation writes, if it writes one, is plain: `serde_json` reads it back as it is.
abbrev pub WritesPlain :
    (p : Platform) → Clock → System → Request → (SettingsStore → Change) → Option p.Bytes → Type 0
WritesPlain p clock system request mutation file =
    (store next : SettingsStore) (result : Value)
    → opened p clock system request file ≡ ok store
    → mutated p clock system request mutation store ≡ ok (next, result)
    → is_plain_store next ≡ true

-- The receipt that a store holds for a request, once the store can be opened.
abbrev Settled : (p : Platform) → Clock → System → Request → Option p.Bytes → Value → Type 0
Settled p clock system request file v =
    (store : SettingsStore) × (receipt : SettingsMutationReceipt) × (opened p clock system request
        file
      ≡ ok store)
    × (lookup request.request_id store.mutation_receipts ≡ some receipt)
    × (same_binding request receipt ≡ true)
    × (receipt.result ≡ v)

module _ (p : Platform) (clock later : Clock) (system other : System) (request : Request) where
  -- After a write the receipt is found again, with the result of the write.
  Settled-after_write :
      (mutation : SettingsStore → Change) (file : Option p.Bytes)
      → DecodesEncoded p
      → WritesPlain p clock system request mutation file
      → ChangesRecords mutation
      → CanOpen other
      → (wrote : Wrote p clock system request mutation file
          (mutate_store p clock system request mutation file))
      → Settled p later other request
          (mutate_store p clock system request mutation file).1
          wrote.result
  Settled-after_write mutation file codec plain only can wrote =
      let (changed, made, same, bounds) =
        mutated_sound p clock system request mutation wrote.store wrote.next wrote.result
          wrote.bytes wrote.changes wrote.encodes in
      let (_chain, schema, _records, receipt) =
        recorded_sound p clock system request mutation wrote.store changed wrote.result only made in
      let current : wrote.next.schema_version ≡ current_store_schema_version =
        ap (λ (s : SettingsStore). s.schema_version) same
        ∙ schema
        ∙ read_schema p system request.request_id file wrote.store
            (opened_read p clock system request file wrote.store wrote.opens) in
      (
        record wrote.next { predecessor_capacity_recovery = false },
        receipt_of p clock system request wrote.result,
        ap (opened p later other request) wrote.publishes
            ∙ opened_can p later other request (some wrote.bytes) can
            ∙ read_written p other request.request_id wrote.next wrote.bytes codec
                (plain wrote.store wrote.next wrote.result wrote.opens wrote.changes)
                can.store_reads wrote.encodes current bounds.bytes,
        ap (λ (s : SettingsStore). lookup request.request_id s.mutation_receipts) same ∙ receipt,
        simp eq_refl,
        refl,
      )

  -- After an answer the receipt is found again, also where the answer came from a receipt.
  pub Settled-after_ok :
      (mutation : SettingsStore → Change) (file : Option p.Bytes) (v : Value)
      → DecodesEncoded p
      → WritesPlain p clock system request mutation file
      → ChangesRecords mutation
      → CanOpen other
      → (mutate_store p clock system request mutation file).0 ≡ ok v
      → Settled p later other request (mutate_store p clock system request mutation file).1 v
  Settled-after_ok mutation file v codec plain only can h =
      elim (mutate_store-Cases p clock system request mutation file) [
        | inl kept ↦
            let (store, receipt, opens, found, same, result) = kept.replays v h in
            let again : opened p later other request file ≡ ok store =
              opened_can p later other request file can
              ∙ read_again p system other request.request_id file store
                  (opened_read p clock system request file store opens) can.store_reads in
            (
              store,
              receipt,
              ap (opened p later other request) kept.same_file ∙ again,
              found,
              same,
              result,
            )
        | inr wrote ↦ elim wrote.answers [
          | inl answered_ok ↦
              let same : wrote.result ≡ v = ground (arith, h, answered_ok) in
              subst
                (Settled p later other request
                  (mutate_store p clock system request mutation file).1)
                same (Settled-after_write mutation file codec plain only can wrote)
          | inr unsynced ↦ absurd (cc (h, unsynced))
        ]
      ]

-- A request whose receipt is there is answered with the receipt's result, and the file stays.
answered_from_Settled :
    (p : Platform) (clock : Clock) (system : System) (request : Request)
    (mutation : SettingsStore → Change) (file : Option p.Bytes) (v : Value)
    → Settled p clock system request file v
    → mutate_store p clock system request mutation file ≡ (ok v, file)
unfolding mutate_store run_opened decided replayed
answered_from_Settled p clock system request mutation file v
      (store, receipt, opens, found, same, result) =
    rw opens (rw found (rw same (ap (λ r. (ok r, file)) result)))

-- The request under the same identifier with another operation or other parameters.
abbrev pub rebound : Request → String → String → Request
rebound request operation binding_sha256 = record request {
  operation = operation;
  binding_sha256 = binding_sha256;
}

-- A receipt of the request is no receipt of another operation or other parameters.
rebound_differs :
    (request : Request) (receipt : SettingsMutationReceipt) (operation binding : String)
    → same_binding request receipt ≡ true
    → (request.operation == operation && request.binding_sha256 == binding) ≡ false
    → same_binding (rebound request operation binding) receipt ≡ false
rebound_differs request receipt operation binding same differs = ground (
  arith,
  same,
  differs,
  eq_iff receipt.operation request.operation,
  eq_iff receipt.binding_sha256 request.binding_sha256,
  eq_iff receipt.operation operation,
  eq_iff receipt.binding_sha256 binding,
  eq_iff request.operation operation,
  eq_iff request.binding_sha256 binding,
)

refused_from_Settled :
    (p : Platform) (clock : Clock) (system : System) (request : Request)
    (operation binding : String) (mutation : SettingsStore → Change) (file : Option p.Bytes)
    (v : Value)
    → Settled p clock system request file v
    → (request.operation == operation && request.binding_sha256 == binding) ≡ false
    → mutate_store p clock system (rebound request operation binding) mutation file
      ≡ (err (settings_mutation_request_conflict request.request_id), file)
unfolding mutate_store run_opened decided replayed opened
refused_from_Settled p clock system request operation binding mutation file v
      (store, receipt, opens, found, same, result) differs =
    rw opens (rw found (rw (rebound_differs request receipt operation binding same differs) refl))

module _ (p : Platform) (clock later : Clock) (system other : System) (request : Request) where
  module _ (mutation : SettingsStore → Change) (codec : DecodesEncoded p)
      (only : ChangesRecords mutation) (can : CanOpen other) (file : Option p.Bytes)
      (plain : WritesPlain p clock system request mutation file) where
    -- Once a mutation of the records was answered with a result and wrote a plain store, if it wrote
    -- one, asking again with the same request where the store can be opened gives the same result and
    -- leaves the file alone, whatever the later mutation would do.
    pub mutate_store_replays :
        (again : SettingsStore → Change) (v : Value)
        → let outcome = mutate_store p clock system request mutation file in
          outcome.0 ≡ ok v → mutate_store p later other request again outcome.1 ≡ (ok v, outcome.1)
    mutate_store_replays again v h =
        answered_from_Settled p later other request again
          (mutate_store p clock system request mutation file).1 v
          (Settled-after_ok p clock later system other request mutation file v codec plain only can
            h)

    -- Once a mutation of the records was answered with a result and wrote a plain store, if it wrote
    -- one, a request under its identifier with another operation or other parameters, where the store
    -- can be opened, is refused as a conflict and leaves the file alone.
    pub mutate_store_conflicts :
        (again : SettingsStore → Change) (operation binding : String) (v : Value)
        → (request.operation == operation && request.binding_sha256 == binding) ≡ false
        → let outcome = mutate_store p clock system request mutation file in
          outcome.0 ≡ ok v
          → mutate_store p later other (rebound request operation binding) again outcome.1
            ≡ (err (settings_mutation_request_conflict request.request_id), outcome.1)
    mutate_store_conflicts again operation binding v differs h =
        refused_from_Settled p later other request operation binding again
          (mutate_store p clock system request mutation file).1 v
          (Settled-after_ok p clock later system other request mutation file v codec plain only can
            h)
          differs

    -- If a mutation of the records changed the store file to a plain store, also where the answer was
    -- the failure to synchronize the directory, asking again where the store can be opened gives a
    -- result and leaves the file alone.
    pub mutate_store_recovers :
        (again : SettingsStore → Change)
        → let outcome = mutate_store p clock system request mutation file in
          outcome.1 ≢ file
          → (v : Value) × (mutate_store p later other request again outcome.1 ≡ (ok v, outcome.1))
    mutate_store_recovers again changed =
        elim (mutate_store-Cases p clock system request mutation file) [
          | inl kept ↦ absurd (changed kept.same_file)
          | inr wrote ↦ (
            wrote.result,
            answered_from_Settled p later other request again
                (mutate_store p clock system request mutation file).1 wrote.result
                (Settled-after_write p clock later system other request mutation file codec plain
                  only can wrote),
          )
        ]

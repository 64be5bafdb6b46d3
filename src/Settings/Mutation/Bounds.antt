-- ===== src/Settings/Mutation/Bounds.antt =====
-- What a written store satisfies: the steady-state bounds, the chain of its history and its receipt.
use agent_runner_opencode.Prelude.{
  leb, Bool-cases, length, lookup, lookup-insert_key, ℕ, ◌-◌, ◌^◌, ◌≤◌, ◌<◌, ◌≡◌, refl, sym, ap,
  ◌∙◌, subst, ◌⊎◌, inl, inr, false, ◌&&◌, not, Option, some, List, arith, eq_refl,
}
use agent_runner_opencode.Json.{Value}
use agent_runner_opencode.Failure.{ok, refuse_if, >>=-eq-ok}
use agent_runner_opencode.Settings.Store.{
  max_settings_store_bytes, max_settings_records, max_settings_history_events,
  max_settings_mutation_receipts, SettingsStore, Platform, settings_capacity_failure,
}
use agent_runner_opencode.Settings.Requests.{Clock, Change}
use agent_runner_opencode.Settings.History.{
  Request, last_event, event_sequence, append_settings_history,
}
use agent_runner_opencode.Settings.Persistence.{System, serialize_store}
use agent_runner_opencode.Settings.Mutation.{
  prune_expired_settings_receipts, exceeds_capacity, receipt_of, recorded, admitted, mutated,
  opened, mutate_store,
}
use agent_runner_opencode.Settings.History.Chain.{IsChain, append_settings_history-IsChain}
use agent_runner_opencode.Settings.Mutation.Atomic.{mutate_store-Cases}

-- A mutation of the requests touches the records alone.
abbrev pub ChangesRecords : (SettingsStore → Change) → Type 0
ChangesRecords mutation =
    (store changed : SettingsStore) (v : Value)
    → mutation store ≡ ok (changed, v)
    → changed ≡ record store { records = changed.records }

-- A chain that has a number left for the next event.
abbrev pub IsNumbered : List Value → Type 0
IsNumbered history = IsChain history × (event_sequence (last_event history) < 2 ^ 64 - 1)

pub record WithinBounds (store : SettingsStore) (size : ℕ) : Type 0 where
  pub records : length store.records ≤ max_settings_records
  pub history : length store.history ≤ max_settings_history_events
  pub receipts : length store.mutation_receipts ≤ max_settings_mutation_receipts
  pub bytes : size ≤ max_settings_store_bytes

module _ (p : Platform) (clock : Clock) (system : System) (request : Request) where
  open request use {request_id}

  within :
      (store : SettingsStore) (size : ℕ)
      → exceeds_capacity p clock system request store size ≡ false
      → WithinBounds store size
  within store size h = ground arith

  admitted_sound :
      (made next : SettingsStore) (value result : Value) (bytes : p.Bytes)
      → admitted p clock system request made value ≡ ok (next, result)
      → p.encode next ≡ some bytes
      → (next ≡ made) × (value ≡ result) × WithinBounds next (length (p.octets bytes))
  unfolding admitted
  admitted_sound made next value result bytes h e =
      let (size, serialized, tested) = >>=-eq-ok (serialize_store p made request_id) _ h in
      elim (Bool-cases (exceeds_capacity p clock system request made (length (p.octets size)))) [
        | inl over ↦ absurd (ground (arith, tested, over))
        | inr fits ↦
            let same : made ≡ next = ground (arith, tested, fits) in
            let same_bytes : size ≡ bytes = ground (arith, ap p.encode same, e, serialized) in
            (
              sym same,
              ground (arith, tested, fits),
              subst (λ b. WithinBounds next (length (p.octets b))) same_bytes
                  (subst (λ s. WithinBounds s (length (p.octets size))) same
                    (within made (length (p.octets size)) fits)),
            )
      ]

  -- The parts of a successful mutation: the change of the pruned store, its recording and its size.
  pub mutated_sound :
      (mutation : SettingsStore → Change) (store next : SettingsStore) (result : Value)
      (bytes : p.Bytes)
      → mutated p clock system request mutation store ≡ ok (next, result)
      → p.encode next ≡ some bytes
      → let pruned = prune_expired_settings_receipts store clock.prune_now in
        (changed : SettingsStore) × (mutation pruned ≡ ok (changed, result))
        × (next ≡ recorded p clock system request pruned.records (changed, result))
        × WithinBounds next (length (p.octets bytes))
  unfolding mutated
  mutated_sound mutation store next result bytes h e =
      let pruned = prune_expired_settings_receipts store clock.prune_now in
      let (room, open_window, rest) =
        >>=-eq-ok
          (refuse_if
            (leb max_settings_mutation_receipts (length pruned.mutation_receipts)
              && not store.predecessor_capacity_recovery)
            (settings_capacity_failure request_id))
          _ h in
      let (change, made, sealed) = >>=-eq-ok (mutation pruned) _ rest in
      let (same_store, same_result, bounds) =
        admitted_sound (recorded p clock system request pruned.records change) next change.1 result
          bytes sealed e in
      (
        change.0,
        made ∙ ap (λ v. ok (change.0, v)) same_result,
        same_store
            ∙ ap (λ v. recorded p clock system request pruned.records (change.0, v)) same_result,
        bounds,
      )

  -- What recording adds to a change that touches the records alone.
  pub recorded_sound :
      (mutation : SettingsStore → Change) (store changed : SettingsStore) (result : Value)
      → ChangesRecords mutation
      → let pruned = prune_expired_settings_receipts store clock.prune_now in
        mutation pruned ≡ ok (changed, result)
        → let next = recorded p clock system request pruned.records (changed, result) in
          (IsNumbered store.history → IsChain next.history)
          × (next.schema_version ≡ store.schema_version)
          × (next.records ≡ changed.records)
          × (lookup request_id next.mutation_receipts
              ≡ some (receipt_of p clock system request result))
  unfolding recorded prune_expired_settings_receipts append_settings_history
  recorded_sound mutation store changed result only h =
      let pruned = prune_expired_settings_receipts store clock.prune_now in
      let untouched : changed ≡ record pruned { records = changed.records } =
        only pruned changed result h in
      (
        λ chain.
            (append_settings_history-IsChain p request clock.history_now store.records changed
              (subst IsChain (sym (ap (λ (s : SettingsStore). s.history) untouched)) chain.0)
              (subst (λ es. event_sequence (last_event es) < 2 ^ 64 - 1)
                (sym (ap (λ (s : SettingsStore). s.history) untouched)) chain.1)).0,
        ap (λ (s : SettingsStore). s.schema_version) untouched,
        refl,
        simp (lookup-insert_key, eq_refl),
      )

  -- A store that a mutation of the records wrote is within the steady-state bounds of 256 records,
  -- 1,024 events, 4,096 receipts and 4 MiB, its history is a chain if the history that was read is one
  -- whose last number is below `u64::MAX`, and it holds the receipt of the request.
  pub mutate_store_written :
      (mutation : SettingsStore → Change) (file : Option p.Bytes)
      → ChangesRecords mutation
      → ((store : SettingsStore)
          → opened p clock system request file ≡ ok store
          → IsNumbered store.history)
      → let outcome = mutate_store p clock system request mutation file in
        (outcome.1 ≡ file)
        ⊎ ((next : SettingsStore) × (bytes : p.Bytes) × (result : Value) × (outcome.1 ≡ some bytes)
            × (p.encode next ≡ some bytes)
            × WithinBounds next (length (p.octets bytes))
            × IsChain next.history
            × (lookup request_id next.mutation_receipts
                ≡ some (receipt_of p clock system request result)))
  mutate_store_written mutation file only chain =
      elim (mutate_store-Cases p clock system request mutation file) [
        | inl kept ↦ inl kept.same_file
        | inr wrote ↦
            let (changed, made, same, bounds) =
              mutated_sound mutation wrote.store wrote.next wrote.result wrote.bytes wrote.changes
                wrote.encodes in
            let (chained, _schema, _records, receipt) =
              recorded_sound mutation wrote.store changed wrote.result only made in
            inr (
              wrote.next,
              wrote.bytes,
              wrote.result,
              wrote.publishes,
              wrote.encodes,
              bounds,
              subst (λ s. IsChain s.history) (sym same) (chained (chain wrote.store wrote.opens)),
              ap (λ s. lookup request_id s.mutation_receipts) same ∙ receipt,
            )
      ]

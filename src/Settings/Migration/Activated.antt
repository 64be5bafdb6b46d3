-- ===== src/Settings/Migration/Activated.antt =====
-- What a migration does to the records: every activation becomes a record that resolves.
use agent_runner_opencode.Prelude.{
  find, position, All, ℕ, ◌+◌, String, ◌≡◌, refl, sym, ap, ◌∙◌, subst, false, Option, none, some,
  List, [], ◌∷◌, ◌++◌, arith, ◌==◌, eq_refl,
}
use agent_runner_opencode.Settings.Store.{SettingsRecord, SettingsStore, Platform}
use agent_runner_opencode.Settings.Records.{version_token, update_record, id_taken}
use agent_runner_opencode.Settings.Records.Laws.{
  DistinctIds, change_at-DistinctIds, push-DistinctIds, position_record, position-none,
  find-change_at, find-change_at_ne,
}
use agent_runner_opencode.Settings.Requests.{
  Clock, ensure_valid_settings, PersistedRuntimeRecord, resolve_persisted_runtime_record,
}
use agent_runner_opencode.Settings.Migration.{
  LegacyTable, Activation, legacy_provider_activations, upsert_at, upsert_migrated_record,
  upsert_all, legacy_diagnostics, migrate,
}
use agent_runner_opencode.Settings.Values.{migrated_values_for_account}
use agent_runner_opencode.Failure.{ok, >>=-eq-ok}
use agent_runner_opencode.Json.{Value}
use agent_runner_opencode.Account.{account_for_wrapper}
use agent_runner_opencode.Account.Laws.{reference_of_wrapper}
use agent_runner_opencode.Settings.Definition.{wrapper_value, validate_values}
use agent_runner_opencode.Settings.Requests.Created.{ok_inj}
use agent_runner_opencode.Settings.Requests.Routes.{resolve_valid}
use agent_runner_opencode.Settings.Values.Migrated.{migrated_values-valid}
use agent_runner_opencode.Settings.Migration.Tables.{
  DistinctActivations, DistinctNames, Declared, activations-distinct, activations-Declared,
}

find-append_new :
    (id : String) (rs : List SettingsRecord) (new : SettingsRecord)
    → id_taken rs id ≡ false
    → new.id ≡ id
    → find (λ q. q.id == id) (rs ++ new ∷ []) ≡ some new
unfolding id_taken
find-append_new id [] new free named = rw (named, eq_refl)
find-append_new id (r ∷ rs) new free named = ground (arith, find-append_new id rs new)

find-append_other :
    (id : String) (rs : List SettingsRecord) (new : SettingsRecord)
    → (new.id == id) ≡ false
    → find (λ q. q.id == id) (rs ++ new ∷ []) ≡ find (λ q. q.id == id) rs
find-append_other id [] new apart = rw apart refl
find-append_other id (r ∷ rs) new apart = ground (arith, find-append_other id rs new apart)

-- The identifier finds a record with the values that a migration writes for the account.
abbrev pub Activated : SettingsStore → Activation → Type 0
Activated store a =
    (r : SettingsRecord) × (find (λ q. q.id == a.settings_id) store.records ≡ some r)
    × (r.values ≡ migrated_values_for_account a.account)

module _ (p : Platform) (clock : Clock) (request_id : String) where
  abbrev upsert : ℕ → SettingsStore → Activation → SettingsStore
  upsert nth store a = upsert_migrated_record p clock request_id nth store a

  upsert_at_sound :
      (nth : ℕ) (store : SettingsStore) (a : Activation) (o : Option ℕ)
      → position (λ r. r.id == a.settings_id) store.records ≡ o
      → let changed = upsert_at p clock request_id nth store a o in
        Activated changed a
        × ((other : String)
            → (a.settings_id == other) ≡ false
            → find (λ r. r.id == other) changed.records ≡ find (λ r. r.id == other) store.records)
        × (DistinctIds store.records → DistinctIds changed.records)
        × (changed ≡ record store { records = changed.records })
  unfolding upsert_at update_record
  upsert_at_sound nth store a none at =
      let free = position-none a.settings_id store.records at in
      (
        (_, find-append_new a.settings_id store.records _ free refl, refl),
        λ other apart. find-append_other other store.records _ apart,
        λ distinct. push-DistinctIds store.records _ free distinct,
        refl,
      )
  upsert_at_sound nth store a (some index) at =
      let (old, _read, _named, found) = position_record a.settings_id store.records index at in
      let vs = migrated_values_for_account a.account in
      let token = version_token p (clock.version_now nth) a.settings_id vs request_id in
      let f : SettingsRecord → SettingsRecord = λ r. record r { version = token; values = vs } in
      (
        (f old, find-change_at f a.settings_id store.records index old (λ q. refl) at found, refl),
        λ other apart.
            find-change_at_ne f a.settings_id other store.records index (λ q. refl) at apart,
        λ distinct. change_at-DistinctIds f index store.records (λ q. refl) distinct,
        refl,
      )

  upsert_sound :
      (nth : ℕ) (store : SettingsStore) (a : Activation)
      → let changed = upsert nth store a in
        Activated changed a
        × ((other : String)
            → (a.settings_id == other) ≡ false
            → find (λ r. r.id == other) changed.records ≡ find (λ r. r.id == other) store.records)
        × (DistinctIds store.records → DistinctIds changed.records)
        × (changed ≡ record store { records = changed.records })
  unfolding upsert_migrated_record
  upsert_sound nth store a =
      upsert_at_sound nth store a (position (λ r. r.id == a.settings_id) store.records) refl

  -- The activations leave alone what an identifier finds that none of them has.
  upsert_all_keeps :
      (nth : ℕ) (store : SettingsStore) (acts : List Activation) (id : String)
      → All (λ b. (b.settings_id == id) ≡ false) acts
      → find (λ r. r.id == id) (upsert_all p clock request_id nth store acts).records
        ≡ find (λ r. r.id == id) store.records
  unfolding upsert_all
  upsert_all_keeps nth store [] id apart = refl
  upsert_all_keeps nth store (a ∷ acts) id apart =
      let (_active, others, _distinct, _only) = upsert_sound nth store a in
      upsert_all_keeps (nth + 1) (upsert nth store a) acts id apart.1 ∙ others id apart.0

  upsert_all_activates :
      (nth : ℕ) (store : SettingsStore) (acts : List Activation)
      → DistinctActivations acts
      → All (Activated (upsert_all p clock request_id nth store acts)) acts
  unfolding upsert_all
  upsert_all_activates nth store [] distinct = tt
  upsert_all_activates nth store (a ∷ acts) distinct =
      let ((r, found, valued), _others, _distinct, _only) = upsert_sound nth store a in
      (
        (
          r,
          upsert_all_keeps (nth + 1) (upsert nth store a) acts a.settings_id distinct.0 ∙ found,
          valued,
        ),
        upsert_all_activates (nth + 1) (upsert nth store a) acts distinct.1,
      )

  upsert_all_records :
      (nth : ℕ) (store : SettingsStore) (acts : List Activation)
      → let changed = upsert_all p clock request_id nth store acts in
        (DistinctIds store.records → DistinctIds changed.records)
        × (changed ≡ record store { records = changed.records })
  unfolding upsert_all
  upsert_all_records nth store [] = (λ d. d, refl)
  upsert_all_records nth store (a ∷ acts) =
      let (_active, _others, distinct, only) = upsert_sound nth store a in
      let (distinct_rest, only_rest) = upsert_all_records (nth + 1) (upsert nth store a) acts in
      let last = upsert_all p clock request_id (nth + 1) (upsert nth store a) acts in
      (
        λ d. distinct_rest (distinct d),
        only_rest ∙ ap (λ (s : SettingsStore). record s { records = last.records }) only,
      )

  migrate_parts :
      (table : Option LegacyTable) (store changed : SettingsStore) (v : Value)
      → migrate p clock request_id (some table) store ≡ ok (changed, v)
      → changed ≡ upsert_all p clock request_id 0 store (legacy_provider_activations table)
  unfolding migrate
  migrate_parts table store changed v h =
      let (_u, _valid, made) =
        >>=-eq-ok (ensure_valid_settings request_id (legacy_diagnostics table)) _ h in
      sym (ap (λ x. x.0) (ok_inj made))

  -- A migration that succeeds touches the records alone and keeps their identifiers distinct.
  pub migrate_records :
      (params : Option (Option LegacyTable)) (store changed : SettingsStore) (v : Value)
      → migrate p clock request_id params store ≡ ok (changed, v)
      → (DistinctIds store.records → DistinctIds changed.records)
        × (changed ≡ record store { records = changed.records })
  unfolding migrate
  migrate_records none store changed v h = cc
  migrate_records (some table) store changed v h =
      let (distinct, only) = upsert_all_records 0 store (legacy_provider_activations table) in
      subst
        (λ (s : SettingsStore).
          (DistinctIds store.records → DistinctIds s.records)
          × (s ≡ record store { records = s.records }))
        (sym (migrate_parts table store changed v h)) (distinct, only)

  -- The identifier resolves for a launch to the activation's account.
  abbrev pub Resolves : SettingsStore → String → Activation → Type 0
  Resolves store asking a =
      (resolved : PersistedRuntimeRecord) × (resolve_persisted_runtime_record store a.settings_id
          asking
        ≡ ok resolved)
      × (resolved.record_id ≡ a.settings_id)
      × (resolved.account ≡ a.account)

  activated→resolves :
      (store : SettingsStore) (asking : String) (a : Activation)
      → account_for_wrapper a.account.opencode_wrapper ≡ some a.account
      → Activated store a
      → Resolves store asking a
  unfolding wrapper_value migrated_values_for_account
  activated→resolves store asking a declared (r, found, valued) =
      let valid : validate_values (migrated_values_for_account a.account) ≡ [] =
        migrated_values-valid a.account.opencode_wrapper a.account
          (reference_of_wrapper a.account.opencode_wrapper a.account declared) in
      let (resolved, answers, id, _version, account, _route) =
        resolve_valid store a.settings_id asking r found (ap validate_values valued ∙ valid) in
      let named : some resolved.account ≡ some a.account =
        sym account ∙ ap (λ vs. account_for_wrapper (wrapper_value vs)) valued ∙ declared in
      (resolved, answers, id, cc named)

  activated→resolve-All :
      (store : SettingsStore) (asking : String) (acts : List Activation)
      → All Declared acts
      → All (Activated store) acts
      → All (Resolves store asking) acts
  activated→resolve-All store asking [] d h = tt
  activated→resolve-All store asking (a ∷ acts) d h =
      (activated→resolves store asking a d.0 h.0, activated→resolve-All store asking acts d.1 h.1)

  -- After a migration of a table with distinct names that succeeds, every activation of the table
  -- resolves for a launch: its name finds a valid record, of the account of its command.
  pub migrate-Resolves :
      (table : LegacyTable) (store changed : SettingsStore) (v : Value) (asking : String)
      → DistinctNames table
      → migrate p clock request_id (some (some table)) store ≡ ok (changed, v)
      → All (Resolves changed asking) (legacy_provider_activations (some table))
  migrate-Resolves table store changed v asking distinct h =
      let acts = legacy_provider_activations (some table) in
      activated→resolve-All changed asking acts (activations-Declared table) (
        subst (λ s. All (Activated s) acts) (sym (migrate_parts (some table) store changed v h))
          (upsert_all_activates 0 store acts (activations-distinct table distinct)))

-- ===== src/Settings/Migration/Tables.antt =====
-- The activations of a legacy table: their names are distinct and their accounts declared.
use agent_runner_opencode.Prelude.{
  All, All-append, String, ◌≡◌, refl, false, Option, none, some, List, [], ◌∷◌, ◌++◌, ◌==◌,
}
use agent_runner_opencode.Settings.Migration.{
  LegacyTable, Activation, legacy_provider_account, activation, legacy_provider_activations,
}
use agent_runner_opencode.Account.{AccountProfile, account_for_wrapper}
use agent_runner_opencode.Settings.Values.Normal.{account_of_declared}

-- No two activations have the same identifier.
abbrev pub DistinctActivations : List Activation → Type 0
DistinctActivations [] = Unit
DistinctActivations (a ∷ acts) =
    All (λ b. (b.settings_id == a.settings_id) ≡ false) acts × DistinctActivations acts

-- No two tables have the same name, which a TOML table ensures of its keys.
abbrev pub DistinctNames : LegacyTable → Type 0
DistinctNames [] = Unit
DistinctNames (e ∷ es) = All (λ f. (f.0 == e.0) ≡ false) es × DistinctNames es

abbrev pub Declared : Activation → Type 0
Declared a = account_for_wrapper a.account.opencode_wrapper ≡ some a.account

-- The activation of one table, if there is one, satisfies what its account gives.
activation-All :
    (P : Activation → Type 0) (id : String) (o : Option AccountProfile)
    → ((account : AccountProfile)
        → o ≡ some account
        → P (record { settings_id = id; account = account }))
    → All P (activation id o)
activation-All P id none f = tt
activation-All P id (some account) f = (f account refl, tt)

activation_distinct :
    (id : String) (o : Option AccountProfile) (acts : List Activation)
    → All (λ a. (a.settings_id == id) ≡ false) acts
    → DistinctActivations acts
    → DistinctActivations (activation id o ++ acts)
activation_distinct id none acts apart distinct = distinct
activation_distinct id (some account) acts apart distinct = (apart, distinct)

activations-apart :
    (name : String) (table : LegacyTable)
    → All (λ e. (e.0 == name) ≡ false) table
    → All (λ a. (a.settings_id == name) ≡ false) (legacy_provider_activations (some table))
unfolding legacy_provider_activations
activations-apart name [] h = tt
activations-apart name ((id, command) ∷ table) h =
    All-append (λ a. (a.settings_id == name) ≡ false)
      (activation id (legacy_provider_account command)) _
      (activation-All (λ a. (a.settings_id == name) ≡ false) id (legacy_provider_account command)
        (λ account e. h.0))
      (activations-apart name table h.1)

pub activations-distinct :
    (table : LegacyTable)
    → DistinctNames table
    → DistinctActivations (legacy_provider_activations (some table))
unfolding legacy_provider_activations
activations-distinct [] h = tt
activations-distinct ((id, command) ∷ table) h =
    activation_distinct id (legacy_provider_account command)
      (legacy_provider_activations (some table)) (activations-apart id table h.0)
      (activations-distinct table h.1)

pub activations-Declared :
    (table : LegacyTable) → All Declared (legacy_provider_activations (some table))
unfolding legacy_provider_activations legacy_provider_account
activations-Declared [] = tt
activations-Declared ((id, command) ∷ table) =
    All-append Declared (activation id (legacy_provider_account command)) _
      (activation-All Declared id (legacy_provider_account command)
        (λ account e. account_of_declared command account e))
      (activations-Declared table)

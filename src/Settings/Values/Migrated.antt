-- ===== src/Settings/Values/Migrated.antt =====
-- The values that a migration writes and the values that an upgrade writes are routable.
use agent_runner_opencode.Prelude.{
  if◌then◌else◌, find, All, String, ◌≡◌, refl, sym, ap, ◌∙◌, Bool, true, false, ◌&&◌, Option, none,
  some, List, [], ◌∷◌, arith, ◌==◌,
}
use agent_runner_opencode.Json.{Value, object, Fields, find_field, get, pointer, as_str}
use agent_runner_opencode.Account.{
  AccountProfile, accounts, account_for_wrapper, profile_for_wrapper_reference,
}
use agent_runner_opencode.Account.Laws.{declared_account}
use agent_runner_opencode.Models.{ModelAlias, model_aliases, model_alias}
use agent_runner_opencode.Models.Laws.{model_alias-name, find-All}
use agent_runner_opencode.Settings.Definition.{
  Diagnostic, wrapper_value, model_name_value, validate_values,
}
use agent_runner_opencode.Settings.Definition.Sound.{IsRoutable, validate_values-IsRoutable}
use agent_runner_opencode.Settings.Values.Normal.{account_of_declared}
use agent_runner_opencode.Settings.Values.{
  sanitize_value, migrated_values_for_account, first_text, persisted_settings_account, route_alias,
  alias_of, or_else, persisted_model_alias, copy_value, copy_persisted_optional_field,
  copy_preserve_flag, upgraded_fields, settings_valid, accepted_upgrade, upgrade_persisted_values,
}
use agent_runner_opencode.Json.Laws.{find_field-insert}

migrated-All : All (λ account. validate_values (migrated_values_for_account account) ≡ []) accounts
unfolding validate_values migrated_values_for_account account_for_wrapper
migrated-All = (refl, (refl, (refl, (refl, (refl, tt)))))

-- The values that a migration writes for a legacy command pass the whole validation.
pub migrated_values-valid :
    (reference : String) (account : AccountProfile)
    → profile_for_wrapper_reference reference ≡ some account
    → validate_values (migrated_values_for_account account) ≡ []
migrated_values-valid reference account h =
    find-All (λ a. validate_values (migrated_values_for_account a) ≡ [])
      (λ a. a.opencode_wrapper == account.opencode_wrapper) accounts account migrated-All
      (unfold account_for_wrapper in declared_account reference account h)

settings_valid→nil : (ds : List Diagnostic) → settings_valid ds ≡ true → ds ≡ []
settings_valid→nil [] h = refl
settings_valid→nil (d ∷ ds) h = cc

checked :
    (fresh upgraded : Value) (ds : List Diagnostic)
    → validate_values fresh ≡ ds
    → (if settings_valid ds then some fresh else none) ≡ some upgraded
    → (fresh ≡ upgraded) × (validate_values upgraded ≡ [])
checked fresh upgraded [] e h =
    let same : fresh ≡ upgraded = ground (arith, h) in (same, ap validate_values (sym same) ∙ e)
checked fresh upgraded (d ∷ ds) e h = cc

find_field-copy_value :
    (o : Option Value) (key j : String) (target : Fields)
    → (key == j) ≡ false
    → find_field j (copy_value o key target) ≡ find_field j target
find_field-copy_value none key j target h = refl
find_field-copy_value (some v) key j target h =
    find_field-insert key j (sanitize_value v) target ∙ rw h

-- A copied optional field leaves the fields under other keys as they were.
find_field-copy :
    (source : Value) (key j : String) (target : Fields)
    → (key == j) ≡ false
    → find_field j (copy_persisted_optional_field source key target) ≡ find_field j target
unfolding copy_persisted_optional_field
find_field-copy source key j target h = find_field-copy_value (get source key) key j target h

find_field-copy_flag :
    (flag : Option Bool) (j : String) (target : Fields)
    → ("launch" == j) ≡ false
    → find_field j (copy_preserve_flag flag target) ≡ find_field j target
unfolding copy_preserve_flag
find_field-copy_flag none j target h = refl
find_field-copy_flag (some preserve) j target h = rw (find_field-insert, h)

persisted_account_declared :
    (vs : Value) (account : AccountProfile)
    → persisted_settings_account vs ≡ some account
    → account_for_wrapper account.opencode_wrapper ≡ some account
unfolding persisted_settings_account
persisted_account_declared vs account h =
    account_of_declared
      (first_text vs ("wrapper" ∷ "profile" ∷ "opencode_wrapper" ∷ "account" ∷ [])) account h

-- Every model that a search of the catalogue finds is found by its name.
catalogued :
    (p : ModelAlias → Bool) (model : ModelAlias)
    → find p model_aliases ≡ some model
    → model_alias model.name ≡ some model
catalogued p model h =
    find-All (λ m. model_alias m.name ≡ some m) p model_aliases model model_alias-name h

alias_of_declared :
    (o : Option String) (model : ModelAlias)
    → alias_of o ≡ some model
    → model_alias model.name ≡ some model
alias_of_declared none model h = cc
alias_of_declared (some name) model h =
    catalogued (λ m. m.name == name) model (unfold model_alias in h)

route_alias_declared :
    (o p : Option String) (model : ModelAlias)
    → route_alias o p ≡ some model
    → model_alias model.name ≡ some model
route_alias_declared none p model h = cc
route_alias_declared (some provider_model) none model h = cc
route_alias_declared (some provider_model) (some effort) model h =
    catalogued (λ m. m.provider_model == provider_model && m.effort == effort) model h

either_declared :
    (o p : Option ModelAlias) (model : ModelAlias)
    → (o ≡ some model → model_alias model.name ≡ some model)
    → (p ≡ some model → model_alias model.name ≡ some model)
    → or_else o p ≡ some model
    → model_alias model.name ≡ some model
either_declared none p model f g h = g h
either_declared (some m) p model f g h = f h

persisted_model_declared :
    (vs : Value) (model : ModelAlias)
    → persisted_model_alias vs ≡ some model
    → model_alias model.name ≡ some model
unfolding persisted_model_alias
persisted_model_declared vs model h =
    let name = or_else (as_str (pointer vs "model" "name")) (as_str (get vs "model")) in
    let provider_model = as_str (pointer vs "model" "provider_model") in
    let variant = as_str (pointer vs "model" "variant") in
    either_declared (alias_of name) (route_alias provider_model variant) model
      (alias_of_declared name model) (route_alias_declared provider_model variant model) h

-- What an upgrade writes for the account and the model of the old values.
module _ (vs : Value) (account : AccountProfile) (model : ModelAlias) where
  abbrev fresh_value : Value
  fresh_value = object (upgraded_fields vs account model)

  upgraded_wrapper : wrapper_value fresh_value ≡ account.opencode_wrapper
  unfolding wrapper_value upgraded_fields
  upgraded_wrapper = simp (find_field-copy, find_field-copy_flag)

  upgraded_model : model_name_value fresh_value ≡ some model.name
  unfolding model_name_value upgraded_fields
  upgraded_model = simp (find_field-copy, find_field-copy_flag)

accepted_upgrade_sound :
    (vs : Value) (account : Option AccountProfile) (model : Option ModelAlias) (upgraded : Value)
    → persisted_settings_account vs ≡ account
    → persisted_model_alias vs ≡ model
    → accepted_upgrade vs account model ≡ some upgraded
    → (validate_values upgraded ≡ [])
      × (account ≡ account_for_wrapper (wrapper_value upgraded))
      × (model ≡ alias_of (model_name_value upgraded))
accepted_upgrade_sound vs none model upgraded a m h = cc
accepted_upgrade_sound vs (some account) none upgraded a m h = cc
accepted_upgrade_sound vs (some account) (some model) upgraded a m h =
    let fresh = fresh_value vs account model in
    let (same, valid) = checked fresh upgraded (validate_values fresh) refl h in
    let declared = persisted_account_declared vs account a in
    let named = persisted_model_declared vs model m in
    (
      valid,
      sym declared
          ∙ ap account_for_wrapper
              (sym (upgraded_wrapper vs account model) ∙ ap wrapper_value same),
      sym named ∙ ap alias_of (sym (upgraded_model vs account model) ∙ ap model_name_value same),
    )

-- What the upgrade of a predecessor's values answers with is valid and routable, and names the
-- account and the route of the catalogue that the old values name.
pub upgrade_persisted_values-IsRoutable :
    (vs upgraded : Value)
    → upgrade_persisted_values vs ≡ some upgraded
    → IsRoutable upgraded
      × (persisted_settings_account vs ≡ account_for_wrapper (wrapper_value upgraded))
      × (persisted_model_alias vs ≡ alias_of (model_name_value upgraded))
unfolding upgrade_persisted_values
upgrade_persisted_values-IsRoutable vs upgraded h =
    let (valid, account, model) =
      accepted_upgrade_sound vs (persisted_settings_account vs) (persisted_model_alias vs) upgraded
        refl refl h in
    (validate_values-IsRoutable upgraded valid, account, model)

-- ===== src/Settings/Values.antt =====
-- src/settings.rs: the values of a record. Secrets are dropped, the fields that the account decides are
-- overwritten, and values of a predecessor are upgraded.
pub mod Secrets
pub mod Normal
pub mod Migrated
use agent_runner_opencode.Prelude.{
  if◌then◌else◌, find, codes, contains, to_ascii_lowercase, String, Bool, true, false, ◌&&◌, ◌||◌,
  Option, none, some, List, [], ◌∷◌, map, ◌==◌,
}
use agent_runner_opencode.Json.{
  Value, null, boolean, number, text, array, object, Items, nil, cons, Fields, end, field,
  find_field, get, pointer, as_str, as_bool, insert, from_pairs, json,
}
use agent_runner_opencode.Account.{
  AccountProfile, profile_for_wrapper_reference, quota_auth_path, quota_source_kind,
  quota_probe_kind,
}
use agent_runner_opencode.Models.{ModelAlias, model_aliases, model_alias}
use agent_runner_opencode.Settings.Definition.{Diagnostic, validate_values}

unfoldable pub is_secret_key : String → Bool
is_secret_key key =
    let lower = map to_ascii_lowercase (codes key) in
    contains lower (codes "token")
    || contains lower (codes "secret")
    || contains lower (codes "password")
    || contains lower (codes "api_key")

unfoldable mutual
  pub sanitize_value : Value → Value
  sanitize_value (object fs) = object (sanitize_fields fs)
  sanitize_value (array xs) = array (sanitize_items xs)
  sanitize_value null = null
  sanitize_value (boolean b) = boolean b
  sanitize_value (number n) = number n
  sanitize_value (text s) = text s

  pub sanitize_items : Items → Items
  sanitize_items nil = nil
  sanitize_items (cons v xs) = cons (sanitize_value v) (sanitize_items xs)

  pub sanitize_fields : Fields → Fields
  sanitize_fields end = end
  sanitize_fields (field k v fs) =
      if is_secret_key k
      then sanitize_fields fs
      else field k (sanitize_value v) (sanitize_fields fs)

unfoldable pub settings_account_reference : Value → Option String
settings_account_reference value = elim (as_str (get value "wrapper")) [
  | some wrapper ↦ some wrapper
  | none ↦ as_str (get value "profile")
]

abbrev pub account_for_settings_reference : String → Option AccountProfile
account_for_settings_reference reference = profile_for_wrapper_reference reference

abbrev pub account_of : Option String → Option AccountProfile
account_of none = none
account_of (some reference) = account_for_settings_reference reference

unfoldable pub settings_value_account : Value → Option AccountProfile
unfolding settings_account_reference
settings_value_account value = account_of (settings_account_reference value)

-- The fields of the object that stands at a key, and none for what is no object.
abbrev pub child_fields : Option Value → Fields
child_fields (some (object fs)) = fs
child_fields _ = end

-- A change of the child object of a key, which `child_object` hands out.
unfoldable pub with_child_object : String → (Fields → Fields) → Fields → Fields
with_child_object key change fs = insert key (object (change (child_fields (find_field key fs)))) fs

abbrev pub set_quota : AccountProfile → Fields → Fields
set_quota account quota = insert "probe" (text (quota_probe_kind account)) (
    insert "auth_path" (text (quota_auth_path account))
      (insert "source" (text (quota_source_kind account)) quota))

unfoldable pub normalize_quota_value : AccountProfile → Fields → Fields
unfolding with_child_object
normalize_quota_value account fs = with_child_object "quota" (set_quota account) fs

abbrev pub set_launch : Fields → Fields
set_launch launch =
    insert "dangerously_skip_permissions" (boolean true) (insert "format" (text "json") launch)

unfoldable pub normalize_launch_value : Fields → Fields
unfolding with_child_object
normalize_launch_value fs = with_child_object "launch" set_launch fs

abbrev pub set_identity : AccountProfile → Fields → Fields
set_identity account fs =
    insert "wrapper" (text account.opencode_wrapper)
      (insert "profile" (text account.opencode_wrapper) (insert "provider" (text "opencode") fs))

unfoldable pub normalize_account_settings_value : Value → AccountProfile → Value
unfolding normalize_quota_value normalize_launch_value
normalize_account_settings_value (object fs) account =
    object (normalize_launch_value (normalize_quota_value account (set_identity account fs)))
normalize_account_settings_value value account = value

abbrev pub normalized_for : Value → Option AccountProfile → Value
normalized_for value none = value
normalized_for value (some account) = normalize_account_settings_value value account

unfoldable pub normalize_settings_value : Value → Value
unfolding settings_value_account normalize_account_settings_value
normalize_settings_value value = normalized_for value (settings_value_account value)

abbrev pub quota_json : AccountProfile → Value
quota_json account = json (
    ("source", text (quota_source_kind account))
    ∷ ("auth_path", text (quota_auth_path account))
    ∷ ("probe", text (quota_probe_kind account))
    ∷ [])

abbrev pub launch_json : Value
launch_json = json (("format", text "json") ∷ ("dangerously_skip_permissions", boolean true) ∷ [])

unfoldable pub migrated_values_for_account : AccountProfile → Value
unfolding from_pairs
migrated_values_for_account account = json (
    ("provider", text "opencode")
    ∷ ("profile", text account.opencode_wrapper)
    ∷ ("wrapper", text account.opencode_wrapper)
    ∷ ("model", json (("selection", text "requested") ∷ []))
    ∷ ("quota", quota_json account)
    ∷ ("launch", launch_json)
    ∷ [])

-- `[..].into_iter().find_map(|key| values.get(key).and_then(as_str))`
abbrev pub first_text : Value → List String → Option String
first_text vs [] = none
first_text vs (key ∷ rest) =
    let later = first_text vs rest in elim (as_str (get vs key)) [ some s ↦ some s | none ↦ later ]

unfoldable pub persisted_settings_account : Value → Option AccountProfile
persisted_settings_account vs =
    account_of (first_text vs ("wrapper" ∷ "profile" ∷ "opencode_wrapper" ∷ "account" ∷ []))

abbrev pub route_alias : Option String → Option String → Option ModelAlias
route_alias (some provider_model) (some effort) =
    find (λ model. model.provider_model == provider_model && model.effort == effort) model_aliases
route_alias _ _ = none

abbrev pub alias_of : Option String → Option ModelAlias
alias_of none = none
alias_of (some name) = model_alias name

abbrev pub or_else {ℓ} : {A : Type ℓ} → Option A → Option A → Option A
or_else (some a) other = some a
or_else none other = other

unfoldable pub persisted_model_alias : Value → Option ModelAlias
persisted_model_alias vs =
    or_else (alias_of (or_else (as_str (pointer vs "model" "name")) (as_str (get vs "model")))) (
      route_alias (as_str (pointer vs "model" "provider_model"))
        (as_str (pointer vs "model" "variant")))

abbrev pub copy_value : Option Value → String → Fields → Fields
copy_value none key target = target
copy_value (some value) key target = insert key (sanitize_value value) target

-- `target[field] = sanitize_value(value)` where the source has the field.
unfoldable pub copy_persisted_optional_field : Value → String → Fields → Fields
copy_persisted_optional_field source key target = copy_value (get source key) key target

-- `upgraded["launch"]["preserve_pure_wrapper"] = json!(preserve)` where the source has the flag.
unfoldable pub copy_preserve_flag : Option Bool → Fields → Fields
unfolding with_child_object
copy_preserve_flag none target = target
copy_preserve_flag (some preserve) target =
    with_child_object "launch" (insert "preserve_pure_wrapper" (boolean preserve)) target

unfoldable pub upgraded_fields : Value → AccountProfile → ModelAlias → Fields
unfolding from_pairs copy_persisted_optional_field copy_preserve_flag
upgraded_fields vs account model =
    copy_preserve_flag (as_bool (pointer vs "launch" "preserve_pure_wrapper")) (
      copy_persisted_optional_field vs "mode" (
        copy_persisted_optional_field vs "working_directory" (
          copy_persisted_optional_field vs "extra_env" (
            from_pairs (
              ("provider", text "opencode")
              ∷ ("profile", text account.opencode_wrapper)
              ∷ ("wrapper", text account.opencode_wrapper)
              ∷ (
                "model",
                json (
                    ("name", text model.name)
                    ∷ ("provider_model", text model.provider_model)
                    ∷ ("variant", text model.effort)
                    ∷ []),
              )
              ∷ ("quota", quota_json account)
              ∷ ("launch", launch_json)
              ∷ [])))))

abbrev pub settings_valid : List Diagnostic → Bool
settings_valid [] = true
settings_valid (d ∷ ds) = false

abbrev pub accepted_upgrade : Value → Option AccountProfile → Option ModelAlias → Option Value
accepted_upgrade vs (some account) (some model) =
    let upgraded = object (upgraded_fields vs account model) in
    if settings_valid (validate_values upgraded) then some upgraded else none
accepted_upgrade vs _ _ = none

unfoldable pub upgrade_persisted_values : Value → Option Value
unfolding persisted_settings_account persisted_model_alias upgraded_fields
upgrade_persisted_values vs =
    accepted_upgrade vs (persisted_settings_account vs) (persisted_model_alias vs)

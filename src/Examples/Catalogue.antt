-- ===== src/Examples/Catalogue.antt =====
-- Tests and examples of the accounts, the catalogue, the encoding and the settings values.
use agent_runner_opencode.Prelude.{All, ◌≡◌, refl, true, false, some, [], ◌∷◌, arith}
use agent_runner_opencode.Json.{
  Value, text, object, field, end, get, pointer, as_str, as_bool, from_pairs, json,
}
use agent_runner_opencode.Account.{
  account_one, profile_for_account_reference, account_for_wrapper, profile_for_wrapper_reference,
}
use agent_runner_opencode.Account.Laws.{profile_for_account_reference-eq-wrapper}
use agent_runner_opencode.Models.{sol_provider_model, ModelAlias, alias, model_alias}
use agent_runner_opencode.Encoding.Base64.{Decoded, encode_base64, decode_base64}
use agent_runner_opencode.Encoding.Base64.RoundTrip.{IsByte, decode-encode_base64}
use agent_runner_opencode.Settings.Definition.{wrapper_value, model_name_value, validate_values}
use agent_runner_opencode.Settings.Definition.Sound.{NamesAccount, IsRoutable}
use agent_runner_opencode.Settings.Values.{
  is_secret_key, sanitize_value, settings_value_account, normalize_settings_value,
  migrated_values_for_account, persisted_settings_account, alias_of, persisted_model_alias,
  upgraded_fields, upgrade_persisted_values,
}
use agent_runner_opencode.Settings.Values.Secrets.{NoSecret, sanitize_value-NoSecret}
use agent_runner_opencode.Settings.Values.Normal.{normalize_settings_value-NamesAccount}
use agent_runner_opencode.Settings.Values.Migrated.{
  migrated_values-valid, upgrade_persisted_values-IsRoutable,
}

profile_for_account_reference-eq-wrapper_example :
    profile_for_account_reference "opencode" ≡ profile_for_wrapper_reference "opencode"
profile_for_account_reference-eq-wrapper_example =
    profile_for_account_reference-eq-wrapper "opencode"

abbrev gpt_high : ModelAlias
gpt_high = alias "gpt-high" sol_provider_model "high"

gpt_high_listed : model_alias "gpt-high" ≡ some gpt_high
unfolding model_alias
gpt_high_listed = refl

four_bytes : All IsByte (104 ∷ 0 ∷ 255 ∷ 7 ∷ [])
four_bytes = (omega arith, (omega arith, (omega arith, (omega arith, tt))))

decode-encode_base64_example :
    decode_base64 (encode_base64 (104 ∷ 0 ∷ 255 ∷ 7 ∷ [])) ≡ Decoded.ok (104 ∷ 0 ∷ 255 ∷ 7 ∷ [])
decode-encode_base64_example = decode-encode_base64 (104 ∷ 0 ∷ 255 ∷ 7 ∷ []) four_bytes

-- Values with a key that is no secret, and with one that is.
abbrev with_secret : Value
with_secret = json (("wrapper", text "opencode2") ∷ ("api_key", text "k") ∷ [])

sanitize_value-NoSecret_example : NoSecret (sanitize_value with_secret)
sanitize_value-NoSecret_example = sanitize_value-NoSecret with_secret

wrapper_public : is_secret_key "wrapper" ≡ false
unfolding is_secret_key
wrapper_public = refl

wrapper_NoSecret : NoSecret (json (("wrapper", text "opencode2") ∷ []))
unfolding from_pairs
wrapper_NoSecret = (wrapper_public, tt, tt)

named_account :
    settings_value_account (object (field "wrapper" (text "opencode1") end)) ≡ some account_one
unfolding settings_value_account profile_for_wrapper_reference account_for_wrapper
named_account = refl

normalize_settings_value-NamesAccount_example :
    let vs = normalize_settings_value (object (field "wrapper" (text "opencode1") end)) in
    NamesAccount vs account_one
    × (as_str (get vs "profile") ≡ some "opencode1")
    × (as_str (get vs "provider") ≡ some "opencode")
    × (as_str (pointer vs "launch" "format") ≡ some "json")
    × (as_bool (pointer vs "launch" "dangerously_skip_permissions") ≡ some true)
normalize_settings_value-NamesAccount_example =
    normalize_settings_value-NamesAccount (field "wrapper" (text "opencode1") end) account_one
      named_account

bare_account : profile_for_wrapper_reference "opencode" ≡ some account_one
unfolding profile_for_wrapper_reference account_for_wrapper
bare_account = refl

migrated_values-valid_example : validate_values (migrated_values_for_account account_one) ≡ []
migrated_values-valid_example = migrated_values-valid "opencode" account_one bare_account

-- A predecessor's values, and what the upgrade makes of them.
abbrev old_values : Value
old_values = json (("wrapper", text "opencode1") ∷ ("model", text "gpt-high") ∷ [])

abbrev new_values : Value
new_values = object (upgraded_fields old_values account_one gpt_high)

upgrades : upgrade_persisted_values old_values ≡ some new_values
unfolding upgrade_persisted_values profile_for_wrapper_reference account_for_wrapper model_alias
    validate_values
upgrades = refl

upgrade_persisted_values-IsRoutable_example :
    IsRoutable new_values
    × (persisted_settings_account old_values ≡ account_for_wrapper (wrapper_value new_values))
    × (persisted_model_alias old_values ≡ alias_of (model_name_value new_values))
upgrade_persisted_values-IsRoutable_example =
    upgrade_persisted_values-IsRoutable old_values new_values upgrades

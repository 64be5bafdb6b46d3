-- ===== src/Settings/Definition.antt =====
-- src/settings_definition.rs: the executable validation of a settings value. Each check answers with
-- the diagnostics that it pushes; a diagnostic's `message` is text for people and is not modelled.
pub mod Sound
use agent_runner_opencode.Prelude.{
  eqb, if◌then◌else◌, length, any, all, filter, concat, String, Bool, true, false, ◌&&◌, ◌||◌, not,
  Option, none, some, List, [], ◌∷◌, ◌++◌, map, ◌==◌,
}
use agent_runner_opencode.Json.{
  Value, Fields, field, get, pointer, as_str, as_bool, as_object, or_null, keys, values,
}
use agent_runner_opencode.Account.{
  AccountProfile, account_for_wrapper, quota_auth_path, quota_source_kind, quota_probe_kind,
}
use agent_runner_opencode.Models.{ModelAlias, model_alias, is_text, matches}

pub record Diagnostic : Type 0 where
  pub severity : String
  pub path : String
  pub code : String

abbrev pub diagnostic : String → String → String → Diagnostic
diagnostic severity path code = record { severity = severity; path = path; code = code }

abbrev pub shape_diagnostic : String → Diagnostic
shape_diagnostic path = diagnostic "error" path "invalid_settings_schema_shape"

abbrev pub settings_fields : List String
settings_fields =
    "provider" ∷ "profile" ∷ "wrapper" ∷ "model" ∷ "quota" ∷ "launch" ∷ "extra_env"
    ∷ "working_directory" ∷ "mode" ∷ []

abbrev pub model_fields : List String
model_fields = "selection" ∷ "name" ∷ "provider_model" ∷ "variant" ∷ []

abbrev pub quota_fields : List String
quota_fields = "source" ∷ "auth_path" ∷ "probe" ∷ []

abbrev pub launch_fields : List String
launch_fields = "dangerously_skip_permissions" ∷ "format" ∷ "preserve_pure_wrapper" ∷ []

-- `unwrap_or_default`
abbrev pub or_empty : Option String → String
or_empty none = ""
or_empty (some s) = s

unfoldable pub wrapper_value : Value → String
wrapper_value vs = or_empty (as_str (get vs "wrapper"))

unfoldable pub model_name_value : Value → Option String
model_name_value vs = as_str (pointer vs "model" "name")

unfoldable pub provider_model_value : Value → Option String
provider_model_value vs = as_str (pointer vs "model" "provider_model")

unfoldable pub model_variant_value : Value → Option String
model_variant_value vs = as_str (pointer vs "model" "variant")

unfoldable pub quota_value : Value → String → Option String
quota_value vs key = as_str (pointer vs "quota" key)

abbrev pub outside : List String → String → Bool
outside allowed key = not (any (λ field. field == key) allowed)

unfoldable pub object_shape : Option Fields → String → List String → List Diagnostic
object_shape none path allowed = shape_diagnostic path ∷ []
object_shape (some fields) path allowed =
    map (λ key. shape_diagnostic (concat path (concat "." key)))
      (filter (outside allowed) (keys fields))

unfoldable pub require_object_shape : Value → String → List String → List Diagnostic
unfolding object_shape
require_object_shape value path allowed = object_shape (as_object (some value)) path allowed

unfoldable pub require_string : Value → String → String → List Diagnostic
require_string vs key expected =
    if is_text (as_str (get vs key)) expected
    then []
    else diagnostic "error" (concat "values." key) "invalid_settings_value" ∷ []

unfoldable pub require_known_wrapper : Value → List Diagnostic
unfolding wrapper_value
require_known_wrapper vs = elim (account_for_wrapper (wrapper_value vs)) [
  | some account ↦ []
  | none ↦ diagnostic "error" "values.wrapper" "invalid_wrapper" ∷ []
]

abbrev pub is_none {ℓ} : {A : Type ℓ} → Option A → Bool
is_none none = true
is_none (some a) = false

unfoldable pub require_matching_profile : Value → List Diagnostic
unfolding wrapper_value
require_matching_profile vs =
    if is_none (get vs "profile") || is_text (as_str (get vs "profile")) (wrapper_value vs)
    then []
    else shape_diagnostic "values.profile" ∷ []

abbrev pub invalid_model_alias_diagnostic : Diagnostic
invalid_model_alias_diagnostic = diagnostic "error" "values.model.name" "invalid_model_alias"

abbrev pub has_one_field : Option Fields → Bool
has_one_field none = false
has_one_field (some fields) = eqb (length (keys fields)) 1

-- `require_model` from `let Some(model) = model_alias(name)` on.
unfoldable pub require_route : Value → String → Option ModelAlias → List Diagnostic
unfolding provider_model_value model_variant_value matches
require_route vs name none = invalid_model_alias_diagnostic ∷ []
require_route vs name (some model) =
    if matches model (provider_model_value vs) (model_variant_value vs)
    then []
    else (if is_text (provider_model_value vs) model.provider_model
        then []
        else diagnostic "error" "values.model.provider_model" "invalid_provider_model" ∷ [])
      ++ (if is_text (model_variant_value vs) model.effort
          then []
          else diagnostic "error" "values.model.variant" "invalid_model_variant" ∷ [])

unfoldable pub require_named_model : Value → Option String → List Diagnostic
unfolding require_route
require_named_model vs none = invalid_model_alias_diagnostic ∷ []
require_named_model vs (some name) = require_route vs name (model_alias name)

-- `require_model` from the test of the selection on, which is the Boolean.
unfoldable pub require_selected_model : Bool → Value → List Diagnostic
unfolding require_named_model model_name_value
require_selected_model true vs =
    if has_one_field (as_object (get vs "model")) then [] else shape_diagnostic "values.model" ∷ []
require_selected_model false vs = require_named_model vs (model_name_value vs)

unfoldable pub require_model : Value → List Diagnostic
unfolding require_object_shape require_selected_model
require_model vs =
    require_object_shape (or_null (get vs "model")) "values.model" model_fields
    ++ require_selected_model (is_text (as_str (pointer vs "model" "selection")) "requested") vs

abbrev pub invalid_quota_auth_path_diagnostic : Diagnostic
invalid_quota_auth_path_diagnostic =
    diagnostic "error" "values.quota.auth_path" "invalid_quota_auth_path"

unfoldable pub require_account_quota : Value → Option AccountProfile → List Diagnostic
unfolding quota_value
require_account_quota vs none = invalid_quota_auth_path_diagnostic ∷ []
require_account_quota vs (some account) =
    if is_text (quota_value vs "source") (quota_source_kind account)
      && is_text (quota_value vs "auth_path") (quota_auth_path account)
      && is_text (quota_value vs "probe") (quota_probe_kind account)
    then []
    else invalid_quota_auth_path_diagnostic ∷ []

unfoldable pub require_quota : Value → List Diagnostic
unfolding require_object_shape require_account_quota wrapper_value
require_quota vs =
    require_object_shape (or_null (get vs "quota")) "values.quota" quota_fields
    ++ require_account_quota vs (account_for_wrapper (wrapper_value vs))

abbrev pub is_true : Option Bool → Bool
is_true none = false
is_true (some b) = b

abbrev pub complain : Bool → String → List Diagnostic
complain good path = if good then [] else shape_diagnostic path ∷ []

unfoldable pub require_launch : Value → List Diagnostic
unfolding require_object_shape
require_launch vs =
    let launch = or_null (get vs "launch") in
    require_object_shape launch "values.launch" launch_fields
    ++ complain (is_text (as_str (get launch "format")) "json") "values.launch.format"
    ++ complain (is_true (as_bool (get launch "dangerously_skip_permissions")))
        "values.launch.dangerously_skip_permissions"
    ++ complain
        (is_none (get launch "preserve_pure_wrapper")
          || not (is_none (as_bool (get launch "preserve_pure_wrapper"))))
        "values.launch.preserve_pure_wrapper"

abbrev pub is_string : Value → Bool
is_string v = not (is_none (as_str (some v)))

abbrev pub is_string_map : Option Fields → Bool
is_string_map none = false
is_string_map (some fields) = all is_string (values fields)

abbrev pub is_non_empty : Option String → Bool
is_non_empty none = false
is_non_empty (some s) = not (s == "")

unfoldable pub require_optional_fields : Value → List Diagnostic
require_optional_fields vs =
    complain (is_none (get vs "extra_env") || is_string_map (as_object (get vs "extra_env")))
      "values.extra_env"
    ++ complain
        (is_none (get vs "working_directory") || is_non_empty (as_str (get vs "working_directory")))
        "values.working_directory"
    ++ complain
        (is_none (get vs "mode")
          || is_text (as_str (get vs "mode")) "interactive"
          || is_text (as_str (get vs "mode")) "non_interactive")
        "values.mode"

unfoldable pub validate_values : Value → List Diagnostic
unfolding require_object_shape require_string require_known_wrapper require_matching_profile
    require_model require_quota require_launch require_optional_fields
validate_values vs =
    require_object_shape vs "values" settings_fields
    ++ (require_string vs "provider" "opencode"
        ++ (require_known_wrapper vs
            ++ (require_matching_profile vs
                ++ (require_model vs
                    ++ (require_quota vs ++ (require_launch vs ++ require_optional_fields vs))))))

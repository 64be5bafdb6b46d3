-- ===== src/Settings/Definition/Sound.antt =====
-- What the validation accepts: a value without diagnostics names one declared account and
-- pins either no route or one whole route of the catalogue.
use agent_runner_opencode.Prelude.{
  if◌then◌else◌, Bool-cases, append-eq_nil, eq_of, String, ◌≡◌, refl, sym, ap, ◌∙◌, ◌⊎◌, inl, inr,
  Bool, true, false, ◌&&◌, ◌||◌, Option, none, some, [], ◌∷◌, arith, ◌==◌,
}
use agent_runner_opencode.Json.{
  Value, null, boolean, number, text, array, object, Fields, field, end, find_field, get, get_in,
  pointer, as_str, as_bool, as_object, or_null,
}
use agent_runner_opencode.Account.{
  AccountProfile, account_for_wrapper, quota_auth_path, quota_source_kind, quota_probe_kind,
}
use agent_runner_opencode.Models.{ModelAlias, same_model, model_alias, is_text}
use agent_runner_opencode.Models.Laws.{model_alias_name}
use agent_runner_opencode.Settings.Definition.{
  shape_diagnostic, settings_fields, model_fields, quota_fields, wrapper_value, model_name_value,
  provider_model_value, model_variant_value, quota_value, require_object_shape, require_string,
  require_known_wrapper, is_none, require_matching_profile, has_one_field, require_route,
  require_named_model, require_selected_model, require_model, require_account_quota, require_quota,
  is_true, complain, require_launch, validate_values,
}

pub is_text→eq : (o : Option String) (s : String) → is_text o s ≡ true → o ≡ some s
is_text→eq none s h = cc
is_text→eq (some t) s h = ap some (eq_of t s h)

complain→true : (good : Bool) (path : String) → complain good path ≡ [] → good ≡ true
complain→true good path h = ground arith

-- The route that a value pins: none, where the record is open to any advertised model, or one whole
-- row of the catalogue.
abbrev pub BindsModel : Value → Type 0
BindsModel vs =
    ((as_str (pointer vs "model" "selection") ≡ some "requested") × (model_name_value vs ≡ none))
    ⊎ ((model : ModelAlias) × (model_alias model.name ≡ some model)
        × (model_name_value vs ≡ some model.name)
        × (provider_model_value vs ≡ some model.provider_model)
        × (model_variant_value vs ≡ some model.effort))

-- The account that a value names, as its wrapper and in its quota fields.
pub record NamesAccount (vs : Value) (account : AccountProfile) : Type 0 where
  pub wrapper : account_for_wrapper (wrapper_value vs) ≡ some account
  pub source : quota_value vs "source" ≡ some (quota_source_kind account)
  pub auth_path : quota_value vs "auth_path" ≡ some (quota_auth_path account)
  pub probe : quota_value vs "probe" ≡ some (quota_probe_kind account)

pub record IsRoutable (vs : Value) : Type 0 where
  pub provider : as_str (get vs "provider") ≡ some "opencode"
  pub account : AccountProfile
  pub names_account : NamesAccount vs account
  pub profile : (get vs "profile" ≡ none) ⊎ (as_str (get vs "profile") ≡ some (wrapper_value vs))
  pub binds_model : BindsModel vs
  pub format : as_str (pointer vs "launch" "format") ≡ some "json"
  pub permissions : as_bool (pointer vs "launch" "dangerously_skip_permissions") ≡ some true

require_string_sound :
    (vs : Value) (key expected : String)
    → require_string vs key expected ≡ []
    → as_str (get vs key) ≡ some expected
unfolding require_string
require_string_sound vs key expected h = is_text→eq (as_str (get vs key)) expected (ground arith)

and→both : (a b : Bool) → (a && b) ≡ true → (a ≡ true) × (b ≡ true)
and→both a b h = ground arith

require_account_quota_sound :
    (vs : Value) (o : Option AccountProfile)
    → account_for_wrapper (wrapper_value vs) ≡ o
    → require_account_quota vs o ≡ []
    → (account : AccountProfile) × NamesAccount vs account
unfolding require_account_quota
require_account_quota_sound vs none e h = cc
require_account_quota_sound vs (some account) e h =
    let (first_two, third) =
      and→both
        (is_text (quota_value vs "source") (quota_source_kind account)
          && is_text (quota_value vs "auth_path") (quota_auth_path account))
        (is_text (quota_value vs "probe") (quota_probe_kind account)) (ground arith) in
    let (first, second) =
      and→both (is_text (quota_value vs "source") (quota_source_kind account))
        (is_text (quota_value vs "auth_path") (quota_auth_path account)) first_two in
    (
      account,
      record {
        wrapper = e;
        source = is_text→eq (quota_value vs "source") (quota_source_kind account) first;
        auth_path = is_text→eq (quota_value vs "auth_path") (quota_auth_path account) second;
        probe = is_text→eq (quota_value vs "probe") (quota_probe_kind account) third;
      },
    )

pub require_quota_sound :
    (vs : Value) → require_quota vs ≡ [] → (account : AccountProfile) × NamesAccount vs account
unfolding require_quota
require_quota_sound vs h =
    require_account_quota_sound vs (account_for_wrapper (wrapper_value vs)) refl
      (append-eq_nil (require_object_shape (or_null (get vs "quota")) "values.quota" quota_fields) _
        h).1

is_true→eq : (o : Option Bool) → is_true o ≡ true → o ≡ some true
is_true→eq none h = cc
is_true→eq (some b) h = ap some h

-- An object whose one field is the selection has no name.
lone_selection :
    (fields : Fields) (s : String)
    → has_one_field (some fields) ≡ true
    → as_str (find_field "selection" fields) ≡ some s
    → as_str (find_field "name" fields) ≡ none
lone_selection end s h e = refl
lone_selection (field k v end) s h e = elim (Bool-cases (k == "selection")) [
  | inl selection ↦ rw (eq_of k "selection" selection) refl
  | inr other ↦ ground (arith, other)
]
lone_selection (field k v (field j w fs)) s h e = ground arith

unpinned :
    (model : Option Value) (s : String)
    → has_one_field (as_object model) ≡ true
    → as_str (get_in model "selection") ≡ some s
    → as_str (get_in model "name") ≡ none
unpinned none s h e = cc
unpinned (some (object fields)) s h e = lone_selection fields s h e
unpinned (some null) s h e = cc
unpinned (some (boolean b)) s h e = cc
unpinned (some (number n)) s h e = cc
unpinned (some (text t)) s h e = cc
unpinned (some (array xs)) s h e = cc

require_route_sound :
    (vs : Value) (name : String) (o : Option ModelAlias)
    → model_alias name ≡ o
    → model_name_value vs ≡ some name
    → require_route vs name o ≡ []
    → BindsModel vs
unfolding require_route
require_route_sound vs name none e n h = cc
require_route_sound vs name (some model) e n h =
    let named : model.name ≡ name = model_alias_name name model e in
    let (same_model, same_effort) =
      and→both (is_text (provider_model_value vs) model.provider_model)
        (is_text (model_variant_value vs) model.effort) (ground arith) in
    inr (
      model,
      ap model_alias named ∙ e,
      n ∙ ap some (sym named),
      is_text→eq (provider_model_value vs) model.provider_model same_model,
      is_text→eq (model_variant_value vs) model.effort same_effort,
    )

require_named_model_sound :
    (vs : Value) (o : Option String)
    → model_name_value vs ≡ o
    → require_named_model vs o ≡ []
    → BindsModel vs
unfolding require_named_model
require_named_model_sound vs none e h = cc
require_named_model_sound vs (some name) e h =
    require_route_sound vs name (model_alias name) refl e h

require_selected_model_sound :
    (requested : Bool) (vs : Value)
    → is_text (as_str (pointer vs "model" "selection")) "requested" ≡ requested
    → require_selected_model requested vs ≡ []
    → BindsModel vs
unfolding require_selected_model
require_selected_model_sound true vs e h =
    let selected : as_str (pointer vs "model" "selection") ≡ some "requested" =
      is_text→eq (as_str (pointer vs "model" "selection")) "requested" e in
    let unnamed : as_str (pointer vs "model" "name") ≡ none =
      unpinned (get vs "model") "requested" (ground arith) selected in
    inl (selected, unfold model_name_value in unnamed)
require_selected_model_sound false vs e h =
    require_named_model_sound vs (model_name_value vs) refl h

pub require_model_sound : (vs : Value) → require_model vs ≡ [] → BindsModel vs
unfolding require_model
require_model_sound vs h =
    require_selected_model_sound (is_text (as_str (pointer vs "model" "selection")) "requested") vs
      refl
      (append-eq_nil (require_object_shape (or_null (get vs "model")) "values.model" model_fields) _
        h).1

profile_sound :
    (profile : Option Value) (wrapper : String)
    → (if is_none profile || is_text (as_str profile) wrapper
        then []
        else shape_diagnostic "values.profile" ∷ [])
      ≡ []
    → (profile ≡ none) ⊎ (as_str profile ≡ some wrapper)
profile_sound none wrapper h = inl refl
profile_sound (some v) wrapper h = inr (is_text→eq (as_str (some v)) wrapper (ground (arith, h)))

require_matching_profile_sound :
    (vs : Value)
    → require_matching_profile vs ≡ []
    → (get vs "profile" ≡ none) ⊎ (as_str (get vs "profile") ≡ some (wrapper_value vs))
unfolding require_matching_profile
require_matching_profile_sound vs h = profile_sound (get vs "profile") (wrapper_value vs) h

launch_sound :
    (launch : Option Value)
    → complain (is_text (as_str (get (or_null launch) "format")) "json") "values.launch.format" ≡ []
    → complain
        (is_true (as_bool (get (or_null launch) "dangerously_skip_permissions")))
        "values.launch.dangerously_skip_permissions"
      ≡ []
    → (as_str (get_in launch "format") ≡ some "json")
      × (as_bool (get_in launch "dangerously_skip_permissions") ≡ some true)
launch_sound none h k = cc
launch_sound (some v) h k = (
  is_text→eq (as_str (get v "format")) "json" (complain→true _ "values.launch.format" h),
  is_true→eq (as_bool (get v "dangerously_skip_permissions"))
      (complain→true _ "values.launch.dangerously_skip_permissions" k),
)

require_launch_sound :
    (vs : Value)
    → require_launch vs ≡ []
    → (as_str (pointer vs "launch" "format") ≡ some "json")
      × (as_bool (pointer vs "launch" "dangerously_skip_permissions") ≡ some true)
unfolding require_launch
require_launch_sound vs h =
    let (front, preserve) = append-eq_nil _ _ h in
    let (shape_format, permissions) = append-eq_nil _ _ front in
    let (shape, format) = append-eq_nil _ _ shape_format in
    launch_sound (get vs "launch") format permissions

-- A settings value that the validation accepts is routable: its provider is this one, its wrapper is
-- a declared account's, its profile is its wrapper where it has one, its quota fields are that account's,
-- its launch is the managed one, and it
-- pins either no model or one whole route of the catalogue.
pub validate_values-IsRoutable : (vs : Value) → validate_values vs ≡ [] → IsRoutable vs
unfolding validate_values
validate_values-IsRoutable vs h =
    let (_shape, after_shape) =
      append-eq_nil (require_object_shape vs "values" settings_fields) _ h in
    let (provider, after_provider) =
      append-eq_nil (require_string vs "provider" "opencode") _ after_shape in
    let (_known, after_known) = append-eq_nil (require_known_wrapper vs) _ after_provider in
    let (profile, after_profile) = append-eq_nil (require_matching_profile vs) _ after_known in
    let (model, after_model) = append-eq_nil (require_model vs) _ after_profile in
    let (quota, after_quota) = append-eq_nil (require_quota vs) _ after_model in
    let (launch, _optional) = append-eq_nil (require_launch vs) _ after_quota in
    let (account, names) = require_quota_sound vs quota in
    let (format, permissions) = require_launch_sound vs launch in
    record {
      provider = require_string_sound vs "provider" "opencode" provider;
      account = account;
      names_account = names;
      profile = require_matching_profile_sound vs profile;
      binds_model = require_model_sound vs model;
      format = format;
      permissions = permissions;
    }

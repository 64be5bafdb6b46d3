-- ===== src/Policy.antt =====
-- src/policy.rs: the evaluation of a launch against its settings record and the model catalogue. The
-- parsed parameters are arguments; the text of a diagnostic is for people and is not modelled.
pub mod Data
pub mod Arguments
pub mod Shapes
pub mod Accepted
pub mod Parts
pub mod Replanned
pub mod Evaluated
use Prim.Native.Char.{code}
use agent_runner_opencode.Prelude.{
  eqb, if◌then◌else◌, any, Dict, ℕ, String, Bool, false, not, Option, none, some, List, [], ◌∷◌,
  ◌++◌, map, ◌==◌,
}
use agent_runner_opencode.Failure.{Result, ok, ◌>>=◌, ◌>>◌}
use agent_runner_opencode.Models.{ModelAlias, same_model, model_alias, supports_account}
use agent_runner_opencode.RuntimeSelection.{
  RuntimeSelection, evidence_label, exact_model, resolve_runtime_selection,
}
use agent_runner_opencode.Settings.Store.{SettingsStore}
use agent_runner_opencode.Policy.Arguments.{
  resolved_model, configured_launch_command, policy_launch_args, effective_argv,
  forbidden_launch_args,
}
use agent_runner_opencode.Policy.Data.{
  Mediation, not_required, required, refused, Sdk, PolicyInput, PolicyDiagnostic, one, many,
  PolicyMarker, PolicyRouteIdentity, PolicyPlanCandidate, PolicyDecision, accepted, rejected,
  panicked,
}

abbrev pub error : String → PolicyDiagnostic
error code = record { severity = "error"; code = code }

abbrev pub effective_env : Option (Dict String) → Dict String
effective_env none = []
effective_env (some env) = env

abbrev pub command_diagnostics : Option String → RuntimeSelection → List PolicyDiagnostic
command_diagnostics none selection = error "invalid_command" ∷ []
command_diagnostics (some command) selection =
    if command == selection.account.opencode_wrapper
    then []
    else error "settings_command_mismatch" ∷ []

unfoldable pub launch_command_diagnostics : PolicyInput → RuntimeSelection → List PolicyDiagnostic
launch_command_diagnostics params selection =
    command_diagnostics (configured_launch_command params.launch.argv) selection

-- `selection.exact_model().is_some() && selection.exact_model() != model`
abbrev pub mismatches : Option ModelAlias → ModelAlias → Bool
mismatches none model = false
mismatches (some stored) model = not (same_model stored model)

unfoldable pub model_diagnostics : RuntimeSelection → Option ModelAlias → List PolicyDiagnostic
model_diagnostics selection none = error "invalid_model" ∷ []
model_diagnostics selection (some model) =
    (if mismatches (exact_model selection) model then error "settings_model_mismatch" ∷ [] else [])
    ++ (if supports_account model selection.account
        then []
        else error "model_account_ineligible" ∷ [])

abbrev pub unless_absent {ℓ} : {A : Type ℓ} → Option A → String → List PolicyDiagnostic
unless_absent none code = []
unless_absent (some a) code = error code ∷ []

abbrev pub mediation_diagnostics : Mediation → List PolicyDiagnostic
mediation_diagnostics not_required = []
mediation_diagnostics required = error "unsupported_tool_mediation" ∷ []
mediation_diagnostics refused = error "unsupported_tool_mediation" ∷ []

abbrev pub contains_key : Option (Dict String) → String → Bool
contains_key none key = false
contains_key (some env) key = any (λ e. e.0 == key) env

unfoldable pub unsupported_launch_extension_diagnostics :
    Sdk → Dict String → Option (Dict String) → List PolicyDiagnostic
unsupported_launch_extension_diagnostics sdk host_env env =
    mediation_diagnostics (sdk.required_by_host host_env env)
    ++ (if contains_key env sdk.exploration_env then error "unsupported_exploration" ∷ [] else [])

unfoldable pub forbidden_argv_diagnostics : List String → List PolicyDiagnostic
forbidden_argv_diagnostics argv = map (λ _. error "forbidden_flag") (forbidden_launch_args argv)

abbrev pub if_configured : Option String → List PolicyDiagnostic → List PolicyDiagnostic
if_configured none diagnostics = []
if_configured (some command) diagnostics = diagnostics

-- `split_once`, at the first separator.
abbrev pub split_once : ℕ → String → Option (String × String)
split_once separator String.[] = none
split_once separator (String.◌∷◌ c s) =
    let later = split_once separator s in
    if eqb (code c) separator
    then some (String.[], s)
    else elim later [ none ↦ none | some (before, after) ↦ some (String.◌∷◌ c before, after) ]

abbrev pub route_of :
    RuntimeSelection → ModelAlias → Option (String × String) → Option PolicyRouteIdentity
route_of selection model none = none
route_of selection model (some (provider_id, model_id)) = some (record {
  settings_record_id = selection.settings_id;
  account_wrapper = selection.account.opencode_wrapper;
  model_alias = model.name;
  provider_id = provider_id;
  model_id = model_id;
  effort = model.effort;
})

-- `none` is where the source's `expect` would panic.
unfoldable pub resolved_route_identity : RuntimeSelection → ModelAlias → Option PolicyRouteIdentity
resolved_route_identity selection model =
    route_of selection model (split_once b'/' model.provider_model)

unfoldable pub policy_accepted : List PolicyDiagnostic → Bool
policy_accepted diagnostics = not (any (λ d. d.severity == "error") diagnostics)

abbrev pub marker : String → String → PolicyMarker
marker name value = record { name = name; value = one value }

abbrev pub text_of {ℓ} : {A : Type ℓ} → (A → String) → Option A → String
text_of f none = ""
text_of f (some a) = f a

unfoldable pub policy_markers :
    Option String → PolicyInput → RuntimeSelection → Option ModelAlias → List PolicyMarker
unfolding evidence_label
policy_markers command params selection model =
    marker "opencode.command" (text_of (λ c. c) command)
    ∷ marker "opencode.mode" params.mode
    ∷ marker "opencode.settings_record_id" selection.settings_id
    ∷ marker "opencode.settings_record_identity" (evidence_label selection)
    ∷ marker "opencode.account" selection.account.opencode_wrapper
    ∷ marker "opencode.account_hash" selection.account.account_hash
    ∷ marker "opencode.model_alias" (text_of (λ (m : ModelAlias). m.name) model)
    ∷ marker "opencode.provider_model" (text_of (λ (m : ModelAlias). m.provider_model) model)
    ∷ marker "opencode.effort" (text_of (λ (m : ModelAlias). m.effort) model)
    ∷ record { name = "opencode.attempted_provider_args"; value = many params.model.provider_args }
    ∷ []

abbrev pub rejection : RuntimeSelection → PolicyPlanCandidate → PolicyDecision
rejection selection plan = rejected plan (record {
  settings_record_id = selection.settings_id;
  account_wrapper = selection.account.opencode_wrapper;
})

abbrev pub acceptance : PolicyPlanCandidate → Option PolicyRouteIdentity → PolicyDecision
acceptance plan none = panicked
acceptance plan (some route) = accepted plan route

unfoldable pub decide : RuntimeSelection → Option ModelAlias → PolicyPlanCandidate → PolicyDecision
unfolding policy_accepted
decide selection none plan = rejection selection plan
decide selection (some model) plan =
    if policy_accepted plan.diagnostics
    then acceptance plan (resolved_route_identity selection model)
    else rejection selection plan

module _ (sdk : Sdk) (host_env : Dict String) where
  unfoldable pub diagnostics_for_policy :
      PolicyInput → RuntimeSelection → Option ModelAlias → List PolicyDiagnostic
  unfolding launch_command_diagnostics model_diagnostics unsupported_launch_extension_diagnostics
      forbidden_argv_diagnostics configured_launch_command policy_launch_args
  diagnostics_for_policy params selection model =
      launch_command_diagnostics params selection
      ++ model_diagnostics selection model
      ++ unless_absent params.launch.system_prompt_override "unsupported_system_prompt_override"
      ++ unless_absent params.launch.tool_restrictions "unsupported_tool_restrictions"
      ++ unsupported_launch_extension_diagnostics sdk host_env params.launch.env
      ++ if_configured (configured_launch_command params.launch.argv)
          (forbidden_argv_diagnostics (policy_launch_args params.launch.argv model))

  unfoldable pub policy_plan_candidate :
      PolicyInput → RuntimeSelection → Option ModelAlias → PolicyPlanCandidate
  unfolding effective_argv configured_launch_command diagnostics_for_policy policy_markers
  policy_plan_candidate params selection model = record {
    argv = effective_argv params.launch.argv model;
    env = effective_env params.launch.env;
    stdin = params.launch.stdin;
    prompt = params.model.prompt;
    diagnostics = diagnostics_for_policy params selection model;
    markers = policy_markers (configured_launch_command params.launch.argv) params selection model;
  }

  unfoldable pub evaluate : SettingsStore → PolicyInput → String → Result PolicyDecision
  unfolding policy_plan_candidate decide
  evaluate store params request_id = do
    selection ← resolve_runtime_selection store params.settings_id request_id
    let model = resolved_model params.model
    ok (decide selection model (policy_plan_candidate params selection model))

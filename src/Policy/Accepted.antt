-- ===== src/Policy/Accepted.antt =====
-- Diagnostics and acceptance: a launch is accepted exactly where no rule of the policy objects.
use agent_runner_opencode.Prelude.{
  if◌then◌else◌, All, All-append, append-eq_nil, eq_of, Dict, String, ◌≡◌, refl, ap, subst, Bool,
  true, false, Option, none, some, List, [], ◌∷◌, map, arith, ◌==◌, eq_refl,
}
use agent_runner_opencode.Models.{ModelAlias, supports_account}
use agent_runner_opencode.RuntimeSelection.{RuntimeSelection, exact_model}
use agent_runner_opencode.Policy.Arguments.{
  configured_launch_command, policy_launch_args, forbidden_launch_args,
}
use agent_runner_opencode.Policy.Data.{
  Mediation, not_required, required, refused, Sdk, PolicyInput, PolicyDiagnostic,
}
use agent_runner_opencode.Policy.{
  error, command_diagnostics, launch_command_diagnostics, mismatches, model_diagnostics,
  unless_absent, mediation_diagnostics, contains_key, unsupported_launch_extension_diagnostics,
  forbidden_argv_diagnostics, if_configured, policy_accepted, diagnostics_for_policy,
}

abbrev pub IsError : PolicyDiagnostic → Type 0
IsError d = d.severity ≡ "error"

-- Where every diagnostic is an error, accepting means that there is none.
pub errors→nil : (ds : List PolicyDiagnostic) → All IsError ds → policy_accepted ds ≡ true → ds ≡ []
unfolding policy_accepted
errors→nil [] e h = refl
errors→nil (d ∷ ds) e h = absurd (ground (arith, ap (λ s. s == "error") e.0, h))

unless_errors : (b : Bool) (code : String) → All IsError (if b then [] else error code ∷ [])
unless_errors true code = tt
unless_errors false code = (refl, tt)

when_errors : (b : Bool) (code : String) → All IsError (if b then error code ∷ [] else [])
when_errors true code = (refl, tt)
when_errors false code = tt

command_errors :
    (o : Option String) (selection : RuntimeSelection)
    → All IsError (command_diagnostics o selection)
command_errors none selection = (refl, tt)
command_errors (some command) selection =
    unless_errors (command == selection.account.opencode_wrapper) "settings_command_mismatch"

absent_errors {ℓ} : {A : Type ℓ} (o : Option A) (code : String) → All IsError (unless_absent o code)
absent_errors none code = tt
absent_errors (some a) code = (refl, tt)

mediation_errors : (m : Mediation) → All IsError (mediation_diagnostics m)
mediation_errors not_required = tt
mediation_errors required = (refl, tt)
mediation_errors refused = (refl, tt)

forbidden_errors : (args : List String) → All IsError (map (λ _. error "forbidden_flag") args)
forbidden_errors [] = tt
forbidden_errors (arg ∷ args) = (refl, forbidden_errors args)

configured_errors :
    (o : Option String) (ds : List PolicyDiagnostic)
    → All IsError ds
    → All IsError (if_configured o ds)
configured_errors none ds h = tt
configured_errors (some command) ds h = h

command_nil :
    (o : Option String) (selection : RuntimeSelection)
    → command_diagnostics o selection ≡ []
    → o ≡ some selection.account.opencode_wrapper
command_nil none selection h = cc
command_nil (some command) selection h =
    ap some (eq_of command selection.account.opencode_wrapper (ground arith))

absent_nil {ℓ} : {A : Type ℓ} (o : Option A) (code : String) → unless_absent o code ≡ [] → o ≡ none
absent_nil none code h = refl
absent_nil (some a) code h = cc

mediation_nil : (m : Mediation) → mediation_diagnostics m ≡ [] → m ≡ not_required
mediation_nil not_required h = refl
mediation_nil required h = cc
mediation_nil refused h = cc

forbidden_nil : (args : List String) → map (λ _. error "forbidden_flag") args ≡ [] → args ≡ []
forbidden_nil [] h = refl
forbidden_nil (arg ∷ args) h = cc

when_nil : (b : Bool) (code : String) → (if b then error code ∷ [] else []) ≡ [] → b ≡ false
when_nil b code h = ground arith

unless_nil : (b : Bool) (code : String) → (if b then [] else error code ∷ []) ≡ [] → b ≡ true
unless_nil b code h = ground arith

-- What is accepted about a launch: the parts of its arguments, its route and what it does not carry.
pub record IsAccepted (sdk : Sdk) (host_env : Dict String) (params : PolicyInput)
    (selection : RuntimeSelection) (model : ModelAlias) : Type 0 where
  pub command :
      configured_launch_command params.launch.argv ≡ some selection.account.opencode_wrapper
  pub bound : mismatches (exact_model selection) model ≡ false
  pub eligible : supports_account model selection.account ≡ true
  pub no_override : params.launch.system_prompt_override ≡ none
  pub no_restrictions : params.launch.tool_restrictions ≡ none
  pub no_mediation : sdk.required_by_host host_env params.launch.env ≡ not_required
  pub no_exploration : contains_key params.launch.env sdk.exploration_env ≡ false
  pub no_forbidden : forbidden_launch_args (policy_launch_args params.launch.argv (some model)) ≡ []

module _ (sdk : Sdk) (host_env : Dict String) (params : PolicyInput) (selection : RuntimeSelection)
    (model : ModelAlias) where
  pub policy_errors :
      All IsError (diagnostics_for_policy sdk host_env params selection (some model))
  unfolding diagnostics_for_policy launch_command_diagnostics model_diagnostics
      unsupported_launch_extension_diagnostics forbidden_argv_diagnostics
  policy_errors =
      let command = configured_launch_command params.launch.argv in
      let launched = command_errors command selection in
      let modelled =
        All-append IsError _ _
          (when_errors (mismatches (exact_model selection) model) "settings_model_mismatch")
          (unless_errors (supports_account model selection.account) "model_account_ineligible") in
      let extended =
        All-append IsError _ _ (mediation_errors (sdk.required_by_host host_env params.launch.env))
          (when_errors (contains_key params.launch.env sdk.exploration_env)
            "unsupported_exploration") in
      let argued = configured_errors command _ (
        forbidden_errors
          (forbidden_launch_args (policy_launch_args params.launch.argv (some model)))) in
      All-append IsError _ _
        (All-append IsError _ _
          (All-append IsError _ _
            (All-append IsError _ _ (All-append IsError _ _ launched modelled) (
              absent_errors params.launch.system_prompt_override
                "unsupported_system_prompt_override"))
            (absent_errors params.launch.tool_restrictions "unsupported_tool_restrictions"))
          extended)
        argued

  -- Without diagnostics, a launch with a model is accepted in all its parts.
  pub clean→accepted :
      diagnostics_for_policy sdk host_env params selection (some model) ≡ []
      → IsAccepted sdk host_env params selection model
  unfolding diagnostics_for_policy launch_command_diagnostics model_diagnostics
      unsupported_launch_extension_diagnostics forbidden_argv_diagnostics
  clean→accepted h =
      let (front, argued) = append-eq_nil _ _ h in
      let (front_tools, extended) = append-eq_nil _ _ front in
      let (front_prompt, tools) = append-eq_nil _ _ front_tools in
      let (front_model, prompt) = append-eq_nil _ _ front_prompt in
      let (launched, modelled) = append-eq_nil _ _ front_model in
      let (bound, eligible) = append-eq_nil _ _ modelled in
      let (mediation, exploration) = append-eq_nil _ _ extended in
      let command = command_nil (configured_launch_command params.launch.argv) selection launched in
      record {
        command = command;
        bound = when_nil _ "settings_model_mismatch" bound;
        eligible = unless_nil _ "model_account_ineligible" eligible;
        no_override =
            absent_nil params.launch.system_prompt_override "unsupported_system_prompt_override"
              prompt;
        no_restrictions =
            absent_nil params.launch.tool_restrictions "unsupported_tool_restrictions" tools;
        no_mediation = mediation_nil (sdk.required_by_host host_env params.launch.env) mediation;
        no_exploration = when_nil _ "unsupported_exploration" exploration;
        no_forbidden = forbidden_nil _ (
            subst
              (λ o.
                if_configured o
                  (forbidden_argv_diagnostics (policy_launch_args params.launch.argv (some model)))
                ≡ [])
              command argued);
      }

  -- A launch that is accepted in all its parts has no diagnostics.
  pub accepted→clean :
      IsAccepted sdk host_env params selection model
      → diagnostics_for_policy sdk host_env params selection (some model) ≡ []
  unfolding diagnostics_for_policy launch_command_diagnostics model_diagnostics
      unsupported_launch_extension_diagnostics forbidden_argv_diagnostics
  accepted→clean a =
      rw
        (
          a.command, a.bound, a.eligible, a.no_override, a.no_restrictions, a.no_mediation,
          a.no_exploration, a.no_forbidden, eq_refl,
        )
        refl

-- ===== src/Examples/Launches.antt =====
-- Tests and examples of the launch policy.
use agent_runner_opencode.Prelude.{◌≡◌, refl, ◌≢◌, none, some, [], ◌∷◌, ◌++◌}
use agent_runner_opencode.Failure.{ok}
use agent_runner_opencode.Account.{account_one, account_for_wrapper, profile_for_wrapper_reference}
use agent_runner_opencode.Models.{
  sol_provider_model, ModelAlias, alias, model_alias, provider_args_match, supports_account,
  host_candidate_args, policy_effective_args,
}
use agent_runner_opencode.RuntimeSelection.{
  any_advertised, RuntimeSelection, resolve_runtime_selection,
}
use agent_runner_opencode.Policy.Arguments.{
  forbidden_user_launch_arg, resolved_model, forbidden_launch_args,
}
use agent_runner_opencode.Policy.Data.{
  not_required, Sdk, PolicyInput, PolicyRouteIdentity, PolicyPlanCandidate, accepted, panicked,
}
use agent_runner_opencode.Policy.Accepted.{IsAccepted}
use agent_runner_opencode.Policy.Parts.{ArgvParts}
use agent_runner_opencode.Policy.Replanned.{replan}
use agent_runner_opencode.Policy.{resolved_route_identity, policy_plan_candidate, evaluate}
use agent_runner_opencode.Policy.Evaluated.{
  evaluate_unrefused, evaluate_accepted, evaluate_again, evaluate_never_panics,
}
use agent_runner_opencode.Examples.Data.{two_records}
use agent_runner_opencode.Settings.Requests.{resolve_persisted_runtime_record}
use agent_runner_opencode.Settings.Definition.{validate_values}
use agent_runner_opencode.Settings.Values.{migrated_values_for_account}

-- An SDK that requires no mediation.
abbrev sdk : Sdk
sdk = record { required_by_host = λ host env. not_required; exploration_env = "EXPLORATION" }

abbrev model : ModelAlias
model = alias "gpt-high" sol_provider_model "high"

abbrev launch : PolicyInput
launch = record {
  settings_id = "main";
  mode = "run";
  model = record {
    name = "gpt-high";
    provider_args = "-m" ∷ "openai/gpt-5.6-sol" ∷ "--variant" ∷ "high" ∷ [];
    prompt = none;
  };
  launch = record {
    argv = some (
        "opencode1" ∷ "run" ∷ "--dangerously-skip-permissions" ∷ "-m" ∷ "openai/gpt-5.6-sol"
        ∷ "--variant" ∷ "high" ∷ "--title" ∷ "work" ∷ []);
    env = none;
    stdin = none;
    system_prompt_override = none;
    tool_restrictions = none;
  };
}

abbrev selection : RuntimeSelection
selection = record {
  settings_id = "main";
  settings_version = "v1";
  account = account_one;
  model_binding = any_advertised;
}

abbrev plan : PolicyPlanCandidate
plan = policy_plan_candidate sdk [] launch selection (some model)

abbrev route : PolicyRouteIdentity
route = record {
  settings_record_id = "main";
  account_wrapper = "opencode1";
  model_alias = "gpt-high";
  provider_id = "openai";
  model_id = "gpt-5.6-sol";
  effort = "high";
}

accepts : evaluate sdk [] two_records launch "request-1" ≡ ok (accepted plan route)
unfolding evaluate resolve_runtime_selection resolve_persisted_runtime_record validate_values
    migrated_values_for_account account_for_wrapper profile_for_wrapper_reference model_alias
    provider_args_match supports_account forbidden_launch_args host_candidate_args
    resolved_route_identity
accepts = refl

evaluate_accepted_example :
    (selection : RuntimeSelection) × (model : ModelAlias) × (resolve_runtime_selection two_records
        "main" "request-1"
      ≡ ok selection)
    × (resolved_model launch.model ≡ some model)
    × IsAccepted sdk [] launch selection model
    × ((parts : ArgvParts launch.launch.argv model selection.account.opencode_wrapper) × (plan.argv
          ≡ parts.prefix ++ (policy_effective_args model ++ parts.user))
        × (forbidden_launch_args parts.user ≡ []))
evaluate_accepted_example =
    evaluate_accepted sdk [] two_records launch "request-1" plan route accepts

evaluate_again_example :
    evaluate sdk [] two_records (replan launch plan.argv) "request-1" ≡ ok (accepted plan route)
evaluate_again_example = evaluate_again sdk [] two_records launch "request-1" plan route accepts

evaluate_never_panics_example : evaluate sdk [] two_records launch "request-1" ≢ ok panicked
evaluate_never_panics_example = evaluate_never_panics sdk [] two_records launch "request-1"

evaluate_unrefused_example : forbidden_user_launch_arg launch.model plan.argv ≡ none
evaluate_unrefused_example =
    evaluate_unrefused sdk [] two_records launch "request-1" plan route accepts

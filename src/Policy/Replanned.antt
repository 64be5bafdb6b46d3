-- ===== src/Policy/Replanned.antt =====
-- What laying out and deciding a launch gives, for the arguments of a request and for those of its plan.
use agent_runner_opencode.Prelude.{
  if◌then◌else◌, Bool-cases, All, Dict, String, ◌≡◌, refl, sym, ap, ◌∙◌, ◌≢◌, inl, inr, true,
  Option, none, some, List, ◌++◌, arith, ◌==◌,
}
use agent_runner_opencode.Models.{
  model_alias, sol_provider_model, luna_provider_model, ModelAlias, model_aliases, model_alias,
  provider_args_match, policy_effective_args,
}
use agent_runner_opencode.RuntimeSelection.{RuntimeSelection}
use agent_runner_opencode.Policy.Arguments.{
  PolicyModelRequest, resolved_model, valid_launch_command_prefix, first, configured_launch_command,
  policy_launch_args, effective_argv, forbidden_launch_args,
}
use agent_runner_opencode.Policy.Data.{
  Sdk, PolicyInput, PolicyRouteIdentity, PolicyPlanCandidate, accepted, panicked,
}
use agent_runner_opencode.Policy.Accepted.{
  errors→nil, IsAccepted, policy_errors, clean→accepted, accepted→clean,
}
use agent_runner_opencode.Policy.{
  split_once, resolved_route_identity, policy_accepted, policy_markers, acceptance, decide,
  policy_plan_candidate,
}
use agent_runner_opencode.Models.Laws.{find-All}
use agent_runner_opencode.Policy.Shapes.{stripped_effective}
use agent_runner_opencode.Policy.Parts.{configured_of, argv_parts, effective_parts}

-- The model of every request that is resolved has a provider and a model id.
splits :
    All
      (λ model. (parts : String × String) × (split_once b'/' model.provider_model ≡ some parts))
      model_aliases
splits =
    let sol : (parts : String × String) × (split_once b'/' sol_provider_model ≡ some parts) =
      (("openai", "gpt-5.6-sol"), refl) in
    let luna : (parts : String × String) × (split_once b'/' luna_provider_model ≡ some parts) =
      (("openai", "gpt-5.6-luna"), refl) in
    (sol, (sol, (sol, (sol, (sol, (luna, (luna, tt)))))))

resolved_listed :
    (o : Option ModelAlias) (args : List String) (model : ModelAlias)
    → elim o [ none ↦ none | some m ↦ if provider_args_match m args then some m else none ]
      ≡ some model
    → o ≡ some model
resolved_listed none args model h = cc
resolved_listed (some m) args model h = ground (arith, h)

pub resolved_splits :
    (request : PolicyModelRequest) (model : ModelAlias)
    → resolved_model request ≡ some model
    → (parts : String × String) × (split_once b'/' model.provider_model ≡ some parts)
resolved_splits request model h =
    find-All (λ m. (parts : String × String) × (split_once b'/' m.provider_model ≡ some parts))
      (λ m. m.name == request.name) model_aliases model splits
      (unfold model_alias in
        resolved_listed (model_alias request.name) request.provider_args model h)

-- The request's arguments replaced by those of a plan.
abbrev pub replan : PolicyInput → List String → PolicyInput
replan params argv = record params { launch = record params.launch { argv = some argv } }

replan_user :
    (prefix user : List String) (model : ModelAlias)
    → valid_launch_command_prefix prefix ≡ true
    → policy_launch_args (some (prefix ++ (policy_effective_args model ++ user))) (some model)
      ≡ user
unfolding policy_launch_args
replan_user prefix user model valid = rw (stripped_effective prefix user model valid) refl

acceptance_accepted :
    (made plan : PolicyPlanCandidate) (o : Option PolicyRouteIdentity) (route : PolicyRouteIdentity)
    → acceptance made o ≡ accepted plan route
    → (made ≡ plan) × (o ≡ some route)
acceptance_accepted made plan none route h = cc
acceptance_accepted made plan (some r) route h = (cc, cc)

module _ (sdk : Sdk) (host_env : Dict String) (selection : RuntimeSelection) (params : PolicyInput)
    (model : ModelAlias) where
  -- A plan's arguments have the parts of the request's, and are accepted like them.
  replanned :
      (a : IsAccepted sdk host_env params selection model)
      → IsAccepted sdk host_env
          (replan params (effective_argv params.launch.argv (some model)))
          selection
          model
  replanned a =
      let wrapper = selection.account.opencode_wrapper in
      let parts = argv_parts params.launch.argv model wrapper a.command a.no_forbidden in
      let laid = effective_parts params.launch.argv model wrapper parts in
      record {
        command =
            ap (λ xs. configured_launch_command (some xs)) laid
            ∙ unfold configured_launch_command in
              (ap first (
                  configured_of (parts.prefix ++ (policy_effective_args model ++ parts.user))
                    parts.user parts.prefix model parts.valid (inr refl))
                ∙ parts.command);
        bound = a.bound;
        eligible = a.eligible;
        no_override = a.no_override;
        no_restrictions = a.no_restrictions;
        no_mediation = a.no_mediation;
        no_exploration = a.no_exploration;
        no_forbidden =
            ap (λ xs. forbidden_launch_args (policy_launch_args (some xs) (some model))) laid
            ∙ ap forbidden_launch_args
                (replan_user parts.prefix parts.user model parts.valid ∙ sym parts.stripped)
            ∙ a.no_forbidden;
      }

  accepted_decision :
      (plan : PolicyPlanCandidate) (route : PolicyRouteIdentity)
      → decide selection
          (some model)
          (policy_plan_candidate sdk host_env params selection (some model))
        ≡ accepted plan route
      → IsAccepted sdk host_env params selection model
        × (plan ≡ policy_plan_candidate sdk host_env params selection (some model))
        × (resolved_route_identity selection model ≡ some route)
  unfolding decide policy_plan_candidate
  accepted_decision plan route h =
      let made = policy_plan_candidate sdk host_env params selection (some model) in
      elim (Bool-cases (policy_accepted made.diagnostics)) [
        | inl accepting ↦
            let (same, routed) =
              acceptance_accepted made plan (resolved_route_identity selection model) route
                (ground (arith, h, accepting)) in
            (
              clean→accepted sdk host_env params selection model
                  (errors→nil _ (policy_errors sdk host_env params selection model) accepting),
              sym same,
              routed,
            )
        | inr rejecting ↦ absurd (ground (arith, h, rejecting))
      ]

pub candidate_argv :
    (sdk : Sdk) (host_env : Dict String) (params : PolicyInput) (selection : RuntimeSelection)
    (o : Option ModelAlias)
    → (policy_plan_candidate sdk host_env params selection o).argv
      ≡ effective_argv params.launch.argv o
unfolding policy_plan_candidate
candidate_argv sdk host_env params selection o = refl

module _ (sdk : Sdk) (host_env : Dict String) (selection : RuntimeSelection)
    (params : PolicyInput) where
  pub decided_accepted :
      (o : Option ModelAlias) (plan : PolicyPlanCandidate) (route : PolicyRouteIdentity)
      → decide selection o (policy_plan_candidate sdk host_env params selection o)
        ≡ accepted plan route
      → (model : ModelAlias) × (o ≡ some model)
        × IsAccepted sdk host_env params selection model
        × (plan ≡ policy_plan_candidate sdk host_env params selection (some model))
        × (resolved_route_identity selection model ≡ some route)
  unfolding decide
  decided_accepted none plan route h = cc
  decided_accepted (some model) plan route h =
      let (a, made, routed) = accepted_decision sdk host_env selection params model plan route h in
      (model, refl, a, made, routed)

  pub decided_total :
      (o : Option ModelAlias)
      → ((model : ModelAlias)
          → o ≡ some model
          → (parts : String × String) × (split_once b'/' model.provider_model ≡ some parts))
      → decide selection o (policy_plan_candidate sdk host_env params selection o) ≢ panicked
  unfolding decide resolved_route_identity
  decided_total none splitting h = cc
  decided_total (some model) splitting h =
      let (_parts, split) = splitting model refl in absurd (ground (arith, h, split))

  -- The arguments of a plan are laid out again as they are.
  replan_argv :
      (model : ModelAlias)
      → IsAccepted sdk host_env params selection model
      → let argv = effective_argv params.launch.argv (some model) in
        effective_argv (some argv) (some model) ≡ argv
  unfolding effective_argv
  replan_argv model a =
      let wrapper = selection.account.opencode_wrapper in
      let parts = argv_parts params.launch.argv model wrapper a.command a.no_forbidden in
      let laid = effective_parts params.launch.argv model wrapper parts in
      let whole = parts.prefix ++ (policy_effective_args model ++ parts.user) in
      let again : effective_argv (some whole) (some model) ≡ whole =
        rw
          (
            configured_of whole parts.user parts.prefix model parts.valid (inr refl),
            replan_user parts.prefix parts.user model parts.valid,
          )
          refl in
      ap (λ xs. effective_argv (some xs) (some model)) laid ∙ again ∙ sym laid

  pub replan_candidate :
      (model : ModelAlias)
      → IsAccepted sdk host_env params selection model
      → let made = policy_plan_candidate sdk host_env params selection (some model) in
        policy_plan_candidate sdk host_env (replan params made.argv) selection (some model) ≡ made
  unfolding policy_plan_candidate policy_markers
  replan_candidate model a =
      let b = replanned sdk host_env selection params model a in
      let after = replan params (effective_argv params.launch.argv (some model)) in
      let clean = accepted→clean sdk host_env params selection model a in
      let clean_after = accepted→clean sdk host_env after selection model b in
      rw (replan_argv model a, clean, clean_after, a.command, b.command) refl

-- ===== src/Policy/Evaluated.antt =====
-- What an evaluation gives, and what evaluating its arguments again gives.
use agent_runner_opencode.Prelude.{
  find, filter, Dict, String, ◌≡◌, refl, sym, ap, ◌∙◌, subst, ◌≢◌, Bool, none, some, List, [], ◌∷◌,
  ◌++◌, arith,
}
use agent_runner_opencode.Models.{ModelAlias, policy_effective_args}
use agent_runner_opencode.RuntimeSelection.{RuntimeSelection, resolve_runtime_selection}
use agent_runner_opencode.Policy.Arguments.{
  resolved_model, stripped_policy_launch_args, is_forbidden_launch_arg, before_separator,
  forbidden_launch_args, forbidden_user_launch_arg,
}
use agent_runner_opencode.Policy.Data.{
  Sdk, PolicyInput, PolicyRouteIdentity, PolicyPlanCandidate, PolicyDecision, accepted, panicked,
}
use agent_runner_opencode.Policy.Accepted.{IsAccepted}
use agent_runner_opencode.Policy.{decide, policy_plan_candidate, evaluate}
use agent_runner_opencode.Policy.Parts.{ArgvParts, argv_parts, effective_parts}
use agent_runner_opencode.Failure.{ok, >>=-eq-ok}
use agent_runner_opencode.Settings.Store.{SettingsStore}
use agent_runner_opencode.Settings.Requests.Created.{ok_inj}
use agent_runner_opencode.Policy.Shapes.{stripped_effective}
use agent_runner_opencode.Policy.Replanned.{
  resolved_splits, replan, candidate_argv, decided_accepted, decided_total, replan_candidate,
}

-- Where filtering leaves nothing, a search finds nothing.
filter→find {ℓ} : {A : Type ℓ} (p : A → Bool) (xs : List A) → filter p xs ≡ [] → find p xs ≡ none
filter→find p [] h = refl
filter→find p (x ∷ xs) h = ground (arith, filter→find p xs)

module _ (sdk : Sdk) (host_env : Dict String) (store : SettingsStore) (params : PolicyInput)
    (request_id : String) where
  decision_parts :
      (decision : PolicyDecision)
      → evaluate sdk host_env store params request_id ≡ ok decision
      → let model = resolved_model params.model in
        (selection : RuntimeSelection) × (resolve_runtime_selection store params.settings_id
            request_id
          ≡ ok selection)
        × (decide selection model (policy_plan_candidate sdk host_env params selection model)
            ≡ decision)
  unfolding evaluate
  decision_parts decision h =
      let (selection, resolved, decided) =
        >>=-eq-ok (resolve_runtime_selection store params.settings_id request_id) _ h in
      (selection, resolved, ok_inj decided)

  -- An accepted launch comes from the record that its settings identifier resolves to and from a
  -- model of the catalogue with its exact provider arguments, and no rule of the policy objects to
  -- it. Its arguments are a wrapper's prefix of the record's account, then the host's or an earlier
  -- evaluation's arguments of the model, then the caller's; the plan's are the same prefix, the
  -- managed arguments of the model and the same caller's part, where nothing before `--` is forbidden.
  pub evaluate_accepted :
      (plan : PolicyPlanCandidate) (route : PolicyRouteIdentity)
      → evaluate sdk host_env store params request_id ≡ ok (accepted plan route)
      → (selection : RuntimeSelection) × (model : ModelAlias) × (resolve_runtime_selection store
            params.settings_id request_id
          ≡ ok selection)
        × (resolved_model params.model ≡ some model)
        × IsAccepted sdk host_env params selection model
        × ((parts : ArgvParts params.launch.argv model selection.account.opencode_wrapper)
            × (plan.argv ≡ parts.prefix ++ (policy_effective_args model ++ parts.user))
            × (forbidden_launch_args parts.user ≡ []))
  evaluate_accepted plan route h =
      let (selection, resolved, decided) = decision_parts (accepted plan route) h in
      let (model, modelled, a, made, _routed) =
        decided_accepted sdk host_env selection params (resolved_model params.model) plan route
          decided in
      let wrapper = selection.account.opencode_wrapper in
      let parts = argv_parts params.launch.argv model wrapper a.command a.no_forbidden in
      (
        selection,
        model,
        resolved,
        modelled,
        a,
        (
          parts,
          ap (λ (c : PolicyPlanCandidate). c.argv) made
              ∙ candidate_argv sdk host_env params selection (some model)
              ∙ effective_parts params.launch.argv model wrapper parts,
          ap forbidden_launch_args (sym parts.stripped) ∙ a.no_forbidden,
        ),
      )

  -- Evaluating an accepted launch again, with the plan's arguments in place of the request's, gives
  -- the same plan and the same route.
  pub evaluate_again :
      (plan : PolicyPlanCandidate) (route : PolicyRouteIdentity)
      → evaluate sdk host_env store params request_id ≡ ok (accepted plan route)
      → evaluate sdk host_env store (replan params plan.argv) request_id ≡ ok (accepted plan route)
  unfolding evaluate
  evaluate_again plan route h =
      let (selection, resolved, decided) = decision_parts (accepted plan route) h in
      let (model, modelled, a, made, _routed) =
        decided_accepted sdk host_env selection params (resolved_model params.model) plan route
          decided in
      let same : policy_plan_candidate sdk host_env (replan params plan.argv) selection (some model)
          ≡ policy_plan_candidate sdk host_env params selection (some model) =
        ap
          (λ (c : PolicyPlanCandidate).
            policy_plan_candidate sdk host_env (replan params c.argv) selection (some model))
          made
        ∙ replan_candidate sdk host_env selection params model a in
      let decided_model =
        subst
          (λ o.
            decide selection o (policy_plan_candidate sdk host_env params selection o)
            ≡ accepted plan route)
          modelled decided in
      rw (resolved, modelled) (ap ok (ap (decide selection (some model)) same ∙ decided_model))

  -- The panic on a model without a provider's prefix is never reached.
  pub evaluate_never_panics : evaluate sdk host_env store params request_id ≢ ok panicked
  evaluate_never_panics h =
      let (selection, _resolved, decided) = decision_parts panicked h in
      decided_total sdk host_env selection params (resolved_model params.model)
        (resolved_splits params.model) decided

  -- The launch's own check of the caller's arguments finds nothing to refuse in the arguments of an
  -- accepted plan.
  pub evaluate_unrefused :
      (plan : PolicyPlanCandidate) (route : PolicyRouteIdentity)
      → evaluate sdk host_env store params request_id ≡ ok (accepted plan route)
      → forbidden_user_launch_arg params.model plan.argv ≡ none
  unfolding forbidden_user_launch_arg forbidden_launch_args
  evaluate_unrefused plan route h =
      let (_selection, model, _resolved, modelled, _accepted, (parts, laid, clean)) =
        evaluate_accepted plan route h in
      let stripped : stripped_policy_launch_args plan.argv (some model) ≡ some parts.user =
        ap (λ xs. stripped_policy_launch_args xs (some model)) laid
        ∙ stripped_effective parts.prefix parts.user model parts.valid in
      rw (modelled, stripped)
        (filter→find is_forbidden_launch_arg (before_separator parts.user) clean)

-- ===== src/Policy/Parts.antt =====
-- The parts of launch arguments that the policy accepts.
use agent_runner_opencode.Prelude.{
  take, drop, ℕ, String, ◌≡◌, refl, sym, ap, ◌∙◌, subst, ◌≢◌, ◌⊎◌, inl, inr, true, Option, none,
  some, List, [], ◌∷◌, ◌++◌, arith,
}
use agent_runner_opencode.Account.{account_for_wrapper, profile_for_wrapper_reference}
use agent_runner_opencode.Models.{
  ModelAlias, provider_args, host_candidate_args, policy_effective_args,
}
use agent_runner_opencode.Policy.Arguments.{
  intrinsic_host_launch_command, valid_launch_command_prefix, run_index,
  stripped_policy_launch_args, prefix_at, configured_launch_prefix, first,
  configured_launch_command, or_whole, policy_launch_args, effective_argv, is_forbidden_launch_arg,
  forbidden_launch_args,
}
use agent_runner_opencode.Policy.Shapes.{
  take-drop, valid_prefix, command_differs, configured_prefix_complete, stripped_sound,
}

-- The launch arguments in their parts: a prefix of the account's wrapper, then what the host or an
-- earlier evaluation put there, then the caller's.
pub record ArgvParts (argv : Option (List String)) (model : ModelAlias) (wrapper : String)
    : Type 0 where
  pub prefix : List String
  pub user : List String
  pub valid : valid_launch_command_prefix prefix ≡ true
  pub command : first (some prefix) ≡ some wrapper
  pub given :
      (argv ≡ some (prefix ++ (host_candidate_args model ++ user)))
      ⊎ (argv ≡ some (prefix ++ (policy_effective_args model ++ user)))
  pub stripped : policy_launch_args argv (some model) ≡ user
  pub configured : configured_launch_prefix argv ≡ some prefix

-- Arguments from which nothing can be stripped are forbidden as a whole: they begin with a wrapper.
unstripped_forbidden :
    (command : String) (rest : List String)
    → intrinsic_host_launch_command command ≡ true
    → forbidden_launch_args (command ∷ rest) ≢ []
unfolding forbidden_launch_args is_forbidden_launch_arg
unstripped_forbidden command rest intrinsic h =
    let apart = command_differs command "--" intrinsic (
      unfold intrinsic_host_launch_command profile_for_wrapper_reference account_for_wrapper in
      refl) in
    absurd (ground (arith, apart, intrinsic, h))

prefix_at_sound :
    (argv prefix : List String) (o : Option ℕ)
    → prefix_at argv o ≡ some prefix
    → (rest : List String) × (valid_launch_command_prefix prefix ≡ true) × (argv ≡ prefix ++ rest)
prefix_at_sound argv prefix none h = cc
prefix_at_sound argv prefix (some index) h =
    let valid : valid_launch_command_prefix (take index argv) ≡ true = ground (arith, h) in
    let same : take index argv ≡ prefix = ground (arith, h, valid) in
    (
      drop index argv,
      subst (λ xs. valid_launch_command_prefix xs ≡ true) same valid,
      sym (take-drop index argv) ∙ ap (λ xs. xs ++ drop index argv) same,
    )

pub configured_of :
    (argv user prefix : List String) (model : ModelAlias)
    → valid_launch_command_prefix prefix ≡ true
    → (argv ≡ prefix ++ (host_candidate_args model ++ user))
      ⊎ (argv ≡ prefix ++ (policy_effective_args model ++ user))
    → configured_launch_prefix (some argv) ≡ some prefix
unfolding host_candidate_args policy_effective_args
configured_of argv user prefix model valid (inl same) =
    ap (λ xs. configured_launch_prefix (some xs)) same
    ∙ configured_prefix_complete prefix
        (("--dangerously-skip-permissions" ∷ provider_args model) ++ user) valid
configured_of argv user prefix model valid (inr same) =
    ap (λ xs. configured_launch_prefix (some xs)) same
    ∙ configured_prefix_complete prefix
        (("--format" ∷ "json" ∷ "--dangerously-skip-permissions" ∷ provider_args model) ++ user)
        valid

stripped_parts :
    (argv user : List String) (model : ModelAlias) (wrapper : String)
    → stripped_policy_launch_args argv (some model) ≡ some user
    → configured_launch_command (some argv) ≡ some wrapper
    → ArgvParts (some argv) model wrapper
unfolding configured_launch_command policy_launch_args
stripped_parts argv user model wrapper h c =
    let (prefix, valid, given) = stripped_sound argv user model h in
    let configured : configured_launch_prefix (some argv) ≡ some prefix =
      configured_of argv user prefix model valid given in
    record {
      prefix = prefix;
      user = user;
      valid = valid;
      command = ap first (sym configured) ∙ c;
      given = elim given [ inl same ↦ inl (ap some same) | inr same ↦ inr (ap some same) ];
      stripped = rw h refl;
      configured = configured;
    }

first-some :
    (o : Option (List String)) (s : String)
    → first o ≡ some s
    → (prefix : List String) × (o ≡ some prefix)
first-some none s h = cc
first-some (some prefix) s h = (prefix, refl)

unstripped_clean :
    (argv : List String) (wrapper : String)
    → configured_launch_command (some argv) ≡ some wrapper
    → forbidden_launch_args argv ≢ []
unfolding configured_launch_command configured_launch_prefix
unstripped_clean argv wrapper c clean =
    let (prefix, found) = first-some (prefix_at argv (run_index argv)) wrapper c in
    let (rest, valid, same) = prefix_at_sound argv prefix (run_index argv) found in
    let (command, options, parts, intrinsic, _pure) = valid_prefix prefix valid in
    unstripped_forbidden command (options ++ rest) intrinsic
      (ap forbidden_launch_args (sym (same ∙ ap (λ xs. xs ++ rest) parts)) ∙ clean)

parts_of :
    (argv : List String) (model : ModelAlias) (wrapper : String) (o : Option (List String))
    → stripped_policy_launch_args argv (some model) ≡ o
    → configured_launch_command (some argv) ≡ some wrapper
    → forbidden_launch_args (policy_launch_args (some argv) (some model)) ≡ []
    → ArgvParts (some argv) model wrapper
unfolding policy_launch_args
parts_of argv model wrapper (some user) e c clean = stripped_parts argv user model wrapper e c
parts_of argv model wrapper none e c clean = absurd (
    unstripped_clean argv wrapper c
      (ap (λ o. forbidden_launch_args (or_whole o argv)) (sym e) ∙ clean))

-- Arguments with a command and nothing forbidden have their parts.
pub argv_parts :
    (argv : Option (List String)) (model : ModelAlias) (wrapper : String)
    → configured_launch_command argv ≡ some wrapper
    → forbidden_launch_args (policy_launch_args argv (some model)) ≡ []
    → ArgvParts argv model wrapper
unfolding configured_launch_command configured_launch_prefix
argv_parts none model wrapper c clean = cc
argv_parts (some argv) model wrapper c clean =
    parts_of argv model wrapper (stripped_policy_launch_args argv (some model)) refl c clean

-- The arguments of a plan strip to the same caller's part, under the same prefix.
pub effective_parts :
    (argv : Option (List String)) (model : ModelAlias) (wrapper : String)
    (parts : ArgvParts argv model wrapper)
    → effective_argv argv (some model) ≡ parts.prefix ++ (policy_effective_args model ++ parts.user)
unfolding effective_argv
effective_parts argv model wrapper parts = rw (parts.configured, parts.stripped) refl

-- ===== src/Policy/Arguments.antt =====
-- src/policy.rs: the launch arguments: the wrapper's prefix, the arguments that the host or an earlier
-- evaluation put behind it, and what a caller may add.
use agent_runner_opencode.Prelude.{
  ltb, if◌then◌else◌, length, take, drop, find, any, all, filter, take_while, position, codes,
  begins, ℕ, ◌+◌, String, Bool, true, false, ◌&&◌, ◌||◌, not, Option, none, some, List, [], ◌∷◌,
  ◌++◌, ◌==◌,
}
use agent_runner_opencode.Account.{AccountProfile, profile_for_wrapper_reference}
use agent_runner_opencode.Settings.Values.{or_else}
use agent_runner_opencode.Models.{
  ModelAlias, model_alias, provider_args_match, host_candidate_args, policy_effective_args,
}

pub record PolicyModelRequest : Type 0 where
  pub name : String
  pub provider_args : List String
  pub prompt : Option String

abbrev pub resolved_model : PolicyModelRequest → Option ModelAlias
resolved_model request = elim (model_alias request.name) [
  | none ↦ none
  | some model ↦ if provider_args_match model request.provider_args then some model else none
]

abbrev pub is_wrapper_of : String → Option AccountProfile → Bool
is_wrapper_of command none = false
is_wrapper_of command (some account) = command == account.opencode_wrapper

unfoldable pub intrinsic_host_launch_command : String → Bool
intrinsic_host_launch_command command =
    is_wrapper_of command (profile_for_wrapper_reference command)

unfoldable pub valid_launch_command_prefix : List String → Bool
unfolding intrinsic_host_launch_command
valid_launch_command_prefix [] = false
valid_launch_command_prefix (command ∷ options) =
    intrinsic_host_launch_command command && all (λ arg. arg == "--pure") options

-- Does the first list start with the second?
abbrev pub starts_with : List String → List String → Bool
starts_with args [] = true
starts_with [] (t ∷ ts) = false
starts_with (s ∷ ss) (t ∷ ts) = s == t && starts_with ss ts

abbrev pub run_index : List String → Option ℕ
run_index argv = position (λ arg. arg == "run") argv

abbrev pub stripped_at : List String → List String → Option ℕ → Option (List String)
stripped_at argv args none = none
stripped_at argv args (some index) =
    if not (valid_launch_command_prefix (take index argv))
      || not (starts_with (drop index argv) args)
    then none
    else some (drop (index + length args) argv)

unfoldable pub strip_intrinsic_launch_prefix : List String → List String → Option (List String)
unfolding valid_launch_command_prefix
strip_intrinsic_launch_prefix argv args = stripped_at argv args (run_index argv)

unfoldable pub strip_host_candidate_prefix : List String → ModelAlias → Option (List String)
unfolding strip_intrinsic_launch_prefix
strip_host_candidate_prefix argv model =
    strip_intrinsic_launch_prefix argv (host_candidate_args model)

unfoldable pub strip_policy_effective_prefix : List String → ModelAlias → Option (List String)
unfolding strip_intrinsic_launch_prefix
strip_policy_effective_prefix argv model =
    strip_intrinsic_launch_prefix argv (policy_effective_args model)

unfoldable pub stripped_policy_launch_args : List String → Option ModelAlias → Option (List String)
unfolding strip_host_candidate_prefix strip_policy_effective_prefix
stripped_policy_launch_args argv none = none
stripped_policy_launch_args argv (some model) =
    or_else (strip_host_candidate_prefix argv model) (strip_policy_effective_prefix argv model)

abbrev pub prefix_at : List String → Option ℕ → Option (List String)
prefix_at argv none = none
prefix_at argv (some index) =
    if valid_launch_command_prefix (take index argv) then some (take index argv) else none

unfoldable pub configured_launch_prefix : Option (List String) → Option (List String)
unfolding valid_launch_command_prefix
configured_launch_prefix none = none
configured_launch_prefix (some argv) = prefix_at argv (run_index argv)

abbrev pub first : Option (List String) → Option String
first (some (s ∷ ss)) = some s
first _ = none

unfoldable pub configured_launch_command : Option (List String) → Option String
unfolding configured_launch_prefix
configured_launch_command argv = first (configured_launch_prefix argv)

abbrev pub or_empty : Option (List String) → List String
or_empty none = []
or_empty (some argv) = argv

abbrev pub or_whole : Option (List String) → List String → List String
or_whole none argv = argv
or_whole (some rest) argv = rest

unfoldable pub policy_launch_args : Option (List String) → Option ModelAlias → List String
unfolding stripped_policy_launch_args
policy_launch_args argv model =
    or_whole (stripped_policy_launch_args (or_empty argv) model) (or_empty argv)

abbrev pub effective_from :
    Option (List String) → Option (List String) → Option ModelAlias → List String
effective_from argv (some prefix) (some model) =
    prefix ++ (policy_effective_args model ++ policy_launch_args argv (some model))
effective_from argv _ _ = or_empty argv

unfoldable pub effective_argv : Option (List String) → Option ModelAlias → List String
unfolding configured_launch_prefix policy_launch_args
effective_argv argv model = effective_from argv (configured_launch_prefix argv) model

abbrev pub long_options : List String
long_options = "--file" ∷ "--log-level" ∷ "--print-logs" ∷ "--share" ∷ "--thinking" ∷ "--title" ∷ []

abbrev pub negated_long_options : List String
negated_long_options = "--no-print-logs" ∷ "--no-share" ∷ "--no-thinking" ∷ []

-- `arg == option || arg.strip_prefix(option).is_some_and(|suffix| suffix.starts_with('='))`
abbrev pub is_option : String → String → Bool
is_option arg option = arg == option || begins (codes arg) (codes option ++ b'=' ∷ [])

unfoldable pub is_caller_owned_launch_option : String → Bool
is_caller_owned_launch_option arg =
    any (is_option arg) long_options
    || any (is_option arg) negated_long_options
    || arg == "-f"
    || (ltb 2 (length (codes arg)) && begins (codes arg) (codes "-f"))

unfoldable pub is_forbidden_launch_arg : String → Bool
unfolding intrinsic_host_launch_command is_caller_owned_launch_option
is_forbidden_launch_arg arg =
    intrinsic_host_launch_command arg
    || (begins (codes arg) (codes "-")
        && not (arg == "-")
        && not (is_caller_owned_launch_option arg))

abbrev pub before_separator : List String → List String
before_separator argv = take_while (λ arg. not (arg == "--")) argv

unfoldable pub forbidden_launch_args : List String → List String
unfolding is_forbidden_launch_arg
forbidden_launch_args argv = filter is_forbidden_launch_arg (before_separator argv)

abbrev pub refused_in : Option (List String) → Option String
refused_in none = none
refused_in (some user) = find is_forbidden_launch_arg (before_separator user)

abbrev pub refused_of : List String → Option ModelAlias → Option String
refused_of argv none = none
refused_of argv (some model) = refused_in (stripped_policy_launch_args argv (some model))

unfoldable pub forbidden_user_launch_arg : PolicyModelRequest → List String → Option String
unfolding stripped_policy_launch_args is_forbidden_launch_arg
forbidden_user_launch_arg request argv = refused_of argv (resolved_model request)

-- ===== src/Policy/Shapes.antt =====
-- The shape of launch arguments: what stripping takes off, and when it does.
use agent_runner_opencode.Prelude.{
  Bool-cases, length, take, drop, all, drop-append_length, take-append_length, eq_of, ℕ, zero, suc,
  ◌+◌, String, ◌≡◌, refl, sym, ap, ◌∙◌, ◌⊎◌, inl, inr, Bool, true, false, ◌||◌, not, Option, none,
  some, List, [], ◌∷◌, ◌++◌, arith, ◌==◌, eq_refl,
}
use agent_runner_opencode.Models.{
  ModelAlias, provider_args, host_candidate_args, policy_effective_args,
}
use agent_runner_opencode.Account.{account_for_wrapper, profile_for_wrapper_reference}
use agent_runner_opencode.Policy.Arguments.{
  intrinsic_host_launch_command, valid_launch_command_prefix, starts_with, run_index, stripped_at,
  strip_intrinsic_launch_prefix, strip_host_candidate_prefix, strip_policy_effective_prefix,
  stripped_policy_launch_args, configured_launch_prefix,
}
use agent_runner_opencode.Settings.Values.{or_else}

pub take-drop {ℓ} : {A : Type ℓ} (n : ℕ) (xs : List A) → take n xs ++ drop n xs ≡ xs
take-drop zero xs = refl
take-drop (suc n) [] = refl
take-drop (suc n) (x ∷ xs) = ap (λ ys. x ∷ ys) (take-drop n xs)

drop-nil {ℓ} : {A : Type ℓ} (n : ℕ) → drop {A = A} n [] ≡ []
drop-nil zero = refl
drop-nil (suc n) = refl

drop-add {ℓ} : {A : Type ℓ} (n m : ℕ) (xs : List A) → drop m (drop n xs) ≡ drop (n + m) xs
drop-add zero m xs = ap (λ k. drop k xs) (omega arith)
drop-add (suc n) m [] =
    let same : suc (n + m) ≡ suc n + m = omega arith in drop-nil m ∙ ap (λ k. drop k []) same
drop-add (suc n) m (x ∷ xs) =
    let same : suc (n + m) ≡ suc n + m = omega arith in
    drop-add n m xs ∙ ap (λ k. drop k (x ∷ xs)) same

starts_with→split :
    (xs ts : List String) → starts_with xs ts ≡ true → ts ++ drop (length ts) xs ≡ xs
starts_with→split xs [] h = refl
starts_with→split [] (t ∷ ts) h = cc
starts_with→split (x ∷ xs) (t ∷ ts) h =
    let head : x ≡ t = eq_of x t (ground arith) in
    let tail = starts_with→split xs ts (ground arith) in rw (head, tail) refl

starts_with-append : (ts xs : List String) → starts_with (ts ++ xs) ts ≡ true
starts_with-append [] xs = refl
starts_with-append (t ∷ ts) xs = rw (eq_refl, starts_with-append ts xs) refl

not_or : (a b : Bool) → (not a || not b) ≡ false → (a ≡ true) × (b ≡ true)
not_or a b h = ground arith

stripped_at_sound :
    (argv args user : List String) (o : Option ℕ)
    → stripped_at argv args o ≡ some user
    → (prefix : List String) × (valid_launch_command_prefix prefix ≡ true)
      × (argv ≡ prefix ++ (args ++ user))
stripped_at_sound argv args user none h = cc
stripped_at_sound argv args user (some index) h =
    let rest = drop index argv in
    let (valid, starts) =
      not_or (valid_launch_command_prefix (take index argv)) (starts_with rest args)
        (ground arith) in
    let left : drop (index + length args) argv ≡ user = ground arith in
    (
      take index argv,
      valid,
      sym (take-drop index argv)
          ∙ ap (λ ys. take index argv ++ ys)
              (sym (starts_with→split rest args starts)
                ∙ ap (λ ys. args ++ ys) (drop-add index (length args) argv ∙ left)),
    )

-- What is stripped stands behind a valid prefix and the arguments.
pub strip_sound :
    (argv args user : List String)
    → strip_intrinsic_launch_prefix argv args ≡ some user
    → (prefix : List String) × (valid_launch_command_prefix prefix ≡ true)
      × (argv ≡ prefix ++ (args ++ user))
unfolding strip_intrinsic_launch_prefix
strip_sound argv args user h = stripped_at_sound argv args user (run_index argv) h

-- A valid prefix is not empty, and its command is one of a declared wrapper.
pub valid_prefix :
    (prefix : List String)
    → valid_launch_command_prefix prefix ≡ true
    → (command : String) × (options : List String) × (prefix ≡ command ∷ options)
      × (intrinsic_host_launch_command command ≡ true)
      × (all (λ arg. arg == "--pure") options ≡ true)
unfolding valid_launch_command_prefix
valid_prefix [] h = cc
valid_prefix (command ∷ options) h =
    (command, options, refl, (ground (arith, h)), (ground (arith, h)))

-- A text that no wrapper has is no command.
pub command_differs :
    (command other : String)
    → intrinsic_host_launch_command command ≡ true
    → intrinsic_host_launch_command other ≡ false
    → (command == other) ≡ false
command_differs command other h k = elim (Bool-cases (command == other)) [
  | inl same ↦ absurd (cc (ap intrinsic_host_launch_command (eq_of command other same), h, k))
  | inr apart ↦ apart
]

run_index_options :
    (options rest : List String)
    → all (λ arg. arg == "--pure") options ≡ true
    → run_index (options ++ "run" ∷ rest) ≡ some (length options)
run_index_options [] rest h = refl
run_index_options (o ∷ options) rest h =
    let pure : o ≡ "--pure" = eq_of o "--pure" (ground arith) in
    rw (pure, run_index_options options rest (ground arith)) refl

-- The first `run` behind a valid prefix is the one that follows it.
pub run_index_prefix :
    (prefix rest : List String)
    → valid_launch_command_prefix prefix ≡ true
    → run_index (prefix ++ "run" ∷ rest) ≡ some (length prefix)
run_index_prefix prefix rest h =
    let (command, options, same, intrinsic, pure) = valid_prefix prefix h in
    let apart = command_differs command "run" intrinsic (
      unfold intrinsic_host_launch_command profile_for_wrapper_reference account_for_wrapper in
      refl) in
    rw same (rw (apart, run_index_options options rest pure) refl)

stripped_at_complete :
    (prefix args user : List String)
    → valid_launch_command_prefix prefix ≡ true
    → stripped_at (prefix ++ (args ++ user)) args (some (length prefix)) ≡ some user
stripped_at_complete prefix args user h =
    rw (take-append_length, drop-append_length prefix (args ++ user), h, starts_with-append)
      (ap some (
        sym (drop-add (length prefix) (length args) (prefix ++ (args ++ user)))
        ∙ ap (drop (length args)) (drop-append_length prefix (args ++ user))
        ∙ drop-append_length args user))

-- Behind a valid prefix, arguments that begin with `run` are stripped if they are there.
pub strip_complete :
    (prefix args user : List String)
    → valid_launch_command_prefix prefix ≡ true
    → strip_intrinsic_launch_prefix (prefix ++ (("run" ∷ args) ++ user)) ("run" ∷ args) ≡ some user
unfolding strip_intrinsic_launch_prefix
strip_complete prefix args user h =
    rw (run_index_prefix prefix (args ++ user) h)
      (stripped_at_complete prefix ("run" ∷ args) user h)

pub configured_prefix_complete :
    (prefix rest : List String)
    → valid_launch_command_prefix prefix ≡ true
    → configured_launch_prefix (some (prefix ++ "run" ∷ rest)) ≡ some prefix
unfolding configured_launch_prefix
configured_prefix_complete prefix rest h =
    rw (run_index_prefix prefix rest h, take-append_length) (rw h refl)

-- Behind a valid prefix, arguments that are not there are not stripped.
pub strip_other :
    (prefix args rest : List String)
    → valid_launch_command_prefix prefix ≡ true
    → starts_with ("run" ∷ rest) args ≡ false
    → strip_intrinsic_launch_prefix (prefix ++ "run" ∷ rest) args ≡ none
unfolding strip_intrinsic_launch_prefix
strip_other prefix args rest h k =
    rw (run_index_prefix prefix rest h)
      (rw (take-append_length, drop-append_length prefix ("run" ∷ rest), h, k) refl)

-- Behind a valid prefix, what an evaluation puts there is stripped again.
pub stripped_effective :
    (prefix user : List String) (model : ModelAlias)
    → valid_launch_command_prefix prefix ≡ true
    → stripped_policy_launch_args (prefix ++ (policy_effective_args model ++ user)) (some model)
      ≡ some user
unfolding stripped_policy_launch_args strip_host_candidate_prefix strip_policy_effective_prefix
    policy_effective_args host_candidate_args
stripped_effective prefix user model h =
    rw (strip_other prefix (host_candidate_args model) _ h refl) (
      strip_complete prefix
        ("--format" ∷ "json" ∷ "--dangerously-skip-permissions" ∷ provider_args model) user h)

or_else_cases {ℓ} :
    {A : Type ℓ} (o p : Option A) (a : A) → or_else o p ≡ some a → (o ≡ some a) ⊎ (p ≡ some a)
or_else_cases none p a h = inr h
or_else_cases (some b) p a h = inl h

-- What is stripped stands behind a valid prefix and what the host or an evaluation puts there.
pub stripped_sound :
    (argv user : List String) (model : ModelAlias)
    → stripped_policy_launch_args argv (some model) ≡ some user
    → (prefix : List String) × (valid_launch_command_prefix prefix ≡ true)
      × ((argv ≡ prefix ++ (host_candidate_args model ++ user))
          ⊎ (argv ≡ prefix ++ (policy_effective_args model ++ user)))
unfolding stripped_policy_launch_args strip_host_candidate_prefix strip_policy_effective_prefix
stripped_sound argv user model h =
    elim (or_else_cases (strip_host_candidate_prefix argv model)
      (strip_policy_effective_prefix argv model) user h) [
        | inl host ↦
            let (prefix, valid, same) = strip_sound argv (host_candidate_args model) user host in
            (prefix, valid, inl same)
        | inr effective ↦
            let (prefix, valid, same) =
              strip_sound argv (policy_effective_args model) user effective in
            (prefix, valid, inr same)
      ]

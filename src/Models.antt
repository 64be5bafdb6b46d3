-- ===== src/Models.antt =====
-- src/models.rs: the model catalogue, its lookups, eligibility and the launch arguments of a route.
pub mod Laws
use agent_runner_opencode.Account.{AccountProfile, accounts}
use agent_runner_opencode.Prelude.{
  find, any, filter, String, Bool, true, false, ◌&&◌, Option, none, some, List, [], ◌∷◌, ◌++◌, map,
  ◌==◌,
}

abbrev pub sol_provider_model : String
sol_provider_model = "openai/gpt-5.6-sol"

abbrev pub luna_provider_model : String
luna_provider_model = "openai/gpt-5.6-luna"

pub record ModelAlias : Type 0 where
  pub name : String
  pub provider_model : String
  pub effort : String

abbrev pub alias : String → String → String → ModelAlias
alias name provider_model effort = record {
  name = name;
  provider_model = provider_model;
  effort = effort;
}

abbrev pub model_aliases : List ModelAlias
model_aliases =
    alias "gpt-low" sol_provider_model "low"
    ∷ alias "gpt-medium" sol_provider_model "medium"
    ∷ alias "gpt-high" sol_provider_model "high"
    ∷ alias "gpt-xhigh" sol_provider_model "xhigh"
    ∷ alias "gpt-max" sol_provider_model "max"
    ∷ alias "gpt-luna-low" luna_provider_model "low"
    ∷ alias "gpt-luna-max" luna_provider_model "max"
    ∷ []

unfoldable pub alias_names : List String
alias_names = map (λ model. model.name) model_aliases

-- The derived `==` of `ModelAlias`.
unfoldable pub same_model : ModelAlias → ModelAlias → Bool
same_model a b = a.name == b.name && a.provider_model == b.provider_model && a.effort == b.effort

unfoldable pub model_alias : String → Option ModelAlias
model_alias name = find (λ model. model.name == name) model_aliases

abbrev pub is_text : Option String → String → Bool
is_text none s = false
is_text (some t) s = t == s

unfoldable pub matches : ModelAlias → Option String → Option String → Bool
matches model provider_model effort =
    is_text provider_model model.provider_model && is_text effort model.effort

unfoldable pub model_alias_matches : String → Option String → Option String → Bool
unfolding model_alias matches
model_alias_matches name provider_model effort = elim (model_alias name) [
  | none ↦ false
  | some model ↦ matches model provider_model effort
]

unfoldable pub provider_args : ModelAlias → List String
provider_args model = "-m" ∷ model.provider_model ∷ "--variant" ∷ model.effort ∷ []

abbrev pub same_texts : List String → List String → Bool
same_texts [] [] = true
same_texts (s ∷ ss) (t ∷ ts) = s == t && same_texts ss ts
same_texts _ _ = false

unfoldable pub provider_args_match : ModelAlias → List String → Bool
unfolding provider_args
provider_args_match model args = same_texts args (provider_args model)

unfoldable pub supports_account : ModelAlias → AccountProfile → Bool
unfolding same_model
supports_account model account =
    any (λ declared. same_model declared model) model_aliases
    && any (λ declared. declared.opencode_wrapper == account.opencode_wrapper) accounts

unfoldable pub eligible_account_ids : ModelAlias → List String
unfolding supports_account
eligible_account_ids model =
    map (λ account. account.opencode_wrapper) (filter (supports_account model) accounts)

unfoldable pub host_candidate_args : ModelAlias → List String
unfolding provider_args
host_candidate_args model = ("run" ∷ "--dangerously-skip-permissions" ∷ []) ++ provider_args model

unfoldable pub policy_effective_args : ModelAlias → List String
unfolding provider_args
policy_effective_args model =
    ("run" ∷ "--format" ∷ "json" ∷ "--dangerously-skip-permissions" ∷ []) ++ provider_args model

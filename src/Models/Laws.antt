-- ===== src/Models/Laws.antt =====
-- What the catalogue answers.
use agent_runner_opencode.Prelude.{
  Bool-cases, find, any, All, find-eq_some, String, ◌≡◌, refl, subst, ◌↔◌, inl, inr, Bool, true,
  some, List, [], ◌∷◌, map, arith, ◌==◌, eq_iff, eq_refl,
}
use agent_runner_opencode.Account.{AccountProfile, accounts}
use agent_runner_opencode.Models.{
  ModelAlias, model_aliases, model_alias, provider_args, same_texts, provider_args_match,
  supports_account, eligible_account_ids,
}

-- Every route of the catalogue is found by its own name.
pub model_alias-name : All (λ model. model_alias model.name ≡ some model) model_aliases
unfolding model_alias
model_alias-name = (refl, (refl, (refl, (refl, (refl, (refl, (refl, tt)))))))

-- A route that is found by a name has that name.
pub model_alias_name :
    (name : String) (model : ModelAlias) → model_alias name ≡ some model → model.name ≡ name
unfolding model_alias
model_alias_name name model h =
    (eq_iff model.name name).0 (find-eq_some (λ m. m.name == name) model_aliases model h)

-- A property of every entry of the catalogue holds of what a search finds in it.
pub find-All {ℓ κ} :
    {A : Type ℓ} (P : A → Type κ) (p : A → Bool) (xs : List A) (a : A)
    → All P xs
    → find p xs ≡ some a
    → P a
find-All P p [] a h e = cc
find-All P p (x ∷ xs) a h e = elim (Bool-cases (p x)) [
  | inl found ↦ subst P (ground (arith, found)) h.0
  | inr later ↦ find-All P p xs a h.1 (ground (arith, later))
]

-- Every declared account may use every route of the catalogue, and no other account may use any:
-- a route that a name finds supports an account exactly when the account's wrapper is declared.
pub supports_account_uniform :
    (name : String) (model : ModelAlias) (account : AccountProfile)
    → model_alias name ≡ some model
    → supports_account model account
      ≡ any (λ declared. declared.opencode_wrapper == account.opencode_wrapper) accounts
unfolding supports_account model_alias
supports_account_uniform name model account h =
    find-All
      (λ m.
        supports_account m account
        ≡ any (λ d. d.opencode_wrapper == account.opencode_wrapper) accounts)
      (λ m. m.name == name) model_aliases model
      (refl, (refl, (refl, (refl, (refl, (refl, (refl, tt))))))) h

-- `discovery.models` publishes the complete account set for every route of the catalogue.
pub eligible_account_ids-All :
    All
      (λ model. eligible_account_ids model ≡ map (λ account. account.opencode_wrapper) accounts)
      model_aliases
unfolding eligible_account_ids
eligible_account_ids-All = (refl, (refl, (refl, (refl, (refl, (refl, (refl, tt)))))))

pub same_texts→eq : (ss ts : List String) → same_texts ss ts ≡ true → ss ≡ ts
same_texts→eq [] [] h = refl
same_texts→eq [] (t ∷ ts) h = cc
same_texts→eq (s ∷ ss) [] h = cc
same_texts→eq (s ∷ ss) (t ∷ ts) h = ground (arith, eq_iff s t, same_texts→eq ss ts)

pub same_texts_self : (ss : List String) → same_texts ss ss ≡ true
same_texts_self [] = refl
same_texts_self (s ∷ ss) = rw eq_refl (same_texts_self ss)

-- A route's arguments are accepted exactly when they are the four advertised ones.
pub provider_args_match_iff :
    (model : ModelAlias) (args : List String)
    → (provider_args_match model args ≡ true) ↔ (args ≡ provider_args model)
unfolding provider_args_match
provider_args_match_iff model args =
    (same_texts→eq args (provider_args model), λ e. rw e (same_texts_self (provider_args model)))

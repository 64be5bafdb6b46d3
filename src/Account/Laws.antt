-- ===== src/Account/Laws.antt =====
-- What account resolution answers.
use agent_runner_opencode.Prelude.{
  Bool-cases, find-eq_some, eq_of, String, ◌≡◌, refl, sym, ap, ◌∙◌, subst, inl, inr, Option, none,
  some, arith, ◌==◌, eq_iff,
}
use agent_runner_opencode.Account.{
  AccountProfile, account_one, accounts, profile_for_account_reference, account_for_wrapper,
  or_bare, profile_for_wrapper_reference,
}

-- Both lookups of a reference, the one by a single search with the alias in its test and the one
-- by an exact search with the alias as its fallback, give the same account for every reference.
pub profile_for_account_reference-eq-wrapper :
    (reference : String)
    → profile_for_account_reference reference ≡ profile_for_wrapper_reference reference
unfolding profile_for_account_reference profile_for_wrapper_reference account_for_wrapper
profile_for_account_reference-eq-wrapper reference = elim (Bool-cases (reference == "opencode")) [
  | inl bare ↦ rw (eq_of reference "opencode" bare)
  | inr named ↦ rw named (ground arith)
]

-- The account that is found by a wrapper's name has that name.
pub account_for_wrapper_name :
    (wrapper : String) (account : AccountProfile)
    → account_for_wrapper wrapper ≡ some account
    → account.opencode_wrapper ≡ wrapper
unfolding account_for_wrapper
account_for_wrapper_name wrapper account h =
    (eq_iff account.opencode_wrapper wrapper).0
      (find-eq_some (λ a. a.opencode_wrapper == wrapper) accounts account h)

account_for_wrapper_self :
    (wrapper : String) (account : AccountProfile)
    → account_for_wrapper wrapper ≡ some account
    → account_for_wrapper account.opencode_wrapper ≡ some account
account_for_wrapper_self wrapper account h =
    ap account_for_wrapper (account_for_wrapper_name wrapper account h) ∙ h

or_bare_declared :
    (reference : String) (o : Option AccountProfile) (account : AccountProfile)
    → account_for_wrapper reference ≡ o
    → or_bare reference o ≡ some account
    → account_for_wrapper account.opencode_wrapper ≡ some account
or_bare_declared reference (some found) account e h =
    account_for_wrapper_self reference account (e ∙ h)
or_bare_declared reference none account e h =
    let one : account ≡ account_one = ground (arith, h) in
    subst (λ a. account_for_wrapper a.opencode_wrapper ≡ some a) (sym one)
      (unfold account_for_wrapper in refl)

-- Every account that a reference finds is declared: it is found by its own wrapper's name.
pub declared_account :
    (reference : String) (account : AccountProfile)
    → profile_for_wrapper_reference reference ≡ some account
    → account_for_wrapper account.opencode_wrapper ≡ some account
unfolding profile_for_wrapper_reference
declared_account reference account h =
    or_bare_declared reference (account_for_wrapper reference) account refl h

-- The wrapper's name of an account is a reference to it.
pub reference_of_wrapper :
    (wrapper : String) (account : AccountProfile)
    → account_for_wrapper wrapper ≡ some account
    → profile_for_wrapper_reference wrapper ≡ some account
unfolding profile_for_wrapper_reference
reference_of_wrapper wrapper account h = rw h refl

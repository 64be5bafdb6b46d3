-- ===== src/Failure.antt =====
-- src/envelope.rs: `ProviderFailure`, its constructors and the results that carry it. The free text
-- of a failure (`message`, `details`) is for people and is not modelled.
use agent_runner_opencode.Prelude.{
  if◌then◌else◌, ℕ, String, ◌≡◌, refl, Bool, true, false, Option, none, some, arith,
}

pub record ProviderFailure : Type 0 where
  pub request_id : String
  pub category : String
  pub code : String
  pub retryable : Bool
  pub exit_code : ℕ

abbrev pub category_unsupported : String
category_unsupported = "unsupported"

abbrev pub category_invalid_request : String
category_invalid_request = "invalid_request"

abbrev pub category_invalid_settings : String
category_invalid_settings = "invalid_settings"

abbrev pub category_conflict : String
category_conflict = "conflict"

abbrev pub category_failed : String
category_failed = "failed"

abbrev pub provider_failure : String → String → String → Bool → ℕ → ProviderFailure
provider_failure id category code retryable exit_code = record {
  request_id = id;
  category = category;
  code = code;
  retryable = retryable;
  exit_code = exit_code;
}

abbrev pub invalid_request : String → String → ProviderFailure
invalid_request id code = provider_failure id category_invalid_request code false 2

abbrev pub unsupported : String → String → ProviderFailure
unsupported id code = provider_failure id category_unsupported code false 3

abbrev pub invalid_settings : String → String → ProviderFailure
invalid_settings id code = provider_failure id category_invalid_settings code false 2

abbrev pub conflict : String → String → ProviderFailure
conflict id code = provider_failure id category_conflict code false 2

abbrev pub retryable_conflict : String → String → ProviderFailure
retryable_conflict id code = provider_failure id category_conflict code true 2

abbrev pub internal : String → String → ProviderFailure
internal id code = provider_failure id category_failed code false 1

-- `Result` with this failure as its error.
pub data Result {ℓ} (Value : Type ℓ) : Type ℓ where
  err : ProviderFailure → Result Value
  ok : Value → Result Value

-- The `?` of the source: the rest of the body runs on a value only.
abbrev pub ◌>>=◌ {ℓ ℓ'} :
    {Value : Type ℓ} {Rest : Type ℓ'} → Result Value → (Value → Result Rest) → Result Rest
err failure >>= rest = err failure
ok value >>= rest = rest value

abbrev pub ◌>>◌ {ℓ} : {Rest : Type ℓ} → Result (Unit {0}) → Result Rest → Result Rest
check >> rest = check >>= λ done. rest

infixl 5 ◌>>=◌ ◌>>◌
-- `if test { return Err(failure) }`
abbrev pub refuse_if : Bool → ProviderFailure → Result (Unit {0})
refuse_if b e = if b then err e else ok tt

-- `ok_or_else`
abbrev pub ok_or {ℓ} : {A : Type ℓ} → Option A → ProviderFailure → Result A
ok_or none e = err e
ok_or (some a) e = ok a

-- A body that succeeds has succeeded at its first step.
pub >>=-eq-ok {ℓ ℓ'} :
    {Value : Type ℓ} {Rest : Type ℓ'} (first : Result Value) (rest : Value → Result Rest)
    {answer : Rest}
    → (first >>= rest) ≡ ok answer
    → (value : Value) × (first ≡ ok value) × (rest value ≡ ok answer)
>>=-eq-ok (err failure) rest h = cc
>>=-eq-ok (ok value) rest h = (value, refl, h)

-- A chain of tests that passes has passed its last test and all before it.
pub chain-passed :
    (first : Result (Unit {0})) (test : Bool) (failure : ProviderFailure)
    → (first >> refuse_if test failure) ≡ ok tt
    → (first ≡ ok tt) × (test ≡ false)
chain-passed (err failure) test e h = cc
chain-passed (ok done) test e h = ground arith

pub refuse_if-passed :
    (test : Bool) (failure : ProviderFailure) {done : Unit {0}}
    → refuse_if test failure ≡ ok done
    → test ≡ false
refuse_if-passed test failure h = ground arith

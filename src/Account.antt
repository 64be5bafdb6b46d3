-- ===== src/Account.antt =====
-- src/account.rs: the five declared accounts, and how a reference is resolved to one of them.
pub mod Laws
use agent_runner_opencode.Prelude.{
  eqb, if◌then◌else◌, find, ℕ, String, Bool, ◌&&◌, ◌||◌, Option, none, some, List, [], ◌∷◌, ◌==◌,
}

pub record AccountProfile : Type 0 where
  pub opencode_wrapper : String
  pub opencode_index : ℕ  -- u8
  pub opencode_auth_path : String
  pub account_tag : String
  pub account_hash : String

abbrev pub profile : String → ℕ → String → String → AccountProfile
profile wrapper index auth_path hash = record {
  opencode_wrapper = wrapper;
  opencode_index = index;
  opencode_auth_path = auth_path;
  account_tag = wrapper;
  account_hash = hash;
}

abbrev pub account_one : AccountProfile
account_one = profile "opencode1" 1 "~/.local/share/opencode/auth.json" "b7590111"

abbrev pub accounts : List AccountProfile
accounts =
    account_one
    ∷ profile "opencode2" 2 "~/.opencode2/opencode/auth.json" "6dadfdf6"
    ∷ profile "opencode3" 3 "~/.opencode3/opencode/auth.json" "00d3e164"
    ∷ profile "opencode4" 4 "~/.opencode4/opencode/auth.json" "d2b0bb16"
    ∷ profile "opencode5" 5 "~/.opencode5/opencode/auth.json" "7aee8329"
    ∷ []

unfoldable pub account_one_provider_alias : String → AccountProfile → Bool
account_one_provider_alias reference account =
    reference == "opencode" && eqb account.opencode_index 1

unfoldable pub account_reference_matches : String → AccountProfile → Bool
unfolding account_one_provider_alias
account_reference_matches reference account =
    account.opencode_wrapper == reference || account_one_provider_alias reference account

unfoldable pub profile_for_account_reference : String → Option AccountProfile
unfolding account_reference_matches
profile_for_account_reference reference = find (account_reference_matches reference) accounts

-- `find` by the wrapper's name, which `account_for_wrapper` of the settings definition makes too.
unfoldable pub account_for_wrapper : String → Option AccountProfile
account_for_wrapper wrapper = find (λ account. account.opencode_wrapper == wrapper) accounts

-- `.or_else(|| (reference == "opencode").then_some(&ACCOUNTS[0]))`
abbrev pub or_bare : String → Option AccountProfile → Option AccountProfile
or_bare reference (some account) = some account
or_bare reference none = if reference == "opencode" then some account_one else none

unfoldable pub profile_for_wrapper_reference : String → Option AccountProfile
profile_for_wrapper_reference reference = or_bare reference (account_for_wrapper reference)

abbrev pub quota_auth_path : AccountProfile → String
quota_auth_path account = account.opencode_auth_path

abbrev pub quota_source_kind : AccountProfile → String
quota_source_kind account = "opencode_auth"

abbrev pub quota_probe_kind : AccountProfile → String
quota_probe_kind account = "native_chatgpt_usage"

-- ===== src/Settings/Values/Normal.antt =====
-- What normalizing does to the account's fields.
use agent_runner_opencode.Prelude.{String, ◌≡◌, true, Option, none, some}
use agent_runner_opencode.Json.{Value, object, Fields, get, pointer, as_str, as_bool}
use agent_runner_opencode.Json.Laws.{find_field-insert}
use agent_runner_opencode.Account.{
  AccountProfile, account_for_wrapper, quota_auth_path, quota_source_kind, quota_probe_kind,
}
use agent_runner_opencode.Settings.Definition.Sound.{NamesAccount}
use agent_runner_opencode.Settings.Values.{
  settings_account_reference, account_of, settings_value_account, normalize_quota_value,
  normalize_launch_value, normalize_account_settings_value, normalize_settings_value,
}
use agent_runner_opencode.Account.Laws.{declared_account}
use agent_runner_opencode.Settings.Definition.{wrapper_value, quota_value}

pub account_of_declared :
    (reference : Option String) (account : AccountProfile)
    → account_of reference ≡ some account
    → account_for_wrapper account.opencode_wrapper ≡ some account
account_of_declared none account h = cc
account_of_declared (some reference) account h = declared_account reference account h

settings_value_account_declared :
    (vs : Value) (account : AccountProfile)
    → settings_value_account vs ≡ some account
    → account_for_wrapper account.opencode_wrapper ≡ some account
unfolding settings_value_account
settings_value_account_declared vs account h =
    account_of_declared (settings_account_reference vs) account h

-- The normalized fields at the keys that are read.
module _ (account : AccountProfile) (fs : Fields) where
  abbrev normal : Value
  normal = normalize_account_settings_value (object fs) account

  normal_wrapper : wrapper_value normal ≡ account.opencode_wrapper
  unfolding wrapper_value normalize_account_settings_value normalize_quota_value
      normalize_launch_value
  normal_wrapper = simp find_field-insert

  normal_profile : as_str (get normal "profile") ≡ some account.opencode_wrapper
  unfolding normalize_account_settings_value normalize_quota_value normalize_launch_value
  normal_profile = simp find_field-insert

  normal_quota :
      (quota_value normal "source" ≡ some (quota_source_kind account))
      × (quota_value normal "auth_path" ≡ some (quota_auth_path account))
      × (quota_value normal "probe" ≡ some (quota_probe_kind account))
  unfolding quota_value normalize_account_settings_value normalize_quota_value
      normalize_launch_value
  normal_quota = (simp find_field-insert, simp find_field-insert, simp find_field-insert)

  normal_launch :
      (as_str (get normal "provider") ≡ some "opencode")
      × (as_str (pointer normal "launch" "format") ≡ some "json")
      × (as_bool (pointer normal "launch" "dangerously_skip_permissions") ≡ some true)
  unfolding normalize_account_settings_value normalize_quota_value normalize_launch_value
  normal_launch = (simp find_field-insert, simp find_field-insert, simp find_field-insert)

-- An object whose wrapper or profile names a declared account is normalized to values whose wrapper,
-- profile and quota fields are this account's, with this provider and the managed launch.
pub normalize_settings_value-NamesAccount :
    (fs : Fields) (account : AccountProfile)
    → settings_value_account (object fs) ≡ some account
    → let vs = normalize_settings_value (object fs) in
      NamesAccount vs account
      × (as_str (get vs "profile") ≡ some account.opencode_wrapper)
      × (as_str (get vs "provider") ≡ some "opencode")
      × (as_str (pointer vs "launch" "format") ≡ some "json")
      × (as_bool (pointer vs "launch" "dangerously_skip_permissions") ≡ some true)
unfolding normalize_settings_value
normalize_settings_value-NamesAccount fs account h = rw h (
  record {
    wrapper =
        rw (normal_wrapper account fs) (settings_value_account_declared (object fs) account h);
    source = (normal_quota account fs).0;
    auth_path = (normal_quota account fs).1;
    probe = (normal_quota account fs).2;
  },
  normal_profile account fs,
  (normal_launch account fs).0,
  (normal_launch account fs).1,
  (normal_launch account fs).2,
)

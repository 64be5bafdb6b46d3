-- ===== src/Settings/Records.antt =====
-- src/settings.rs: the operations on the records of a store that the requests are made of.
pub mod Fresh
pub mod Laws
use Prim.Native.String.{slice}
use agent_runner_opencode.Prelude.{
  if◌then◌else◌, length, get_elem?, find, any, position, is_blank, concat, ℕ, zero, suc, ◌+◌,
  String, Bool, Option, none, some, List, [], ◌∷◌, ◌==◌,
}
use agent_runner_opencode.Json.{Value, get, as_str, values}
use agent_runner_opencode.Failure.{Result, ok, err, ok_or}
use agent_runner_opencode.Settings.Store.{
  SettingsRecord, SettingsStore, Platform, settings_not_found_failure,
  stale_settings_version_failure,
}
use agent_runner_opencode.Settings.Values.{or_else}

unfoldable pub find_record : SettingsStore → String → String → Result SettingsRecord
find_record store id request_id =
    ok_or (find (λ r. r.id == id) store.records) (settings_not_found_failure request_id)

unfoldable pub record_index : SettingsStore → String → String → Result ℕ
record_index store id request_id =
    ok_or (position (λ r. r.id == id) store.records) (settings_not_found_failure request_id)

unfoldable pub ensure_version : SettingsRecord → String → String → Result (Unit {0})
ensure_version r version request_id =
    if r.version == version then ok tt else err (stale_settings_version_failure request_id)

-- `version_token`: the moment is the reading of the clock at the call.
unfoldable pub version_token : Platform → ℕ → String → Value → String → String
version_token p now id vs request_id =
    let seed = concat id (
      concat ":"
        (concat request_id (concat ":" (concat (p.decimal now) (concat ":" (p.print vs)))))) in
    concat "v" (slice (p.sha256_hex seed) 0 24)

abbrev pub record_at : List SettingsRecord → ℕ → Option SettingsRecord
record_at records index = get_elem? records index

-- A change of the record at an index; the source indexes only where a search found a record.
abbrev pub change_at :
    (SettingsRecord → SettingsRecord) → ℕ → List SettingsRecord → List SettingsRecord
change_at f i [] = []
change_at f zero (r ∷ rs) = f r ∷ rs
change_at f (suc i) (r ∷ rs) = r ∷ change_at f i rs

unfoldable pub update_record :
    Platform → ℕ → SettingsStore → ℕ → String → Value → String → SettingsStore
update_record p now store index id vs request_id =
    let version = version_token p now id vs request_id in
    record store {
      records = change_at (λ r. record r { version = version; values = vs }) index store.records;
    }

-- `Vec::remove`.
abbrev pub remove_at : ℕ → List SettingsRecord → List SettingsRecord
remove_at i [] = []
remove_at zero (r ∷ rs) = rs
remove_at (suc i) (r ∷ rs) = r ∷ remove_at i rs

abbrev pub text_or : Option String → String → String
text_or none s = s
text_or (some t) s = t

unfoldable pub default_display_name : Value → String
default_display_name vs =
    text_or (or_else (as_str (get vs "profile")) (as_str (get vs "wrapper"))) "opencode profile"

abbrev pub unless_blank : Option String → Option String
unless_blank none = none
unless_blank (some name) = if is_blank name then none else some name

unfoldable pub record_display_name : Option String → Value → String
unfolding default_display_name
record_display_name display_name vs = text_or (unless_blank display_name) (default_display_name vs)

unfoldable pub settings_id_base : Value → String
settings_id_base vs =
    text_or (or_else (as_str (get vs "wrapper")) (as_str (get vs "profile"))) "opencode"

-- The candidate of an attempt, at the reading of the clock that the attempt makes.
unfoldable pub settings_id_for_base : Platform → String → String → ℕ → ℕ → String
settings_id_for_base p wrapper request_id now attempt =
    let seed = concat wrapper (
      concat ":" (
        concat request_id
          (concat ":" (concat (p.decimal now) (concat ":" (p.decimal attempt)))))) in
    concat wrapper (concat "-" (slice (p.sha256_hex seed) 0 24))

unfoldable pub id_taken : List SettingsRecord → String → Bool
id_taken records candidate = any (λ r. r.id == candidate) records

-- `(0_u64..).map(candidate).find(free)` from an attempt on, with a bound on the attempts; `none` where
-- the bound is used up, where the source goes on.
unfoldable pub first_free : ℕ → List SettingsRecord → (ℕ → String) → ℕ → Option String
first_free zero records candidate attempt = none
first_free (suc fuel) records candidate attempt =
    let later = first_free fuel records candidate (attempt + 1) in
    if id_taken records (candidate attempt) then later else some (candidate attempt)

-- One attempt more than there are records: enough where these candidates
-- differ.
unfoldable pub unique_settings_id : SettingsStore → (ℕ → String) → Option String
unfolding first_free
unique_settings_id store candidate = first_free (length store.records + 1) store.records candidate 0

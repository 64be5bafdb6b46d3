-- ===== src/SessionPages/Turns.antt =====
-- src/session_turn_pages.rs: the turns of a page and its result. The parts and the bodies of the
-- messages, the encodings and the digests are arguments.
use agent_runner_opencode.Prelude.{
  leb, if◌then◌else◌, length, any, concat, Dict, lookup, ℕ, ◌-◌, String, Bool, true, false, not,
  Option, none, some, List, [], ◌∷◌, ◌==◌,
}
use agent_runner_opencode.Json.{Value, null}
use agent_runner_opencode.Failure.{internal, Result, err, ok, ◌>>=◌, refuse_if}
use agent_runner_opencode.SessionPages.Data.{
  TurnProjection, canonical_ingest, user_observation, SourceKey, TokenBinding, PageTokenPayload,
  ResumeTokenPayload, PageState, NativeMessage, ClassifiedPart, BodyProjection, absent, omitted,
  inline, saturating_add, SourceWork,
}
use agent_runner_opencode.SessionPages.Loaded.{same_key}

pub record Turn : Type 0 where
  pub session_id : String
  pub turn_id : String
  pub snapshot_sequence : ℕ
  pub timestamp : String
  pub role : String
  pub parent_turn_id : Option String
  pub is_sidechain : Bool
  pub is_compaction_boundary : Bool
  pub body_state : String
  pub body : Value
  pub body_bytes : Option ℕ
  pub body_sha256 : Option String
  pub canonical_text_sha256 : Option String

-- The result's fields but its constant ones; a token is its bytes.
pub record PageResult : Type 0 where
  pub provider_instance_id : String
  pub settings_id : String
  pub session_id : String
  pub turn_projection : TurnProjection
  pub snapshot_id : String
  pub page_index : ℕ
  pub page_start_sequence : ℕ
  pub turns : List Turn
  pub page_turn_count : ℕ
  pub source_bytes_examined : ℕ
  pub scan_progress : Bool
  pub snapshot_complete : Bool
  pub next_page_token : Option (List ℕ)
  pub resume_token : Option (List ℕ)

-- `encoded_length` is the length of the success response that carries the result.
pub record Projector : Type 0 where
  pub classified_parts :
      List SourceKey → SourceWork → Result (Dict (List ClassifiedPart) × SourceWork)
  pub project_bodies :
      List SourceKey
      → Dict (List ClassifiedPart)
      → SourceWork
      → Result (Dict BodyProjection × SourceWork)
  pub encode_page : PageTokenPayload → Result (List ℕ)
  pub encode_resume : ResumeTokenPayload → Result (List ℕ)
  pub encoded_length : PageResult → Option ℕ
  pub sha256_hex : String → String
  pub timestamp : ℕ → String

abbrev pub same_cursor : Option SourceKey → Option SourceKey → Bool
same_cursor none none = true
same_cursor (some j) (some k) = same_key j k
same_cursor _ _ = false

abbrev pub is_nil {ℓ} : {A : Type ℓ} → List A → Bool
is_nil [] = true
is_nil (x ∷ xs) = false

unfoldable pub message_matches_projection : NativeMessage → TurnProjection → Bool
message_matches_projection message canonical_ingest = true
message_matches_projection message user_observation = message.role == "user"

unfoldable pub omit_turn_body : Turn → Turn
omit_turn_body turn =
    if turn.body_state == "inline"
    then record turn { body_state = "omitted_oversize"; body = null }
    else turn

abbrev pub has_compaction : Option (List ClassifiedPart) → Bool
has_compaction none = false
has_compaction (some parts) = any (λ part. part.part_type == "compaction") parts

-- What a page knows: the projector, the binding, the budgets, the state it starts from.
module _ (x : Projector) (binding : TokenBinding) where
  unfoldable pub stable_turn_id : String → String
  stable_turn_id native_message_id = concat "turn_" (
      x.sha256_hex
        (concat "opencode-turn\0" (concat binding.session_id (concat "\0" native_message_id))))

  abbrev parent_turn_id : Option String → Option String
  parent_turn_id none = none
  parent_turn_id (some id) = some (stable_turn_id id)

  abbrev with_body : BodyProjection → Turn → Turn
  with_body absent turn = turn
  with_body (omitted body_bytes body_sha256 text_sha256) turn = record turn {
    body_state = "omitted_oversize";
    body_bytes = body_bytes;
    body_sha256 = body_sha256;
    canonical_text_sha256 = text_sha256;
  }
  with_body (inline body body_bytes body_sha256 text_sha256) turn = record turn {
    body_state = "inline";
    body = body;
    body_bytes = some body_bytes;
    body_sha256 = some body_sha256;
    canonical_text_sha256 = some text_sha256;
  }

  unfoldable pub projected_turn :
      NativeMessage → ℕ → BodyProjection → Dict (List ClassifiedPart) → Turn
  projected_turn message sequence body parts = with_body body (record {
    session_id = binding.session_id;
    turn_id = stable_turn_id message.metadata.key.id;
    snapshot_sequence = sequence;
    timestamp = x.timestamp message.created;
    role = message.role;
    parent_turn_id = parent_turn_id message.parent_id;
    is_sidechain = false;
    is_compaction_boundary = has_compaction (lookup message.metadata.key.id parts);
    body_state = "absent";
    body = null;
    body_bytes = none;
    body_sha256 = none;
    canonical_text_sha256 = none;
  })

module _ (x : Projector) (binding : TokenBinding) (state : PageState) where
  abbrev pub page_payload : Option SourceKey → ℕ → PageTokenPayload
  page_payload cursor next_sequence = record {
    version = 2;
    kind = "page";
    binding = binding;
    budgets = state.budgets;
    snapshot_id = state.snapshot_id;
    high_watermark = state.high_watermark;
    snapshot_guard = state.snapshot_guard;
    cursor = cursor;
    page_index = saturating_add state.page_index 1;
    next_sequence = next_sequence;
  }

  abbrev pub resume_payload : ResumeTokenPayload
  resume_payload = record {
    version = 2;
    kind = "resume";
    binding = binding;
    position = state.high_watermark;
  }

  abbrev result_with :
      List Turn → ℕ → Bool → ℕ → Bool → Option (List ℕ) → Option (List ℕ) → PageResult
  result_with turns examined scan_progress next_sequence complete next_page resume = record {
    provider_instance_id = binding.provider_instance_id;
    settings_id = binding.settings_id;
    session_id = binding.session_id;
    turn_projection = binding.projection;
    snapshot_id = state.snapshot_id;
    page_index = state.page_index;
    page_start_sequence = state.next_sequence;
    turns = turns;
    page_turn_count = next_sequence - state.next_sequence;
    source_bytes_examined = examined;
    scan_progress = scan_progress;
    snapshot_complete = complete;
    next_page_token = next_page;
    resume_token = resume;
  }

  -- The result at the end of the snapshot, or before it.
  abbrev pub result_at : Bool → Option SourceKey → List Turn → ℕ → Bool → ℕ → Result PageResult
  result_at true cursor turns examined scan_progress next_sequence = do
    token ← x.encode_resume resume_payload
    ok (result_with turns examined scan_progress next_sequence true none (some token))
  result_at false cursor turns examined scan_progress next_sequence = do
    token ← x.encode_page (page_payload cursor next_sequence)
    ok (result_with turns examined scan_progress next_sequence false (some token) none)

  unfoldable pub page_result : Option SourceKey → List Turn → ℕ → Bool → Result PageResult
  page_result cursor turns examined scan_progress =
      result_at (same_cursor cursor state.high_watermark) cursor turns examined scan_progress
        (saturating_add state.next_sequence (length turns))

module _ (x : Projector) where
  abbrev within : Option ℕ → ℕ → Bool
  within none maximum = false
  within (some bytes) maximum = leb (saturating_add bytes 1) maximum

  unfoldable pub response_fits : PageResult → ℕ → Bool
  response_fits result maximum = within (x.encoded_length result) maximum

  abbrev pub within_budget : String → Option ℕ → ℕ → Result (Unit {0})
  within_budget request_id none maximum = err (internal request_id "session_page_encode_failed")
  within_budget request_id (some bytes) maximum =
      refuse_if (not (leb (saturating_add bytes 1) maximum))
        (internal request_id "session_page_response_budget_exceeded")

  unfoldable pub ensure_response_within_budget : String → PageResult → ℕ → Result (Unit {0})
  ensure_response_within_budget request_id result maximum =
      within_budget request_id (x.encoded_length result) maximum

-- ===== src/SessionPages/Data.antt =====
-- src/session_turn_pages.rs: the parameters, tokens, page states and messages, the failures, and the
-- accounting of the source bytes that are read.
use agent_runner_opencode.Prelude.{
  ltb, if◌then◌else◌, ℕ, ◌+◌, ◌-◌, ◌*◌, ◌^◌, ◌≤◌, min, String, ◌≡◌, Option, none, some, arith,
}
use agent_runner_opencode.Json.{Value}
use agent_runner_opencode.Failure.{
  ProviderFailure, invalid_request, unsupported, retryable_conflict, Result, ok, ◌>>=◌, ◌>>◌,
  refuse_if, ok_or,
}

pub data TurnProjection : Type 0 where
  canonical_ingest user_observation : TurnProjection

pub data StartMode : Type 0 where
  beginning tail continuation : StartMode

pub record ReadTurnsParams : Type 0 where
  pub settings_id : String
  pub session_id : String
  pub read_protocol : String
  pub turn_projection : TurnProjection
  pub expected_delivery_nonce : Option String
  pub start_mode : StartMode
  pub after_token : Option String
  pub snapshot_id : Option String
  pub page_token : Option String
  pub max_turns : ℕ
  pub max_response_bytes : ℕ
  pub max_source_bytes : ℕ
  pub max_inline_body_bytes : ℕ

pub record SourceKey : Type 0 where
  pub created : ℕ
  pub id : String

pub record TokenBinding : Type 0 where
  pub provider_instance_id : String
  pub settings_id : String
  pub settings_version : String
  pub session_id : String
  pub session_created : ℕ
  pub projection : TurnProjection
  pub expected_delivery_nonce : Option String
  pub runtime_identity : String
  pub source_generation : String

pub record PageBudgets : Type 0 where
  pub max_turns : ℕ
  pub max_response_bytes : ℕ
  pub max_source_bytes : ℕ
  pub max_inline_body_bytes : ℕ

pub record SnapshotGuard : Type 0 where
  pub revision : String
  pub message_rowid : ℕ
  pub part_rowid : ℕ

pub record PageTokenPayload : Type 0 where
  pub version : ℕ
  pub kind : String
  pub binding : TokenBinding
  pub budgets : PageBudgets
  pub snapshot_id : String
  pub high_watermark : Option SourceKey
  pub snapshot_guard : SnapshotGuard
  pub cursor : Option SourceKey
  pub page_index : ℕ
  pub next_sequence : ℕ

pub record ResumeTokenPayload : Type 0 where
  pub version : ℕ
  pub kind : String
  pub binding : TokenBinding
  pub position : Option SourceKey

-- The state of a page, without the key that signs its tokens.
pub record PageState : Type 0 where
  pub snapshot_id : String
  pub high_watermark : Option SourceKey
  pub snapshot_guard : SnapshotGuard
  pub cursor : Option SourceKey
  pub page_index : ℕ
  pub next_sequence : ℕ
  pub budgets : PageBudgets

pub record MessageMetadata : Type 0 where
  pub key : SourceKey
  pub updated : ℕ
  pub data_bytes : ℕ

pub record NativeMessage : Type 0 where
  pub metadata : MessageMetadata
  pub role : String
  pub parent_id : Option String
  pub created : ℕ
  pub completed : Option ℕ

pub record PartMetadata : Type 0 where
  pub id : String
  pub message_id : String
  pub updated : ℕ
  pub data_bytes : ℕ

pub record ClassifiedPart : Type 0 where
  pub metadata : PartMetadata
  pub part_type : String

-- The body is `Vec<Value>` in the source, an array here.
pub data BodyProjection : Type 0 where
  absent : BodyProjection
  omitted : Option ℕ → Option String → Option String → BodyProjection
  inline : Value → ℕ → String → String → BodyProjection

abbrev pub max_turn_count : ℕ
max_turn_count = 256

abbrev pub min_response_bytes : ℕ
min_response_bytes = 1024

abbrev pub max_response_size : ℕ
max_response_size = 512 * 1024

abbrev pub max_source_size : ℕ
max_source_size = 8 * 1024 * 1024

abbrev pub max_inline_body_size : ℕ
max_inline_body_size = 64 * 1024

abbrev pub max_id_bytes : ℕ
max_id_bytes = 1024

abbrev pub max_token_bytes : ℕ
max_token_bytes = 4096

abbrev pub max_message_metadata_bytes : ℕ
max_message_metadata_bytes = 16 * 1024

abbrev pub max_native_payload_query_bytes : ℕ
max_native_payload_query_bytes = 1024 * 1024

abbrev pub max_native_message_query_source_bytes : ℕ
max_native_message_query_source_bytes = 20 * 1024

abbrev pub max_native_message_query_rows : ℕ
max_native_message_query_rows = 128

abbrev pub max_parts_per_message : ℕ
max_parts_per_message = 128

abbrev pub part_type_prefix_bytes : ℕ
part_type_prefix_bytes = 128

abbrev pub max_observation_scan_rows : ℕ
max_observation_scan_rows = 256

module _ (request_id : String) where
  abbrev pub invalid_params_failure : ProviderFailure
  invalid_params_failure = invalid_request request_id "invalid_session_read_turns_params"

  abbrev pub invalid_token_failure : ProviderFailure
  invalid_token_failure = invalid_request request_id "invalid_session_page_token"

  abbrev pub snapshot_invalidated_failure : ProviderFailure
  snapshot_invalidated_failure = retryable_conflict request_id "snapshot_invalidated"

  abbrev pub source_schema_failure : ProviderFailure
  source_schema_failure = unsupported request_id "opencode_session_source_schema_unsupported"

  abbrev pub source_budget_failure : ProviderFailure
  source_budget_failure = invalid_request request_id "session_source_budget_exceeded"

  abbrev pub turn_metadata_too_large_failure : ProviderFailure
  turn_metadata_too_large_failure = invalid_request request_id "turn_metadata_too_large"

-- Additions of 64-bit words: `saturating_add`, and `checked_add`.
abbrev pub saturating_add : ℕ → ℕ → ℕ
saturating_add a b = min (a + b) (2 ^ 64 - 1)

abbrev pub checked_add : ℕ → ℕ → Option ℕ
checked_add a b = if ltb (a + b) (2 ^ 64) then some (a + b) else none

pub record SourceWork : Type 0 where
  pub maximum : ℕ
  pub examined : ℕ

abbrev pub new_work : ℕ → SourceWork
new_work maximum = record { maximum = maximum; examined = 0 }

unfoldable pub remaining : SourceWork → ℕ
remaining work = work.maximum - work.examined

unfoldable pub add : SourceWork → ℕ → String → Result SourceWork
add work bytes request_id = do
  examined ← ok_or (checked_add work.examined bytes) (source_budget_failure request_id)
  refuse_if (ltb work.maximum examined) (source_budget_failure request_id)
  ok (record work { examined = examined })

-- Additions keep the work within its maximum, and add up.
pub add-Bounded :
    (work after : SourceWork) (bytes : ℕ) (request_id : String)
    → add work bytes request_id ≡ ok after
    → (after.maximum ≡ work.maximum)
      × (after.examined ≡ work.examined + bytes)
      × (after.examined ≤ after.maximum)
unfolding add
add-Bounded work after bytes request_id h = ground arith

-- ===== src/Examples/Pages.antt =====
-- Tests and examples of the session pages.
use agent_runner_opencode.Prelude.{
  length, All, IsPrefix, codes, same_codes, ℕ, zero, suc, ◌-◌, ◌≤◌, String, ◌≡◌, refl, ◌≢◌, ◌⊎◌,
  true, false, Option, none, some, List, [], ◌∷◌, arith,
}
use agent_runner_opencode.Json.{pos_int, Value, null, number, text, object, field, end}
use agent_runner_opencode.Failure.{invalid_request, err, ok}
use agent_runner_opencode.SessionPages.Data.{
  canonical_ingest, beginning, ReadTurnsParams, SourceKey, TokenBinding, PageBudgets, SnapshotGuard,
  PageTokenPayload, PageState, MessageMetadata, NativeMessage, BodyProjection, SourceWork, new_work,
  remaining, add,
}
use agent_runner_opencode.SessionPages.Parameters.{
  validate_params, IsToken, IsNonce, IsStart, InBudgets, validate_params-InBudgets,
}
use agent_runner_opencode.SessionPages.Selection.{
  select_rows, select_message_payloads, total_bytes, select_message_payloads-bounds,
  select_message_payloads-progress,
}
use agent_runner_opencode.SessionPages.Tokens.{
  Codec, hex_bytes, token_text, encode_token, decode_token,
}
use agent_runner_opencode.SessionPages.Tokens.RoundTrip.{decode-encode_token}
use agent_runner_opencode.Encoding.Base64.RoundTrip.{IsByte}
use agent_runner_opencode.SessionPages.Rows.{
  Database, hex_pairs, decode_hex_field, message_metadata_from_row, parse_message_metadata,
  parse_native_message,
}
use agent_runner_opencode.SessionPages.Turns.{
  Turn, PageResult, Projector, message_matches_projection, omit_turn_body, stable_turn_id,
  projected_turn, page_result, response_fits, ensure_response_within_budget,
}
use agent_runner_opencode.SessionPages.Page.{
  admit, consider, page_turns, row_limit, finish_page, page_of_bodies, page_of_loaded,
  read_selected, read_rows, read_to, read_page,
}
use agent_runner_opencode.Custody.Active.{replicate}
use agent_runner_opencode.SessionPages.Loaded.{
  load_row, load_rows, load_messages, message_metadata_page, rows_before_gap, immutable_tail,
}
use agent_runner_opencode.Encoding.Base64.{
  third_base64_char, fourth_base64_char, push_base64_chunk, encode_base64,
}
use agent_runner_opencode.SessionPages.Reads.{Holds, TakenFrom, Moves, read_page-Moves}
use agent_runner_opencode.SessionPages.State.{
  Moment, Observed, Authority, same_token_scope, same_budgets, state_of, require_generation,
  require_snapshot_guard, continued_state, resumed_cursor, captured_state, page_state, read_turns,
}
use agent_runner_opencode.SessionPages.State.Continued.{SameScope, continued_state-SameScope}

abbrev pub params : ReadTurnsParams
params = record {
  settings_id = "main";
  session_id = "session";
  read_protocol = "turns/v1";
  turn_projection = canonical_ingest;
  expected_delivery_nonce = none;
  start_mode = beginning;
  after_token = none;
  snapshot_id = none;
  page_token = none;
  max_turns = 1;
  max_response_bytes = 2048;
  max_source_bytes = 100000;
  max_inline_body_bytes = 100;
}

params_valid : validate_params "turns/v1" params "r" ≡ ok tt
unfolding validate_params
params_valid = refl

validate_params-InBudgets_example :
    InBudgets params
    × IsNonce params.turn_projection params.expected_delivery_nonce
    × IsToken params.after_token
    × IsToken params.snapshot_id
    × IsToken params.page_token
    × IsStart params.start_mode params.turn_projection params.after_token params.snapshot_id
        params.page_token
validate_params-InBudgets_example = validate_params-InBudgets "turns/v1" params "r" params_valid

abbrev pub key_of : ℕ → String → SourceKey
key_of created id = record { created = created; id = id }

abbrev pub row_one : MessageMetadata
row_one = record { key = key_of 5 "m1"; updated = 6; data_bytes = 2 }

abbrev row_two : MessageMetadata
row_two = record { key = key_of 7 "m2"; updated = 8; data_bytes = 30000 }

select_message_payloads-bounds_example :
    let selected = select_message_payloads (row_one ∷ row_two ∷ []) 100000 2 in
    IsPrefix selected (row_one ∷ row_two ∷ [])
    × (length selected ≤ 128)
    × (total_bytes selected ≤ 20480)
    × (total_bytes selected ≤ 100000 - 16384)
select_message_payloads-bounds_example =
    select_message_payloads-bounds (row_one ∷ row_two ∷ []) 100000 2

-- The second row's bytes do not fit, the first one's do.
selects_one : select_message_payloads (row_one ∷ row_two ∷ []) 100000 2 ≡ row_one ∷ []
unfolding select_message_payloads select_rows
selects_one = refl

select_message_payloads-progress_example :
    select_message_payloads (row_one ∷ row_two ∷ []) 100000 2 ≢ []
select_message_payloads-progress_example =
    select_message_payloads-progress row_one (row_two ∷ []) 100000 2 (omega arith) (omega arith)

-- A codec of numbers below 256, each one byte.
abbrev codec : Codec ℕ
codec = record {
  to_vec = λ n. some (n ∷ []);
  from_slice =
      λ bytes. some (object (field "k" (text "page") (field "v" (number (pos_int 2)) end)));
  from_value = λ w. some 7;
  mac = λ payload. replicate 32 171;
  verify_slice = λ payload digest. same_codes digest (replicate 32 171);
}

replicate-IsByte : (n : ℕ) → All IsByte (replicate n 171)
replicate-IsByte zero = tt
replicate-IsByte (suc n) = (omega arith, replicate-IsByte n)

encodes : encode_token codec 7 "r" ≡ ok (token_text codec (7 ∷ []))
unfolding encode_token encode_base64 push_base64_chunk third_base64_char fourth_base64_char
    hex_bytes
encodes = refl

decode-encode_token_example : decode_token codec (token_text codec (7 ∷ [])) "page" "r" ≡ ok 7
decode-encode_token_example =
    decode-encode_token codec 7 (7 ∷ []) "page" "r" (token_text codec (7 ∷ [])) refl
      ((omega arith, tt), (_, refl, refl, refl, refl)) (refl, replicate-IsByte 32, refl) encodes

-- A source of one user message, whose data is an object, and a projector without bodies.
abbrev pub message_row : Value
message_row = object (
    field "data_bytes" (number (pos_int 2)) (
      field "data_hex" (text "7b7d") (
        field "id" (text "m1") (
          field "time_created" (number (pos_int 5))
            (field "time_updated" (number (pos_int 6)) end)))))

abbrev pub db : Database
db = record {
  metadata_rows = λ cursor high limit. ok (message_row ∷ []);
  message_rows = λ metadata. ok (message_row ∷ []);
  rows_at = λ key. ok (message_row ∷ []);
  first_mutable_rows = ok [];
  last_rows_before = λ gap. ok [];
  parse_json = λ bytes. some (object (field "role" (text "user") end));
}

abbrev pub projector : Projector
projector = record {
  classified_parts = λ keys work. ok (("m1", []) ∷ [], work);
  project_bodies = λ keys parts work. ok (("m1", BodyProjection.absent) ∷ [], work);
  encode_page = λ payload. ok (1 ∷ []);
  encode_resume = λ payload. ok (2 ∷ []);
  encoded_length = λ result. some 100;
  sha256_hex = λ s. s;
  timestamp = λ created. "2026-01-01T00:00:00.000Z";
}

abbrev pub binding : TokenBinding
binding = record {
  provider_instance_id = "provider";
  settings_id = "main";
  settings_version = "v1";
  session_id = "session";
  session_created = 1;
  projection = canonical_ingest;
  expected_delivery_nonce = none;
  runtime_identity = "runtime";
  source_generation = "generation";
}

abbrev pub budgets : PageBudgets
budgets = record {
  max_turns = 1;
  max_response_bytes = 2048;
  max_source_bytes = 100000;
  max_inline_body_bytes = 100;
}

abbrev pub guard : SnapshotGuard
guard = record { revision = "revision"; message_rowid = 1; part_rowid = 1 }

abbrev pub high : SourceKey
high = key_of 9 "m9"

abbrev pub state : PageState
state = record {
  snapshot_id = "snapshot";
  high_watermark = some high;
  snapshot_guard = guard;
  cursor = none;
  page_index = 0;
  next_sequence = 0;
  budgets = budgets;
}

abbrev pub turn : Turn
turn = record {
  session_id = "session";
  turn_id = "turn_opencode-turn\0session\0m1";
  snapshot_sequence = 0;
  timestamp = "2026-01-01T00:00:00.000Z";
  role = "user";
  parent_turn_id = none;
  is_sidechain = false;
  is_compaction_boundary = false;
  body_state = "absent";
  body = null;
  body_bytes = none;
  body_sha256 = none;
  canonical_text_sha256 = none;
}

abbrev pub page : PageResult
page = record {
  provider_instance_id = "provider";
  settings_id = "main";
  session_id = "session";
  turn_projection = canonical_ingest;
  snapshot_id = "snapshot";
  page_index = 0;
  page_start_sequence = 0;
  turns = turn ∷ [];
  page_turn_count = 1;
  source_bytes_examined = 2;
  scan_progress = false;
  snapshot_complete = false;
  next_page_token = some (1 ∷ []);
  resume_token = none;
}

abbrev pub work : SourceWork
work = new_work 100000

abbrev pub worked : SourceWork
worked = record { maximum = 100000; examined = 2 }

reads : read_page db projector binding budgets state "r" work ≡ ok (page, worked)
unfolding read_page read_to message_metadata_page parse_message_metadata message_metadata_from_row
    read_rows read_selected select_message_payloads select_rows remaining load_messages load_rows
    load_row decode_hex_field hex_pairs add parse_native_message admit consider finish_page
    page_of_bodies page_of_loaded page_turns message_matches_projection omit_turn_body page_result
    projected_turn response_fits stable_turn_id
reads = refl

-- The null byte of the source is one code point.
null_byte : codes "\0" ≡ 0 ∷ []
null_byte = refl

read_page-Moves_example :
    (rows : List MessageMetadata) × (message_metadata_page db "r" none high
        (row_limit db projector binding budgets state "r" canonical_ingest)
      ≡ ok rows)
    × (((rows ≡ []) × Holds db projector binding budgets state "r" [] page)
        ⊎ ((taken : List NativeMessage) × TakenFrom db projector binding budgets state "r" rows
              taken
            × Moves db projector binding budgets state "r" taken page))
read_page-Moves_example =
    read_page-Moves db projector binding budgets state "r" high work (page, worked) refl reads

abbrev pub moment : Moment
moment = record {
  source_revision = ok "revision";
  frontiers = ok (1, 1);
  changed_messages = λ guard high. ok [];
  changed_parts = λ guard high. ok [];
}

abbrev pub observed : Observed
observed = record {
  generation = "generation";
  at_start = moment;
  revision_after = ok "revision";
  at_end = moment;
  verify_schema_current = ok tt;
}

abbrev token : PageTokenPayload
token = record {
  version = 2;
  kind = "page";
  binding = binding;
  budgets = budgets;
  snapshot_id = "snapshot";
  high_watermark = none;
  snapshot_guard = guard;
  cursor = none;
  page_index = 1;
  next_sequence = 1;
}

abbrev authority : Authority
authority = record {
  decode_page = λ bytes. ok token;
  decode_resume = λ bytes. err (invalid_request "r" "none");
  snapshot_digest = λ binding cursor high guard. "snapshot";
}

continues :
    continued_state observed authority db binding budgets "r" (some "snapshot") token work
    ≡ ok (state_of token, work)
unfolding continued_state same_token_scope require_generation require_snapshot_guard
continues = refl

continued_state-SameScope_example :
    SameScope binding binding
    × (same_budgets budgets budgets ≡ true)
    × (◌≡◌ {A = Option String} (some "snapshot") (some "snapshot"))
    × (◌≡◌ {A = String} "generation" "generation")
    × (state_of token ≡ state_of token)
continued_state-SameScope_example =
    continued_state-SameScope observed authority db binding budgets "r" (some "snapshot") token work
      (state_of token, work) continues

-- A session without messages is read in one page, which is complete.
abbrev empty_page : PageResult
empty_page = record page {
  turns = [];
  page_turn_count = 0;
  source_bytes_examined = 0;
  snapshot_complete = true;
  next_page_token = none;
  resume_token = some (2 ∷ []);
}

reads_empty : read_turns observed authority db binding budgets "r" projector params ≡ ok empty_page
unfolding read_turns page_state resumed_cursor captured_state immutable_tail parse_message_metadata
    rows_before_gap read_page read_to page_result require_snapshot_guard
    ensure_response_within_budget
reads_empty = refl

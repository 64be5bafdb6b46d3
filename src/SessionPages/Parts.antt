-- ===== src/SessionPages/Parts.antt =====
-- src/session_turn_pages.rs: the parts of the messages of a page, `classified_parts`. The rows that the
-- query answers, the bytes that are loaded and the type that a prefix exposes are arguments.
pub mod Complete
use agent_runner_opencode.Prelude.{
  ltb, eqb, if◌then◌else◌, is_present, get_elem?, take, any, filter, byte_length, Dict, lookup,
  insert_key, ℕ, ◌+◌, min, String, Bool, false, ◌||◌, not, Option, none, some, List, [], ◌∷◌, ◌==◌,
}
use agent_runner_opencode.Json.{Value}
use agent_runner_opencode.Failure.{Result, ok, ◌>>=◌, ◌>>◌, refuse_if, ok_or}
use agent_runner_opencode.SessionPages.Data.{
  SourceKey, PartMetadata, ClassifiedPart, max_id_bytes, max_parts_per_message,
  part_type_prefix_bytes, source_schema_failure, turn_metadata_too_large_failure, saturating_add,
  SourceWork, remaining, add,
}
use agent_runner_opencode.SessionPages.Rows.{row_string, row_u64}
use agent_runner_opencode.SessionPages.Turns.{is_nil}

pub record PartSource : Type 0 where
  pub part_rows : List SourceKey → Result (List Value)
  pub load_part_bytes : List PartMetadata → Result (Dict (List ℕ))
  pub part_type_from_prefix : List ℕ → Option String

abbrev pub max_page_part_rows : ℕ
max_page_part_rows = max_parts_per_message + 1

abbrev pub is_part_of : String → PartMetadata → Bool
is_part_of message_id part = part.message_id == message_id

-- Is it the message whose parts the query cut off?
abbrev pub is_truncated : Option PartMetadata → String → Bool
is_truncated none message_id = false
is_truncated (some part) message_id = is_part_of message_id part

-- The loop that counts the parts of every message: does a count go past the bound?
unfoldable pub is_crowded : (String → ℕ) → List PartMetadata → Bool
is_crowded counts [] = false
is_crowded counts (part ∷ parts) =
    let counted = counts part.message_id + 1 in
    ltb max_parts_per_message counted
    || is_crowded (λ id. if part.message_id == id then counted else counts id) parts

-- The parts whose prefixes are loaded, and the bytes of these, from the bytes counted so far on.
unfoldable pub select_prefixes :
    Option PartMetadata → ℕ → ℕ → List PartMetadata → List PartMetadata × ℕ
select_prefixes truncated remaining_bytes prefix_bytes [] = ([], prefix_bytes)
select_prefixes truncated remaining_bytes prefix_bytes (part ∷ parts) =
    let bytes = min part.data_bytes part_type_prefix_bytes in
    let passed = select_prefixes truncated remaining_bytes prefix_bytes parts in
    let rest = select_prefixes truncated remaining_bytes (prefix_bytes + bytes) parts in
    if is_truncated truncated part.message_id
    then passed
    else if ltb remaining_bytes (saturating_add prefix_bytes bytes)
    then ([], prefix_bytes)
    else (part ∷ rest.0, rest.1)

module _ (source : PartSource) (request_id : String) where
  unfoldable pub part_metadata_from_row : Value → Result PartMetadata
  part_metadata_from_row row = do
    id ← row_string request_id row "id"
    message_id ← row_string request_id row "message_id"
    refuse_if
        (eqb (byte_length id) 0
          || ltb max_id_bytes (byte_length id)
          || eqb (byte_length message_id) 0
          || ltb max_id_bytes (byte_length message_id))
        (turn_metadata_too_large_failure request_id)
    updated ← row_u64 request_id row "time_updated"
    data_bytes ← row_u64 request_id row "data_bytes"
    ok (record { id = id; message_id = message_id; updated = updated; data_bytes = data_bytes })

  -- `collect` into a result: the first failure, or all the values.
  unfoldable pub parse_part_metadata : List Value → Result (List PartMetadata)
  parse_part_metadata [] = ok []
  parse_part_metadata (row ∷ rows) = do
    metadata ← part_metadata_from_row row
    rest ← parse_part_metadata rows
    ok (metadata ∷ rest)

  unfoldable pub classify : Dict (List ℕ) → List PartMetadata → Result (List ClassifiedPart)
  classify prefixes [] = ok []
  classify prefixes (part ∷ parts) = do
    prefix ← ok_or (lookup part.id prefixes) (source_schema_failure request_id)
    part_type ← ok_or (source.part_type_from_prefix prefix) (source_schema_failure request_id)
    rest ← classify prefixes parts
    ok (record { metadata = part; part_type = part_type } ∷ rest)

  -- The loop over the messages ends at one that was cut off or lacks a prefix.
  unfoldable pub classify_messages :
      List PartMetadata
      → Option PartMetadata
      → Dict (List ℕ)
      → List SourceKey
      → Dict (List ClassifiedPart)
      → Result (Dict (List ClassifiedPart))
  classify_messages metadata truncated prefixes [] result = ok result
  classify_messages metadata truncated prefixes (message ∷ messages) result =
      let expected = filter (is_part_of message.id) metadata in
      if is_truncated truncated message.id
        || any (λ part. not (is_present (lookup part.id prefixes))) expected
      then ok result
      else classify prefixes expected >>= λ classified.
          classify_messages metadata truncated prefixes messages
            (insert_key message.id classified result)

  abbrev pub classified_rows :
      List SourceKey
      → SourceWork
      → List PartMetadata
      → Result (Dict (List ClassifiedPart) × SourceWork)
  classified_rows messages work metadata = do
    let kept = take max_page_part_rows metadata
    let truncated = get_elem? metadata max_page_part_rows
    refuse_if (is_crowded (λ _. 0) kept) (turn_metadata_too_large_failure request_id)
    let selected = select_prefixes truncated (remaining work) 0 kept
    prefixes ← source.load_part_bytes selected.0
    worked ← add work selected.1 request_id
    result ← classify_messages kept truncated prefixes messages []
    ok (result, worked)

  unfoldable pub classified_parts :
      List SourceKey → SourceWork → Result (Dict (List ClassifiedPart) × SourceWork)
  classified_parts messages work =
      if is_nil messages
      then ok ([], work)
      else source.part_rows messages >>= λ rows.
          parse_part_metadata rows >>= λ metadata. classified_rows messages work metadata

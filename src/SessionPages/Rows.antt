-- ===== src/SessionPages/Rows.antt =====
-- src/session_turn_pages.rs: the rows of the native database, their fields and bytes, and the messages
-- loaded from them. The database's answers and the JSON parser are arguments.
use Prim.Native.Nat.{bit_or}
use agent_runner_opencode.Prelude.{
  ltb, leb, eqb, if◌then◌else◌, is_present, utf8, byte_length, ℕ, ◌+◌, ◌-◌, ◌*◌, String, Bool,
  false, ◌&&◌, ◌||◌, not, Option, none, some, List, [], ◌∷◌, ◌==◌,
}
use agent_runner_opencode.Json.{Value, get, pointer, as_str, as_u64}
use agent_runner_opencode.Failure.{Result, ok, ◌>>=◌, ◌>>◌, refuse_if, ok_or}
use agent_runner_opencode.SessionPages.Data.{
  SourceKey, MessageMetadata, NativeMessage, max_id_bytes, max_message_metadata_bytes,
  snapshot_invalidated_failure, source_schema_failure, turn_metadata_too_large_failure,
}

-- `query` at the statements of the source, each of which names the session, and `serde_json::from_slice`.
pub record Database : Type 0 where
  pub metadata_rows : Option SourceKey → SourceKey → ℕ → Result (List Value)
  pub message_rows : List MessageMetadata → Result (List Value)
  pub rows_at : SourceKey → Result (List Value)
  pub first_mutable_rows : Result (List Value)
  pub last_rows_before : Option SourceKey → Result (List Value)
  pub parse_json : List ℕ → Option Value

abbrev pub hex_value : ℕ → Option ℕ
hex_value byte =
    if leb b'0' byte && leb byte b'9'
    then some (byte - b'0')
    else if leb b'a' byte && leb byte b'f'
    then some (byte - b'a' + 10)
    else if leb b'A' byte && leb byte b'F'
    then some (byte - b'A' + 10)
    else none

abbrev joined : Option ℕ → Option ℕ → Option (List ℕ) → Option (List ℕ)
joined (some high) (some low) (some rest) = some (bit_or (high * 16) low ∷ rest)
joined _ _ _ = none

-- The pairs of digits, each one byte; a digit that is left over belongs to no pair.
unfoldable pub hex_pairs : List ℕ → Option (List ℕ)
hex_pairs [] = some []
hex_pairs (c ∷ []) = some []
hex_pairs (high ∷ low ∷ rest) = joined (hex_value high) (hex_value low) (hex_pairs rest)

abbrev pub message_is_immutable : NativeMessage → Bool
message_is_immutable message = (message.role == "user") || is_present message.completed

abbrev supported_role : Option String → Option String
supported_role none = none
supported_role (some role) = if (role == "user") || (role == "assistant") then some role else none

abbrev nonempty : Option String → Option String
nonempty none = none
nonempty (some id) = if eqb (byte_length id) 0 then none else some id

abbrev or_else : Option ℕ → ℕ → ℕ
or_else none n = n
or_else (some m) n = m

abbrev is_long : Option String → Bool
is_long none = false
is_long (some id) = ltb max_id_bytes (byte_length id)

module _ (request_id : String) where
  abbrev pub row_string : Value → String → Result String
  row_string row name = ok_or (as_str (get row name)) (source_schema_failure request_id)

  abbrev pub row_u64 : Value → String → Result ℕ
  row_u64 row name = ok_or (as_u64 (get row name)) (source_schema_failure request_id)

  unfoldable pub decode_hex_field : Value → String → ℕ → Result (List ℕ)
  decode_hex_field row name expected_bytes = do
    encoded ← row_string row name
    refuse_if (not (eqb (byte_length encoded) (expected_bytes * 2)))
        (snapshot_invalidated_failure request_id)
    ok_or (hex_pairs (utf8 encoded)) (source_schema_failure request_id)

  unfoldable pub message_metadata_from_row : Value → Result MessageMetadata
  message_metadata_from_row row = do
    id ← row_string row "id"
    data_bytes ← row_u64 row "data_bytes"
    refuse_if
        (eqb (byte_length id) 0
          || ltb max_id_bytes (byte_length id)
          || ltb max_message_metadata_bytes data_bytes)
        (turn_metadata_too_large_failure request_id)
    created ← row_u64 row "time_created"
    updated ← row_u64 row "time_updated"
    ok (record {
      key = record { created = created; id = id };
      updated = updated;
      data_bytes = data_bytes;
    })

  -- `collect` into a result: the first failure, or all the values.
  unfoldable pub parse_message_metadata : List Value → Result (List MessageMetadata)
  parse_message_metadata [] = ok []
  parse_message_metadata (row ∷ rows) = do
    metadata ← message_metadata_from_row row
    rest ← parse_message_metadata rows
    ok (metadata ∷ rest)

  unfoldable pub parse_native_message : MessageMetadata → Value → Result NativeMessage
  parse_native_message metadata data_value = do
    role ←
        ok_or (supported_role (as_str (get data_value "role"))) (source_schema_failure request_id)
    refuse_if (ltb 64 (byte_length role)) (turn_metadata_too_large_failure request_id)
    let created = or_else (as_u64 (pointer data_value "time" "created")) metadata.key.created
    refuse_if (not (eqb created metadata.key.created)) (snapshot_invalidated_failure request_id)
    let parent_id = nonempty (as_str (get data_value "parentID"))
    refuse_if (is_long parent_id) (turn_metadata_too_large_failure request_id)
    ok (record {
      metadata = metadata;
      role = role;
      parent_id = parent_id;
      created = created;
      completed = as_u64 (pointer data_value "time" "completed");
    })

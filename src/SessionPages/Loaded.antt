-- ===== src/SessionPages/Loaded.antt =====
-- src/session_turn_pages.rs: the messages loaded from the native database, the immutable tail of a
-- session, and the guard of a snapshot.
use agent_runner_opencode.Prelude.{
  eqb, length, ℕ, min, String, ◌≡◌, sym, ap, ◌∙◌, Bool, ◌&&◌, not, Option, none, some, List, [],
  ◌∷◌, map, arith, ◌==◌,
}
use agent_runner_opencode.Json.{Value}
use agent_runner_opencode.Failure.{Result, err, ok, ◌>>=◌, ◌>>◌, refuse_if, ok_or, >>=-eq-ok}
use agent_runner_opencode.SessionPages.Data.{
  SourceKey, MessageMetadata, NativeMessage, max_observation_scan_rows,
  snapshot_invalidated_failure, source_schema_failure, SourceWork, add,
}
use agent_runner_opencode.Settings.Requests.Created.{ok_inj}
use agent_runner_opencode.SessionPages.Rows.{
  Database, message_is_immutable, decode_hex_field, message_metadata_from_row,
  parse_message_metadata, parse_native_message,
}

abbrev pub same_key : SourceKey → SourceKey → Bool
same_key j k = eqb j.created k.created && (j.id == k.id)

abbrev same_metadata : MessageMetadata → MessageMetadata → Bool
same_metadata observed expected =
    same_key observed.key expected.key
    && eqb observed.updated expected.updated
    && eqb observed.data_bytes expected.data_bytes

module _ (db : Database) (request_id : String) where
  open db use {
    metadata_rows, message_rows, rows_at, first_mutable_rows, last_rows_before, parse_json,
  }

  -- The body of the loop over the rows, for one of them.
  unfoldable pub load_row :
      MessageMetadata → Value → SourceWork → Result (NativeMessage × SourceWork)
  load_row expected row work = do
    observed ← message_metadata_from_row request_id row
    refuse_if (not (same_metadata observed expected)) (snapshot_invalidated_failure request_id)
    bytes ← decode_hex_field request_id row "data_hex" expected.data_bytes
    after ← add work (length bytes) request_id
    data_value ← ok_or (parse_json bytes) (source_schema_failure request_id)
    message ← parse_native_message request_id expected data_value
    ok (message, after)

  unfoldable pub load_rows :
      List MessageMetadata → List Value → SourceWork → Result (List NativeMessage × SourceWork)
  load_rows [] rows work = ok ([], work)
  load_rows (expected ∷ metadata) [] work = ok ([], work)
  load_rows (expected ∷ metadata) (row ∷ rows) work = do
    loaded ← load_row expected row work
    rest ← load_rows metadata rows loaded.1
    ok (loaded.0 ∷ rest.0, rest.1)

  unfoldable pub load_messages :
      List MessageMetadata → SourceWork → Result (List NativeMessage × SourceWork)
  load_messages [] work = ok ([], work)
  load_messages (row ∷ metadata) work = do
    rows ← message_rows (row ∷ metadata)
    refuse_if (not (eqb (length rows) (length (row ∷ metadata))))
        (snapshot_invalidated_failure request_id)
    load_rows (row ∷ metadata) rows work

  abbrev first_message : List NativeMessage × SourceWork → Result (NativeMessage × SourceWork)
  first_message ([], work) = err (snapshot_invalidated_failure request_id)
  first_message (message ∷ messages, work) = ok (message, work)

  unfoldable pub load_message : MessageMetadata → SourceWork → Result (NativeMessage × SourceWork)
  load_message metadata work = do loaded ← load_messages (metadata ∷ []) work; first_message loaded

  abbrev head {ℓ} : {A : Type ℓ} → List A → Option A
  head [] = none
  head (x ∷ xs) = some x

  unfoldable pub load_message_at_key : SourceKey → SourceWork → Result (NativeMessage × SourceWork)
  load_message_at_key key work = do
    rows ← rows_at key
    metadata ← parse_message_metadata request_id rows
    row ← ok_or (head metadata) (snapshot_invalidated_failure request_id)
    load_message row work

  unfoldable pub message_metadata_page :
      Option SourceKey → SourceKey → ℕ → Result (List MessageMetadata)
  message_metadata_page cursor high limit = do
    rows ← metadata_rows cursor high (min limit max_observation_scan_rows)
    parse_message_metadata request_id rows

  -- The rows before the first mutable message, which must still be mutable, or before the end.
  unfoldable pub rows_before_gap :
      List MessageMetadata → SourceWork → Result (List Value × SourceWork)
  rows_before_gap [] work = do rows ← last_rows_before none; ok (rows, work)
  rows_before_gap (gap ∷ _) work = do
    loaded ← load_message gap work
    refuse_if (message_is_immutable loaded.0) (snapshot_invalidated_failure request_id)
    rows ← last_rows_before (some gap.key)
    ok (rows, loaded.1)

  abbrev tail_of : List MessageMetadata → SourceWork → Result (Option SourceKey × SourceWork)
  tail_of [] work = ok (none, work)
  tail_of (candidate ∷ _) work = do
    loaded ← load_message candidate work
    refuse_if (not (message_is_immutable loaded.0)) (snapshot_invalidated_failure request_id)
    ok (some candidate.key, loaded.1)

  unfoldable pub immutable_tail : SourceWork → Result (Option SourceKey × SourceWork)
  immutable_tail work = do
    mutable_rows ← first_mutable_rows
    mutable ← parse_message_metadata request_id mutable_rows
    before ← rows_before_gap mutable work
    candidates ← parse_message_metadata request_id before.0
    tail_of candidates before.1

parse_native_message-metadata :
    (request_id : String) (metadata : MessageMetadata) (data_value : Value)
    (message : NativeMessage)
    → parse_native_message request_id metadata data_value ≡ ok message
    → message.metadata ≡ metadata
unfolding parse_native_message
parse_native_message-metadata request_id metadata data_value message h = ground arith

-- What is loaded of a row is the message asked for.
module _ (db : Database) (request_id : String) where
  load_row-metadata :
      (expected : MessageMetadata) (row : Value) (work : SourceWork)
      (loaded : NativeMessage × SourceWork)
      → load_row db request_id expected row work ≡ ok loaded
      → loaded.0.metadata ≡ expected
  unfolding load_row
  load_row-metadata expected row work loaded h =
      let (observed, a, h1) = >>=-eq-ok (message_metadata_from_row request_id row) _ h in
      let (done, b, h2) =
        >>=-eq-ok
          (refuse_if (not (same_metadata observed expected))
            (snapshot_invalidated_failure request_id))
          _ h1 in
      let (bytes, c, h3) =
        >>=-eq-ok (decode_hex_field request_id row "data_hex" expected.data_bytes) _ h2 in
      let (after, d, h4) = >>=-eq-ok (add work (length bytes) request_id) _ h3 in
      let (data_value, e, h5) =
        >>=-eq-ok (ok_or (db.parse_json bytes) (source_schema_failure request_id)) _ h4 in
      let (message, f, h6) = >>=-eq-ok (parse_native_message request_id expected data_value) _ h5 in
      ap (λ l. l.0.metadata) (sym (ok_inj h6))
      ∙ parse_native_message-metadata request_id expected data_value message f

  load_rows-metadata :
      (metadata : List MessageMetadata) (rows : List Value) (work : SourceWork)
      (loaded : List NativeMessage × SourceWork)
      → length rows ≡ length metadata
      → load_rows db request_id metadata rows work ≡ ok loaded
      → map (λ m. m.metadata) loaded.0 ≡ metadata
  unfolding load_rows
  load_rows-metadata [] rows work loaded e h = ap (λ l. map (λ m. m.metadata) l.0) (sym (ok_inj h))
  load_rows-metadata (expected ∷ metadata) [] work loaded e h = absurd (omega arith)
  load_rows-metadata (expected ∷ metadata) (row ∷ rows) work loaded e h =
      let (first, a, h1) = >>=-eq-ok (load_row db request_id expected row work) _ h in
      let (rest, b, h2) = >>=-eq-ok (load_rows db request_id metadata rows first.1) _ h1 in
      ap (λ l. map (λ m. m.metadata) l.0) (sym (ok_inj h2))
      ∙ ap (λ m. m ∷ map (λ m. m.metadata) rest.0) (load_row-metadata expected row work first a)
      ∙ ap (λ ms. expected ∷ ms) (load_rows-metadata metadata rows first.1 rest (omega arith) b)

  -- The messages loaded are the ones asked for, all of them and in their order.
  pub load_messages-metadata :
      (metadata : List MessageMetadata) (work : SourceWork)
      (loaded : List NativeMessage × SourceWork)
      → load_messages db request_id metadata work ≡ ok loaded
      → map (λ m. m.metadata) loaded.0 ≡ metadata
  unfolding load_messages
  load_messages-metadata [] work loaded h = ap (λ l. map (λ m. m.metadata) l.0) (sym (ok_inj h))
  load_messages-metadata (row ∷ metadata) work loaded h =
      let (rows, a, h1) = >>=-eq-ok (db.message_rows (row ∷ metadata)) _ h in
      let (done, b, h2) =
        >>=-eq-ok
          (refuse_if (not (eqb (length rows) (length (row ∷ metadata))))
            (snapshot_invalidated_failure request_id))
          _ h1 in
      load_rows-metadata (row ∷ metadata) rows work loaded (ground (arith, b)) h2

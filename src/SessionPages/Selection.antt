-- ===== src/SessionPages/Selection.antt =====
-- src/session_turn_pages.rs: `select_message_payloads`, the messages of a page whose payloads one
-- query may read.
use agent_runner_opencode.Prelude.{
  ltb, leb, if◌then◌else◌, length, IsPrefix, prefix-if, prefix-cons, ℕ, suc, ◌+◌, ◌-◌, ◌*◌, ◌≤◌,
  min, refl, ◌≢◌, Bool, ◌&&◌, List, [], ◌∷◌, arith,
}
use agent_runner_opencode.SessionPages.Data.{
  MessageMetadata, max_native_message_query_source_bytes, max_native_message_query_rows,
  max_parts_per_message, part_type_prefix_bytes, saturating_add,
}

-- The loop, from the rows and the bytes that are selected.
unfoldable pub select_rows : ℕ → ℕ → ℕ → ℕ → ℕ → List MessageMetadata → List MessageMetadata
select_rows row_count capacity max_turns selected bytes [] = []
select_rows row_count capacity max_turns selected bytes (row ∷ rows) =
    let next = saturating_add bytes row.data_bytes in
    let rest = select_rows row_count capacity max_turns (suc selected) next rows in
    if leb max_native_message_query_rows selected
    then []
    else if ltb capacity next
    then []
    else if leb max_turns (suc selected) && leb row_count (saturating_add max_turns 1)
    then row ∷ []
    else row ∷ rest

abbrev pub message_capacity : ℕ → ℕ
message_capacity source_bytes_remaining =
    min (source_bytes_remaining - max_parts_per_message * part_type_prefix_bytes)
      max_native_message_query_source_bytes

unfoldable pub select_message_payloads : List MessageMetadata → ℕ → ℕ → List MessageMetadata
select_message_payloads metadata source_bytes_remaining max_turns =
    select_rows (length metadata) (message_capacity source_bytes_remaining) max_turns 0 0 metadata

abbrev pub total_bytes : List MessageMetadata → ℕ
total_bytes [] = 0
total_bytes (row ∷ rows) = row.data_bytes + total_bytes rows

module _ (row_count capacity max_turns : ℕ)
    (small : capacity ≤ max_native_message_query_source_bytes) where
  select_rows-IsPrefix :
      (selected bytes : ℕ) (rows : List MessageMetadata)
      → IsPrefix (select_rows row_count capacity max_turns selected bytes rows) rows
  unfolding select_rows
  select_rows-IsPrefix selected bytes [] = ([], refl)
  select_rows-IsPrefix selected bytes (row ∷ rows) =
      let next : ℕ = saturating_add bytes row.data_bytes in
      let nothing : IsPrefix [] (row ∷ rows) = (row ∷ rows, refl) in
      let more : List MessageMetadata =
        select_rows row_count capacity max_turns (suc selected) next rows in
      let enough : Bool =
        leb max_turns (suc selected) && leb row_count (saturating_add max_turns 1) in
      prefix-if (leb max_native_message_query_rows selected) []
        (if ltb capacity next then [] else if enough then row ∷ [] else row ∷ more) (row ∷ rows)
        nothing
        (prefix-if (ltb capacity next) [] (if enough then row ∷ [] else row ∷ more) (row ∷ rows)
          nothing
          (prefix-if enough (row ∷ []) (row ∷ more) (row ∷ rows) (rows, refl)
            (prefix-cons row more rows (select_rows-IsPrefix (suc selected) next rows))))

  select_rows-bounds :
      (selected bytes : ℕ) (rows : List MessageMetadata)
      → bytes ≤ capacity
      → selected ≤ max_native_message_query_rows
      → (bytes + total_bytes (select_rows row_count capacity max_turns selected bytes rows)
          ≤ capacity)
        × (selected + length (select_rows row_count capacity max_turns selected bytes rows)
            ≤ max_native_message_query_rows)
  unfolding select_rows
  select_rows-bounds selected bytes [] b k = (omega arith, omega arith)
  select_rows-bounds selected bytes (row ∷ rows) b k =
      ground (arith, select_rows-bounds (suc selected) (saturating_add bytes row.data_bytes) rows)

module _ (metadata : List MessageMetadata) (source_bytes_remaining max_turns : ℕ) where
  -- The selection begins the page's metadata and stays within the rows and the bytes of a query, with
  -- room for the part prefixes of one message.
  pub select_message_payloads-bounds :
      let selected = select_message_payloads metadata source_bytes_remaining max_turns in
      IsPrefix selected metadata
      × (length selected ≤ 128)
      × (total_bytes selected ≤ 20480)
      × (total_bytes selected ≤ source_bytes_remaining - 16384)
  unfolding select_message_payloads
  select_message_payloads-bounds =
      let small : message_capacity source_bytes_remaining ≤ 20480 = omega arith in
      let (bytes, rows) =
        select_rows-bounds (length metadata) (message_capacity source_bytes_remaining) max_turns
          small 0 0 metadata (omega arith) (omega arith) in
      (
        select_rows-IsPrefix (length metadata) (message_capacity source_bytes_remaining) max_turns
            small 0 0 metadata,
        omega (arith, rows),
        omega (arith, bytes),
        omega (arith, bytes),
      )

-- If the bytes of the next row fit in a query and in what is left beside the part prefixes, something
-- is selected.
pub select_message_payloads-progress :
    (row : MessageMetadata) (rows : List MessageMetadata) (source_bytes_remaining max_turns : ℕ)
    → row.data_bytes ≤ 20480
    → row.data_bytes + 16384 ≤ source_bytes_remaining
    → select_message_payloads (row ∷ rows) source_bytes_remaining max_turns ≢ []
unfolding select_message_payloads select_rows
select_message_payloads-progress row rows source_bytes_remaining max_turns b c = λ e. ground arith

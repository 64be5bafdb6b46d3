-- ===== src/SessionPages/Page.antt =====
-- src/session_turn_pages.rs: `read_page`, from the selection of the messages to the result.
use agent_runner_opencode.Prelude.{
  eqb, if◌then◌else◌, length, take, filter, Dict, lookup, ℕ, min, String, Bool, true, false, ◌&&◌,
  not, Option, none, some, List, [], ◌∷◌, ◌++◌, map,
}
use agent_runner_opencode.Failure.{Result, err, ok, ◌>>=◌, ◌>>◌, refuse_if}
use agent_runner_opencode.SessionPages.Data.{
  TurnProjection, canonical_ingest, user_observation, SourceKey, TokenBinding, PageBudgets,
  PageState, MessageMetadata, NativeMessage, ClassifiedPart, BodyProjection,
  max_native_payload_query_bytes, max_observation_scan_rows, source_budget_failure,
  turn_metadata_too_large_failure, saturating_add, SourceWork, remaining,
}
use agent_runner_opencode.SessionPages.Loaded.{load_messages, message_metadata_page}
use agent_runner_opencode.SessionPages.Selection.{select_message_payloads}
use agent_runner_opencode.SessionPages.Rows.{Database}
use agent_runner_opencode.SessionPages.Turns.{
  Turn, PageResult, Projector, same_cursor, is_nil, message_matches_projection, omit_turn_body,
  projected_turn, page_result, response_fits,
}

-- What the loop does with a message: it passes over it, stops before it, or pushes its turn.
pub data Step : Type 0 where
  passes stops : Step
  pushes : Turn → Step

module _ (x : Projector) (binding : TokenBinding) (budgets : PageBudgets) (state : PageState)
    (request_id : String) (parts : Dict (List ClassifiedPart)) (bodies : Dict BodyProjection)
    (examined : ℕ) where
  abbrev pub settle : Bool → List Turn → Turn → Result Step
  settle true turns without = ok (pushes without)
  settle false [] without = err (turn_metadata_too_large_failure request_id)
  settle false (turn ∷ turns) without = ok stops

  abbrev pub admit_without : List Turn → NativeMessage → Turn → Result Step
  admit_without turns message without = do
    smaller ←
        page_result x binding state (some message.metadata.key) (turns ++ without ∷ []) examined
          false
    settle (response_fits x smaller budgets.max_response_bytes) turns without

  abbrev pub admit_as : Bool → List Turn → NativeMessage → Turn → Result Step
  admit_as true turns message turn = ok (pushes turn)
  admit_as false turns message turn = admit_without turns message (omit_turn_body turn)

  -- The turn in full if the response fits with it, else without its body, else not.
  unfoldable pub admit : List Turn → NativeMessage → Turn → Result Step
  admit turns message turn = do
    tentative ←
        page_result x binding state (some message.metadata.key) (turns ++ turn ∷ []) examined false
    admit_as (response_fits x tentative budgets.max_response_bytes) turns message turn

  abbrev pub admit_body : List Turn → NativeMessage → Option BodyProjection → Result Step
  admit_body turns message none = ok stops
  admit_body turns message (some body) = admit turns message (
      projected_turn x binding message (saturating_add state.next_sequence (length turns)) body
        parts)

  unfoldable pub consider : List Turn → NativeMessage → Result Step
  consider turns message =
      if not (message_matches_projection message binding.projection)
      then ok passes
      else if eqb (length turns) budgets.max_turns
      then ok stops
      else admit_body turns message (lookup message.metadata.key.id bodies)

  -- The loop over the messages, with the turns and the cursor so far.
  abbrev pub continue_with :
      (List Turn → Option SourceKey → Result (List Turn × Option SourceKey))
      → NativeMessage
      → List Turn
      → Option SourceKey
      → Step
      → Result (List Turn × Option SourceKey)
  continue_with rest message turns cursor passes = rest turns (some message.metadata.key)
  continue_with rest message turns cursor stops = ok (turns, cursor)
  continue_with rest message turns cursor (pushes turn) =
      rest (turns ++ turn ∷ []) (some message.metadata.key)

  unfoldable pub page_turns :
      List NativeMessage → List Turn → Option SourceKey → Result (List Turn × Option SourceKey)
  page_turns [] turns cursor = ok (turns, cursor)
  page_turns (message ∷ messages) turns cursor = do
    step ← consider turns message
    continue_with (λ t c. page_turns messages t c) message turns cursor step

-- `read_page`: one page of the messages after the cursor, up to the high watermark.
module _ (db : Database) (x : Projector) (binding : TokenBinding) (budgets : PageBudgets)
    (state : PageState) (request_id : String) where
  abbrev pub row_limit : TurnProjection → ℕ
  row_limit canonical_ingest = saturating_add budgets.max_turns 1
  row_limit user_observation = max_observation_scan_rows

  abbrev pub relevant : List NativeMessage → List NativeMessage
  relevant messages = filter (λ m. message_matches_projection m binding.projection) messages

  abbrev pub keys_of : List NativeMessage → List SourceKey
  keys_of messages = map (λ m. m.metadata.key) messages

  -- The end of the page: it must have moved, and it says so if it moved without a turn.
  unfoldable pub finish_page : List Turn → Option SourceKey → ℕ → Result PageResult
  finish_page turns cursor examined =
      refuse_if (is_nil turns && same_cursor cursor state.cursor) (source_budget_failure request_id)
      >> page_result x binding state cursor turns examined
          (is_nil turns && not (same_cursor cursor state.cursor))

  -- The rest of the page, of the messages, the parts and the bodies that were loaded.
  unfoldable pub page_of_bodies :
      List NativeMessage
      → Dict (List ClassifiedPart)
      → Dict BodyProjection × SourceWork
      → Result (PageResult × SourceWork)
  page_of_bodies messages parts bodies = do
    page ←
        page_turns x binding budgets state request_id parts bodies.0 bodies.1.examined messages []
          state.cursor
    result ← finish_page page.0 page.1 bodies.1.examined
    ok (result, bodies.1)

  unfoldable pub page_of_loaded : List NativeMessage × SourceWork → Result (PageResult × SourceWork)
  page_of_loaded loaded = do
    let wanted = keys_of (take budgets.max_turns (relevant loaded.0))
    parts ← x.classified_parts wanted loaded.1
    bodies ← x.project_bodies wanted parts.0 parts.1
    page_of_bodies loaded.0 parts.0 bodies

  unfoldable pub read_selected :
      List MessageMetadata → SourceWork → Result (PageResult × SourceWork)
  read_selected [] work = err (source_budget_failure request_id)
  read_selected (row ∷ rows) work = do
    loaded ← load_messages db request_id (row ∷ rows) work
    page_of_loaded loaded

  unfoldable pub read_rows : List MessageMetadata → SourceWork → Result (PageResult × SourceWork)
  read_rows [] work = do
    result ← page_result x binding state state.cursor [] work.examined false
    ok (result, work)
  read_rows (row ∷ rows) work =
      read_selected
        (select_message_payloads (row ∷ rows) (min (remaining work) max_native_payload_query_bytes)
          budgets.max_turns)
        work

  unfoldable pub read_to : Option SourceKey → SourceWork → Result (PageResult × SourceWork)
  read_to none work = do
    result ← page_result x binding state none [] work.examined false
    ok (result, work)
  read_to (some high_watermark) work = do
    metadata ←
        message_metadata_page db request_id state.cursor high_watermark
          (row_limit binding.projection)
    read_rows metadata work

  unfoldable pub read_page : SourceWork → Result (PageResult × SourceWork)
  read_page work = read_to state.high_watermark work

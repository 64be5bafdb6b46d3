-- ===== src/SessionPages/State.antt =====
-- src/session_turn_pages.rs: `page_state`, the guard of a snapshot, and `read_turns` from the validated
-- parameters on. The tokens' decoding, the clock of the source's files and its queries are arguments.
pub mod Continued
pub mod Resumed
use Prim.Native.Nat.{Ordering}
use Prim.Native.String.{compare}
use agent_runner_opencode.Prelude.{
  ltb, eqb, if◌then◌else◌, utf8, ℕ, String, Bool, true, false, ◌&&◌, ◌||◌, not, Option, none, some,
  List, [], ◌==◌,
}
use agent_runner_opencode.Json.{Value}
use agent_runner_opencode.Failure.{
  ProviderFailure, internal, Result, ok, ◌>>=◌, ◌>>◌, refuse_if, ok_or,
}
use agent_runner_opencode.SessionPages.Data.{
  TurnProjection, canonical_ingest, user_observation, StartMode, beginning, tail, continuation,
  ReadTurnsParams, SourceKey, TokenBinding, PageBudgets, SnapshotGuard, PageTokenPayload,
  ResumeTokenPayload, PageState, invalid_token_failure, snapshot_invalidated_failure, SourceWork,
  new_work,
}
use agent_runner_opencode.SessionPages.Rows.{Database, message_is_immutable}
use agent_runner_opencode.SessionPages.Loaded.{load_message_at_key, immutable_tail}
use agent_runner_opencode.SessionPages.Turns.{
  PageResult, Projector, is_nil, page_result, ensure_response_within_budget,
}
use agent_runner_opencode.SessionPages.Page.{read_page}

-- What a read observes of the source at one moment: the revision of its files, the frontiers of its
-- rows, and the rows past a guard's frontiers that lie inside its snapshot.
pub record Moment : Type 0 where
  pub source_revision : Result String
  pub frontiers : Result (ℕ × ℕ)
  pub changed_messages : SnapshotGuard → SourceKey → Result (List Value)
  pub changed_parts : SnapshotGuard → SourceKey → Result (List Value)

-- The moments of a read: when its state is made, the revision after the tail is found, and when the
-- page is done, where the schema is verified too.
pub record Observed : Type 0 where
  pub generation : String
  pub at_start : Moment
  pub revision_after : Result String
  pub at_end : Moment
  pub verify_schema_current : Result (Unit {0})

-- The decoders of the tokens, and the digest that names a snapshot.
pub record Authority : Type 0 where
  pub decode_page : List ℕ → Result PageTokenPayload
  pub decode_resume : List ℕ → Result ResumeTokenPayload
  pub snapshot_digest : TokenBinding → Option SourceKey → Option SourceKey → SnapshotGuard → String

abbrev pub same_projection : TurnProjection → TurnProjection → Bool
same_projection canonical_ingest canonical_ingest = true
same_projection user_observation user_observation = true
same_projection _ _ = false

abbrev pub same_text : Option String → Option String → Bool
same_text none none = true
same_text (some s) (some t) = s == t
same_text _ _ = false

unfoldable pub same_token_scope : TokenBinding → TokenBinding → Bool
same_token_scope left right =
    (left.provider_instance_id == right.provider_instance_id)
    && (left.settings_id == right.settings_id)
    && (left.settings_version == right.settings_version)
    && (left.session_id == right.session_id)
    && same_projection left.projection right.projection
    && same_text left.expected_delivery_nonce right.expected_delivery_nonce
    && (left.runtime_identity == right.runtime_identity)

abbrev pub same_budgets : PageBudgets → PageBudgets → Bool
same_budgets left right =
    eqb left.max_turns right.max_turns
    && eqb left.max_response_bytes right.max_response_bytes
    && eqb left.max_source_bytes right.max_source_bytes
    && eqb left.max_inline_body_bytes right.max_inline_body_bytes

-- `source_key_cmp(left, right).is_gt()`.
unfoldable pub is_after : SourceKey → SourceKey → Bool
is_after left right =
    ltb right.created left.created
    || (eqb left.created right.created
        && elim (compare left.id right.id) [ Ordering.gt ↦ true | _ ↦ false ])

-- Is the cursor beyond the tail, or is there no tail for it?
abbrev pub is_beyond : Option SourceKey → Option SourceKey → Bool
is_beyond none high = false
is_beyond (some cursor) none = true
is_beyond (some cursor) (some high) = is_after cursor high

-- The page state that a page token carries.
abbrev pub state_of : PageTokenPayload → PageState
state_of token = record {
  snapshot_id = token.snapshot_id;
  high_watermark = token.high_watermark;
  snapshot_guard = token.snapshot_guard;
  cursor = token.cursor;
  page_index = token.page_index;
  next_sequence = token.next_sequence;
  budgets = token.budgets;
}

abbrev pub is_tail : StartMode → Bool
is_tail tail = true
is_tail beginning = false
is_tail continuation = false

module _ (o : Observed) (a : Authority) (db : Database) (binding : TokenBinding)
    (budgets : PageBudgets) (request_id : String) where
  abbrev invalidated : ProviderFailure
  invalidated = snapshot_invalidated_failure request_id

  unfoldable pub require_generation : String → Result (Unit {0})
  require_generation expected = refuse_if (not (expected == o.generation)) invalidated

  -- The queries for rows past the guard's frontier that lie inside the snapshot.
  abbrev require_unchanged : Moment → SnapshotGuard → Option SourceKey → Result (Unit {0})
  require_unchanged moment guard none = ok tt
  require_unchanged moment guard (some high) = do
    messages ← moment.changed_messages guard high
    refuse_if (not (is_nil messages)) invalidated
    parts ← moment.changed_parts guard high
    refuse_if (not (is_nil parts)) invalidated

  abbrev require_appended : Moment → SnapshotGuard → Option SourceKey → ℕ × ℕ → Result (Unit {0})
  require_appended moment guard high (message_rowid, part_rowid) =
      refuse_if
        (ltb message_rowid guard.message_rowid
          || ltb part_rowid guard.part_rowid
          || (eqb message_rowid guard.message_rowid && eqb part_rowid guard.part_rowid))
        invalidated
      >> require_unchanged moment guard high

  abbrev require_guard_at : Bool → Moment → SnapshotGuard → Option SourceKey → Result (Unit {0})
  require_guard_at true moment guard high = ok tt
  require_guard_at false moment guard high = do
    frontiers ← moment.frontiers
    require_appended moment guard high frontiers

  unfoldable pub require_snapshot_guard :
      Moment → SnapshotGuard → Option SourceKey → Result (Unit {0})
  require_snapshot_guard moment guard high = do
    revision ← moment.source_revision
    require_guard_at (revision == guard.revision) moment guard high

  abbrev pub require_immutable : Option SourceKey → SourceWork → Result SourceWork
  require_immutable none work = ok work
  require_immutable (some high) work = do
    loaded ← load_message_at_key db request_id high work
    refuse_if (not (message_is_immutable loaded.0)) invalidated
    ok loaded.1

  -- A continuation: everything but the observation of the source comes from the token.
  unfoldable pub continued_state :
      Option String → PageTokenPayload → SourceWork → Result (PageState × SourceWork)
  continued_state snapshot_id token work = do
    refuse_if
        (not (same_token_scope token.binding binding)
          || not (same_budgets token.budgets budgets)
          || not (same_text snapshot_id (some token.snapshot_id)))
        (invalid_token_failure request_id)
    require_generation token.binding.source_generation
    require_snapshot_guard o.at_start token.snapshot_guard token.high_watermark
    after ← require_immutable token.high_watermark work
    ok (state_of token, after)

  unfoldable pub resumed_cursor : Option String → Result (Option SourceKey)
  resumed_cursor none = ok none
  resumed_cursor (some token) = do
    resume ← a.decode_resume (utf8 token)
    refuse_if (not (same_token_scope resume.binding binding)) (invalid_token_failure request_id)
    require_generation resume.binding.source_generation
    ok resume.position

  -- A new snapshot, up to the immutable tail that is found.
  unfoldable pub captured_state :
      Bool → Option SourceKey → SourceWork → Result (PageState × SourceWork)
  captured_state tail_anchor cursor work = do
    revision_before ← o.at_start.source_revision
    frontiers ← o.at_start.frontiers
    found ← immutable_tail db request_id work
    revision_after ← o.revision_after
    refuse_if (not (revision_before == revision_after)) invalidated
    refuse_if (is_beyond cursor found.0) invalidated
    let guard : SnapshotGuard = record {
      revision = revision_after;
      message_rowid = frontiers.0;
      part_rowid = frontiers.1;
    }
    ok (
      record {
        snapshot_id = a.snapshot_digest binding cursor found.0 guard;
        high_watermark = found.0;
        snapshot_guard = guard;
        cursor = if tail_anchor then found.0 else cursor;
        page_index = 0;
        next_sequence = 0;
        budgets = budgets;
      },
      found.1,
    )

  abbrev started_state : ReadTurnsParams → SourceWork → Result (PageState × SourceWork)
  started_state params work = do
    cursor ← resumed_cursor params.after_token
    captured_state (is_tail params.start_mode) cursor work

  -- The token of a continuation is there: its parameters were validated.
  abbrev pub page_state_at :
      StartMode → ReadTurnsParams → SourceWork → Result (PageState × SourceWork)
  page_state_at continuation params work = do
    page_token ← ok_or params.page_token (internal request_id "validated page token")
    token ← a.decode_page (utf8 page_token)
    continued_state params.snapshot_id token work
  page_state_at beginning params work = started_state params work
  page_state_at tail params work = started_state params work

  unfoldable pub page_state : ReadTurnsParams → SourceWork → Result (PageState × SourceWork)
  page_state params work = page_state_at params.start_mode params work

  -- The page of a state: a tail has no turns, and its cursor is already at the high watermark.
  abbrev pub page_at : Projector → Bool → PageState → SourceWork → Result (PageResult × SourceWork)
  page_at x true state work = do
    result ← page_result x binding state state.cursor [] work.examined false
    ok (result, work)
  page_at x false state work = read_page db x binding budgets state request_id work

  -- `read_turns`, from the parameters that were validated and the source that was opened on.
  unfoldable pub read_turns : Projector → ReadTurnsParams → Result PageResult
  read_turns x params = do
    made ← page_state params (new_work params.max_source_bytes)
    page ← page_at x (is_tail params.start_mode) made.0 made.1
    require_snapshot_guard o.at_end made.0.snapshot_guard made.0.high_watermark
    o.verify_schema_current
    ensure_response_within_budget x request_id page.0 params.max_response_bytes
    ok page.0

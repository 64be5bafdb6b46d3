-- ===== src/SessionPages/State/Resumed.antt =====
-- src/session_turn_pages.rs: a page of `read_page`, and the page that `read_turns` reads with its token.
use agent_runner_opencode.Prelude.{String, ◌≡◌, List}
use agent_runner_opencode.Failure.{ok}
use agent_runner_opencode.SessionPages.Data.{
  SourceKey, TokenBinding, PageBudgets, PageState, MessageMetadata, NativeMessage,
}
use agent_runner_opencode.SessionPages.Rows.{Database}
use agent_runner_opencode.SessionPages.Loaded.{message_metadata_page}
use agent_runner_opencode.SessionPages.Turns.{PageResult, Projector}
use agent_runner_opencode.SessionPages.Page.{row_limit}
use agent_runner_opencode.SessionPages.Reads.{Holds, TakenFrom}

module _ (db : Database) (x : Projector) (binding : TokenBinding) (budgets : PageBudgets)
    (request_id : String) where
  -- The rows that the query for a state's cursor answers, of which the first messages are taken, and
  -- what the page holds of these.
  abbrev pub Reads : PageState → SourceKey → List NativeMessage → PageResult → Type 0
  Reads state high taken result =
      (rows : List MessageMetadata) × (message_metadata_page db request_id state.cursor high
          (row_limit db x binding budgets state request_id binding.projection)
        ≡ ok rows)
      × TakenFrom db x binding budgets state request_id rows taken
      × Holds db x binding budgets state request_id taken result

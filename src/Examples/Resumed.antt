-- ===== src/Examples/Resumed.antt =====
-- Tests and an example of a page that is read with the token of another.
use agent_runner_opencode.Prelude.{eqb, if◌then◌else◌, utf8, ◌&&◌, some, []}
use agent_runner_opencode.Failure.{invalid_request, err, ok}
use agent_runner_opencode.SessionPages.Data.{continuation, ReadTurnsParams}
use agent_runner_opencode.SessionPages.Rows.{Database}
use agent_runner_opencode.SessionPages.Turns.{PageResult, Projector, same_cursor, page_payload}
use agent_runner_opencode.SessionPages.State.{Authority}
use agent_runner_opencode.Examples.Pages.{
  params, row_one, db, projector, binding, high, state, page,
}

-- The one token that is encoded is that of the cursor at the first message.
abbrev encoder : Projector
encoder = record projector {
  encode_page = λ payload.
      if same_cursor payload.cursor (some row_one.key) && eqb payload.next_sequence 1
      then ok (utf8 "t")
      else err (invalid_request "r" "none");
}

abbrev first_page : PageResult
first_page = record page { next_page_token = some (utf8 "t") }

abbrev decoder : Authority
decoder = record {
  decode_page = λ bytes. ok (page_payload encoder binding state (some row_one.key) 1);
  decode_resume = λ bytes. err (invalid_request "r" "none");
  snapshot_digest = λ binding cursor high guard. "snapshot";
}

abbrev next_params : ReadTurnsParams
next_params = record params {
  start_mode = continuation;
  snapshot_id = some "snapshot";
  page_token = some "t";
}

-- After the first message there is none.
abbrev db_after : Database
db_after = record db { metadata_rows = λ cursor high limit. ok [] }

abbrev second_page : PageResult
second_page = record first_page {
  page_index = 1;
  page_start_sequence = 1;
  turns = [];
  page_turn_count = 0;
}

-- ===== src/SessionPages/Reads.antt =====
-- src/session_turn_pages.rs: what a page that `read_page` answers holds, and how the next one goes on.
use mathlib.Core.List.{map-append, append_assoc}
use agent_runner_opencode.Prelude.{
  length, take, IsPrefix, Dict, ℕ, ◌≤◌, min, String, ◌≡◌, refl, sym, ap, ◌∙◌, subst, ◌⊎◌, inl, inr,
  Bool, true, false, ◌&&◌, not, Option, none, some, List, [], ◌∷◌, ◌++◌, map, arith,
}
use agent_runner_opencode.Failure.{ok, refuse_if, >>=-eq-ok, refuse_if-passed}
use agent_runner_opencode.SessionPages.Data.{
  SourceKey, TokenBinding, PageBudgets, PageState, MessageMetadata, NativeMessage, ClassifiedPart,
  BodyProjection, max_native_payload_query_bytes, source_budget_failure, saturating_add, SourceWork,
  remaining,
}
use agent_runner_opencode.SessionPages.Turns.{
  Turn, PageResult, Projector, same_cursor, is_nil, page_payload, resume_payload, result_at,
  page_result,
}
use agent_runner_opencode.Settings.Requests.Created.{ok_inj}
use agent_runner_opencode.SessionPages.Rows.{Database}
use agent_runner_opencode.SessionPages.Loaded.{
  load_messages, message_metadata_page, load_messages-metadata,
}
use agent_runner_opencode.SessionPages.Page.{
  page_turns, row_limit, relevant, keys_of, finish_page, page_of_bodies, page_of_loaded,
  read_selected, read_rows, read_to, read_page,
}
use agent_runner_opencode.SessionPages.Scan.{
  outline, last_key, outlines, matching_messages, Scanned, page_turns-Scanned,
}
use agent_runner_opencode.SessionPages.Selection.{
  select_message_payloads, select_message_payloads-bounds,
}

-- The tokens of a page: the end of the snapshot has the resume token of its high watermark, any other
-- page has the token that goes on from its cursor.
module _ (x : Projector) (binding : TokenBinding) (state : PageState) where
  abbrev pub Tokens : Option SourceKey → List Turn → PageResult → Type 0
  Tokens cursor turns result =
      ((result.snapshot_complete ≡ true)
        × (same_cursor cursor state.high_watermark ≡ true)
        × (result.next_page_token ≡ none)
        × (token : List ℕ) × (result.resume_token ≡ some token)
        × (x.encode_resume (resume_payload x binding state) ≡ ok token))
      ⊎ ((result.snapshot_complete ≡ false)
          × (same_cursor cursor state.high_watermark ≡ false)
          × (result.resume_token ≡ none)
          × (token : List ℕ) × (result.next_page_token ≡ some token)
          × (x.encode_page (
                page_payload x binding state cursor
                  (saturating_add state.next_sequence (length turns)))
              ≡ ok token))

  result_at-Tokens :
      (complete : Bool) (cursor : Option SourceKey) (turns : List Turn) (examined : ℕ)
      (scan_progress : Bool) (result : PageResult)
      → same_cursor cursor state.high_watermark ≡ complete
      → result_at x binding state complete cursor turns examined scan_progress
          (saturating_add state.next_sequence (length turns))
        ≡ ok result
      → (result.turns ≡ turns) × Tokens cursor turns result
  result_at-Tokens true cursor turns examined scan_progress result e h =
      let (token, a, h1) = >>=-eq-ok (x.encode_resume (resume_payload x binding state)) _ h in
      (
        ap (λ r. r.turns) (sym (ok_inj h1)),
        inl (
          ap (λ r. r.snapshot_complete) (sym (ok_inj h1)),
          e,
          ap (λ r. r.next_page_token) (sym (ok_inj h1)),
          token,
          ap (λ r. r.resume_token) (sym (ok_inj h1)),
          a,
        ),
      )
  result_at-Tokens false cursor turns examined scan_progress result e h =
      let (token, a, h1) =
        >>=-eq-ok
          (x.encode_page (
            page_payload x binding state cursor
              (saturating_add state.next_sequence (length turns))))
          _ h in
      (
        ap (λ r. r.turns) (sym (ok_inj h1)),
        inr (
          ap (λ r. r.snapshot_complete) (sym (ok_inj h1)),
          e,
          ap (λ r. r.resume_token) (sym (ok_inj h1)),
          token,
          ap (λ r. r.next_page_token) (sym (ok_inj h1)),
          a,
        ),
      )

  page_result-Tokens :
      (cursor : Option SourceKey) (turns : List Turn) (examined : ℕ) (scan_progress : Bool)
      (result : PageResult)
      → page_result x binding state cursor turns examined scan_progress ≡ ok result
      → (result.turns ≡ turns) × Tokens cursor turns result
  unfolding page_result
  page_result-Tokens cursor turns examined scan_progress result h =
      result_at-Tokens (same_cursor cursor state.high_watermark) cursor turns examined scan_progress
        result refl h

module _ (db : Database) (x : Projector) (binding : TokenBinding) (budgets : PageBudgets)
    (state : PageState) (request_id : String) where
  -- What a page holds: the turns of the first messages after the cursor, one for each that matches the
  -- projection, numbered from the state's number on; the tokens of its new cursor.
  abbrev pub Holds : List NativeMessage → PageResult → Type 0
  Holds taken result =
      (map outline result.turns
        ≡ outlines x binding state.next_sequence 0 (matching_messages x binding taken))
      × (length result.turns ≤ budgets.max_turns)
      × Tokens x binding state (last_key state.cursor taken) result.turns result

  -- The rows of the page, of which the first ones were taken: they are the messages of the turns.
  abbrev pub TakenFrom : List MessageMetadata → List NativeMessage → Type 0
  TakenFrom rows taken = IsPrefix (map (λ m. m.metadata) taken) rows

  -- A page that holds what was taken, and has moved if it has no turn.
  abbrev pub Moves : List NativeMessage → PageResult → Type 0
  Moves taken result =
      Holds taken result
      × ((is_nil result.turns && same_cursor (last_key state.cursor taken) state.cursor) ≡ false)

  finish_page-Moves :
      (parts : Dict (List ClassifiedPart)) (bodies : Dict BodyProjection) (examined : ℕ)
      (messages : List NativeMessage) (page : List Turn × Option SourceKey) (result : PageResult)
      → Scanned x binding budgets state request_id parts bodies examined messages [] state.cursor
          page
      → finish_page db x binding budgets state request_id page.0 page.1 examined ≡ ok result
      → (taken : List NativeMessage) × IsPrefix taken messages × Moves taken result
  unfolding finish_page
  finish_page-Moves parts bodies examined messages (turns, cursor) result
        (taken, new, p, t, o, k, b) h =
      let (done, moved, h1) =
        >>=-eq-ok
          (refuse_if (is_nil turns && same_cursor cursor state.cursor)
            (source_budget_failure request_id))
          _ h in
      let (same, tokens) =
        page_result-Tokens x binding state cursor turns examined
          (is_nil turns && not (same_cursor cursor state.cursor)) result h1 in
      (
        taken,
        p,
        (
          (
            ap (λ ts. map outline ts) (same ∙ t) ∙ o,
            subst (λ ts. length ts ≤ budgets.max_turns) (sym same) (b (omega arith)),
            subst (λ c. Tokens x binding state c result.turns result) k
                (subst (λ ts. Tokens x binding state cursor ts result) (sym same) tokens),
          ),
          subst (λ c. (is_nil result.turns && same_cursor c state.cursor) ≡ false) k
              (subst (λ ts. (is_nil ts && same_cursor cursor state.cursor) ≡ false) (sym same)
                (refuse_if-passed _ _ moved)),
        ),
      )

  map-IsPrefix :
      (taken messages : List NativeMessage)
      → IsPrefix taken messages
      → IsPrefix (map (λ m. m.metadata) taken) (map (λ m. m.metadata) messages)
  map-IsPrefix taken messages (rest, e) = (
    map (λ m. m.metadata) rest,
    ap (map (λ m. m.metadata)) e ∙ map-append (λ m. m.metadata) taken rest,
  )

  page_of_bodies-Moves :
      (messages : List NativeMessage) (parts : Dict (List ClassifiedPart))
      (bodies : Dict BodyProjection × SourceWork) (answer : PageResult × SourceWork)
      → page_of_bodies db x binding budgets state request_id messages parts bodies ≡ ok answer
      → (taken : List NativeMessage) × IsPrefix taken messages × Moves taken answer.0
  unfolding page_of_bodies
  page_of_bodies-Moves messages parts bodies answer h =
      let (page, a, h1) =
        >>=-eq-ok
          (page_turns x binding budgets state request_id parts bodies.0 bodies.1.examined messages
            [] state.cursor)
          _ h in
      let (result, b, h2) =
        >>=-eq-ok
          (finish_page db x binding budgets state request_id page.0 page.1 bodies.1.examined) _
          h1 in
      let (taken, p, m) =
        finish_page-Moves parts bodies.0 bodies.1.examined messages page result
          (page_turns-Scanned x binding budgets state request_id parts bodies.0 bodies.1.examined
            messages [] state.cursor page a)
          b in
      (taken, p, subst (λ r. Moves taken r) (ap (λ r. r.0) (ok_inj h2)) m)

  page_of_loaded-Moves :
      (loaded : List NativeMessage × SourceWork) (answer : PageResult × SourceWork)
      → page_of_loaded db x binding budgets state request_id loaded ≡ ok answer
      → (taken : List NativeMessage) × IsPrefix taken loaded.0 × Moves taken answer.0
  unfolding page_of_loaded
  page_of_loaded-Moves loaded answer h =
      let wanted : List SourceKey =
        keys_of db x binding budgets state request_id
          (take budgets.max_turns (relevant db x binding budgets state request_id loaded.0)) in
      let (parts, a, h1) = >>=-eq-ok (x.classified_parts wanted loaded.1) _ h in
      let (bodies, b, h2) = >>=-eq-ok (x.project_bodies wanted parts.0 parts.1) _ h1 in
      page_of_bodies-Moves loaded.0 parts.0 bodies answer h2

  read_selected-Moves :
      (selected : List MessageMetadata) (work : SourceWork) (answer : PageResult × SourceWork)
      → read_selected db x binding budgets state request_id selected work ≡ ok answer
      → (taken : List NativeMessage) × TakenFrom selected taken × Moves taken answer.0
  unfolding read_selected
  read_selected-Moves [] work answer h = cc
  read_selected-Moves (row ∷ rows) work answer h =
      let (loaded, a, h1) = >>=-eq-ok (load_messages db request_id (row ∷ rows) work) _ h in
      let (taken, p, m) = page_of_loaded-Moves loaded answer h1 in
      (
        taken,
        subst (IsPrefix (map (λ m. m.metadata) taken))
            (load_messages-metadata db request_id (row ∷ rows) work loaded a)
            (map-IsPrefix taken loaded.0 p),
        m,
      )

  prefix_trans :
      (xs ys zs : List MessageMetadata) → IsPrefix xs ys → IsPrefix ys zs → IsPrefix xs zs
  prefix_trans xs ys zs (rest, e) (more, k) =
      (rest ++ more, k ∙ ap (λ l. l ++ more) e ∙ append_assoc xs rest more)

  empty-Holds :
      (result : PageResult)
      → result.turns ≡ []
      → Tokens x binding state state.cursor [] result
      → Holds [] result
  empty-Holds result same tokens = (
    ap (λ ts. map outline ts) same,
    subst (λ ts. length ts ≤ budgets.max_turns) (sym same) (omega arith),
    subst (λ ts. Tokens x binding state state.cursor ts result) (sym same) tokens,
  )

  read_rows-Moves :
      (rows : List MessageMetadata) (work : SourceWork) (answer : PageResult × SourceWork)
      → read_rows db x binding budgets state request_id rows work ≡ ok answer
      → ((rows ≡ []) × Holds [] answer.0)
        ⊎ ((taken : List NativeMessage) × TakenFrom rows taken × Moves taken answer.0)
  unfolding read_rows
  read_rows-Moves [] work answer h =
      let (result, a, h1) =
        >>=-eq-ok (page_result x binding state state.cursor [] work.examined false) _ h in
      let (same, tokens) =
        page_result-Tokens x binding state state.cursor [] work.examined false result a in
      inl
        (refl, subst (λ r. Holds [] r) (ap (λ r. r.0) (ok_inj h1)) (empty-Holds result same tokens))
  read_rows-Moves (row ∷ rows) work answer h =
      let capacity : ℕ = min (remaining work) max_native_payload_query_bytes in
      let (taken, p, m) =
        read_selected-Moves (select_message_payloads (row ∷ rows) capacity budgets.max_turns) work
          answer h in
      inr (
        taken,
        prefix_trans (map (λ m. m.metadata) taken)
            (select_message_payloads (row ∷ rows) capacity budgets.max_turns) (row ∷ rows) p
            (select_message_payloads-bounds (row ∷ rows) capacity budgets.max_turns).0,
        m,
      )

  -- The page of a snapshot with a high watermark: of the rows that the query for its cursor answers, the messages of the
  -- first ones are taken; the turns are those of the messages taken that match the projection, each
  -- once, in their order and numbered from the state's number on, no more than asked for; the cursor
  -- is at the last message taken, and has moved where there is a row but no turn.
  pub read_page-Moves :
      (high : SourceKey) (work : SourceWork) (answer : PageResult × SourceWork)
      → state.high_watermark ≡ some high
      → read_page db x binding budgets state request_id work ≡ ok answer
      → (rows : List MessageMetadata) × (message_metadata_page db request_id state.cursor high
            (row_limit db x binding budgets state request_id binding.projection)
          ≡ ok rows)
        × (((rows ≡ []) × Holds [] answer.0)
            ⊎ ((taken : List NativeMessage) × TakenFrom rows taken × Moves taken answer.0))
  unfolding read_page read_to
  read_page-Moves high work answer e h =
      let (rows, a, h1) =
        >>=-eq-ok
          (message_metadata_page db request_id state.cursor high
            (row_limit db x binding budgets state request_id binding.projection))
          _ (subst (λ to. read_to db x binding budgets state request_id to work ≡ ok answer) e h) in
      (rows, a, read_rows-Moves rows work answer h1)

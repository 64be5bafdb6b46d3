-- ===== src/SessionPages/State/Continued.antt =====
-- src/session_turn_pages.rs: what a continuation must agree with, and how the pages of a snapshot go on.
use mathlib.Core.List.{map-append}
use agent_runner_opencode.Prelude.{
  Bool-cases, length, eq_of, ℕ, suc, ◌+◌, String, ◌≡◌, refl, sym, ap, ◌∙◌, inl, inr, true, ◌||◌,
  not, Option, none, some, List, [], ◌∷◌, ◌++◌, map, arith,
}
use agent_runner_opencode.Failure.{ok, refuse_if, >>=-eq-ok, refuse_if-passed}
use agent_runner_opencode.SessionPages.Data.{
  TurnProjection, canonical_ingest, user_observation, SourceKey, TokenBinding, PageBudgets,
  PageTokenPayload, PageState, NativeMessage, invalid_token_failure, saturating_add, SourceWork,
}
use agent_runner_opencode.SessionPages.Rows.{Database}
use agent_runner_opencode.SessionPages.State.{
  Observed, Authority, same_projection, same_text, same_token_scope, same_budgets, state_of,
  require_generation, require_snapshot_guard, require_immutable, continued_state,
}
use agent_runner_opencode.Settings.Requests.Created.{ok_inj}
use agent_runner_opencode.SessionPages.Turns.{
  Turn, PageResult, Projector, message_matches_projection, page_payload,
}
use agent_runner_opencode.SessionPages.Scan.{
  outline, last_key, outline_of, outlines, matching_messages,
}
use agent_runner_opencode.SessionPages.Reads.{Holds}

same_text-eq : (s t : Option String) → same_text s t ≡ true → s ≡ t
same_text-eq none none h = refl
same_text-eq (some s) (some t) h = ap some (eq_of s t h)
same_text-eq none (some t) h = cc
same_text-eq (some s) none h = cc

same_projection-eq : (s t : TurnProjection) → same_projection s t ≡ true → s ≡ t
same_projection-eq canonical_ingest canonical_ingest h = refl
same_projection-eq user_observation user_observation h = refl
same_projection-eq canonical_ingest user_observation h = cc
same_projection-eq user_observation canonical_ingest h = cc

-- Two bindings of one scope: they differ in the source's generation and the session's age at most.
abbrev pub SameScope : TokenBinding → TokenBinding → Type 0
SameScope left right =
    (left.provider_instance_id ≡ right.provider_instance_id)
    × (left.settings_id ≡ right.settings_id)
    × (left.settings_version ≡ right.settings_version)
    × (left.session_id ≡ right.session_id)
    × (left.projection ≡ right.projection)
    × (left.expected_delivery_nonce ≡ right.expected_delivery_nonce)
    × (left.runtime_identity ≡ right.runtime_identity)

same_token_scope-SameScope :
    (left right : TokenBinding) → same_token_scope left right ≡ true → SameScope left right
unfolding same_token_scope
same_token_scope-SameScope left right h = (
  eq_of left.provider_instance_id right.provider_instance_id (ground arith),
  eq_of left.settings_id right.settings_id (ground arith),
  eq_of left.settings_version right.settings_version (ground arith),
  eq_of left.session_id right.session_id (ground arith),
  same_projection-eq left.projection right.projection (ground arith),
  same_text-eq left.expected_delivery_nonce right.expected_delivery_nonce (ground arith),
  eq_of left.runtime_identity right.runtime_identity (ground arith),
)

module _ (o : Observed) (a : Authority) (db : Database) (binding : TokenBinding)
    (budgets : PageBudgets) (request_id : String) where
  -- A continuation that is accepted has a token of the request's scope, budgets, snapshot and source
  -- generation, and goes on exactly where the token says.
  pub continued_state-SameScope :
      (snapshot_id : Option String) (token : PageTokenPayload) (work : SourceWork)
      (made : PageState × SourceWork)
      → continued_state o a db binding budgets request_id snapshot_id token work ≡ ok made
      → SameScope token.binding binding
        × (same_budgets token.budgets budgets ≡ true)
        × (snapshot_id ≡ some token.snapshot_id)
        × (token.binding.source_generation ≡ o.generation)
        × (made.0 ≡ state_of token)
  unfolding continued_state require_generation
  continued_state-SameScope snapshot_id token work made h =
      let (_u, scope, h1) =
        >>=-eq-ok
          (refuse_if
            (not (same_token_scope token.binding binding)
              || not (same_budgets token.budgets budgets)
              || not (same_text snapshot_id (some token.snapshot_id)))
            (invalid_token_failure request_id))
          _ h in
      let (_v, generation, h2) =
        >>=-eq-ok
          (require_generation o a db binding budgets request_id token.binding.source_generation) _
          h1 in
      let (_w, guard, h3) =
        >>=-eq-ok
          (require_snapshot_guard o a db binding budgets request_id o.at_start token.snapshot_guard
            token.high_watermark)
          _ h2 in
      let (after, immutable, h4) =
        >>=-eq-ok (require_immutable o a db binding budgets request_id token.high_watermark work) _
          h3 in
      let refused = refuse_if-passed _ _ scope in
      (
        same_token_scope-SameScope token.binding binding (ground (arith, refused)),
        ground (arith, refused),
        same_text-eq snapshot_id (some token.snapshot_id) (ground (arith, refused)),
        eq_of token.binding.source_generation o.generation
            (ground (arith, refuse_if-passed _ _ generation)),
        ap (λ m. m.0) (sym (ok_inj h4)),
      )

-- Two pages that follow each other: the second starts where the token of the first says. Together they
-- number the turns of all the messages they take, as one page would.
module _ (x : Projector) (binding : TokenBinding) where
  outlines-append :
      (start n : ℕ) (first second : List NativeMessage)
      → outlines x binding start n (first ++ second)
        ≡ outlines x binding start n first ++ outlines x binding start (n + length first) second
  outlines-append start n [] second = ap (λ k. outlines x binding start k second) (omega arith)
  outlines-append start n (message ∷ first) second =
      ap (λ os. outline_of x binding message (saturating_add start n) ∷ os)
        (outlines-append start (suc n) first second
          ∙ ap (λ k. outlines x binding start (suc n) first ++ outlines x binding start k second)
              (omega arith))

  outlines-shift :
      (start n k : ℕ) (messages : List NativeMessage)
      → outlines x binding (saturating_add start n) k messages
        ≡ outlines x binding start (n + k) messages
  outlines-shift start n k [] = refl
  outlines-shift start n k (message ∷ messages) =
      ap
        (λ s.
          outline_of x binding message s
          ∷ outlines x binding (saturating_add start n) (suc k) messages)
        (omega arith)
      ∙ ap (λ os. outline_of x binding message (saturating_add start (n + k)) ∷ os)
          (outlines-shift start n (suc k) messages
            ∙ ap (λ m. outlines x binding start m messages) (omega arith))

  matching-append :
      (first second : List NativeMessage)
      → matching_messages x binding (first ++ second)
        ≡ matching_messages x binding first ++ matching_messages x binding second
  matching-append [] second = refl
  matching-append (message ∷ first) second =
      elim (Bool-cases (message_matches_projection message binding.projection)) [
        | inl m ↦ rw m (ap (λ ms. message ∷ ms) (matching-append first second))
        | inr m ↦ rw m (matching-append first second)
      ]

  length-outlines :
      (start n : ℕ) (messages : List NativeMessage)
      → length (outlines x binding start n messages) ≡ length messages
  length-outlines start n [] = refl
  length-outlines start n (message ∷ messages) = ap suc (length-outlines start (suc n) messages)

last_key-append :
    (cursor : Option SourceKey) (first second : List NativeMessage)
    → last_key cursor (first ++ second) ≡ last_key (last_key cursor first) second
last_key-append cursor [] second = refl
last_key-append cursor (message ∷ first) second =
    last_key-append (some message.metadata.key) first second

length-map-outline : (turns : List Turn) → length (map outline turns) ≡ length turns
length-map-outline [] = refl
length-map-outline (turn ∷ turns) = ap suc (length-map-outline turns)

-- The state in which the page after one is read: it is what the token of that page carries.
abbrev pub next_state :
    Projector → TokenBinding → PageState → List NativeMessage → PageResult → PageState
next_state x binding state taken result = state_of (
    page_payload x binding state (last_key state.cursor taken)
      (saturating_add state.next_sequence (length result.turns)))

module _ (db : Database) (x : Projector) (binding : TokenBinding) (budgets : PageBudgets)
    (request_id : String) where
  -- What a page holds and what the page of the next state holds are what one page that takes all of
  -- these messages would hold.
  pub Holds-continues :
      (state : PageState) (taken later : List NativeMessage) (result next : PageResult)
      → Holds db x binding budgets state request_id taken result
      → Holds db x binding budgets (next_state x binding state taken result) request_id later next
      → (map outline (result.turns ++ next.turns)
          ≡ outlines x binding state.next_sequence 0 (matching_messages x binding (taken ++ later)))
        × (last_key (next_state x binding state taken result).cursor later
            ≡ last_key state.cursor (taken ++ later))
  Holds-continues state taken later result next (first, _, _) (second, _, _) = (
    map-append outline result.turns next.turns
        ∙ ap (λ os. os ++ map outline next.turns) first
        ∙ ap
            (λ os.
              outlines x binding state.next_sequence 0 (matching_messages x binding taken) ++ os)
            (second
              ∙ outlines-shift x binding state.next_sequence (length result.turns) 0
                  (matching_messages x binding later)
              ∙ ap
                  (λ n.
                    outlines x binding state.next_sequence n (matching_messages x binding later))
                  numbers)
        ∙ sym (
            outlines-append x binding state.next_sequence 0 (matching_messages x binding taken)
              (matching_messages x binding later))
        ∙ ap (outlines x binding state.next_sequence 0)
            (sym (matching-append x binding taken later)),
    sym (last_key-append state.cursor taken later),
  )
    where
      numbers : length result.turns + 0 ≡ 0 + length (matching_messages x binding taken)
      numbers = omega (
        arith,
        length-map-outline result.turns,
        ap length first,
        length-outlines x binding state.next_sequence 0 (matching_messages x binding taken),
      )

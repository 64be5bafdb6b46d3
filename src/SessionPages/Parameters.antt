-- ===== src/SessionPages/Parameters.antt =====
-- src/session_turn_pages.rs: `validate_params`, and what it accepts. The name of the read protocol is
-- the contract crate's.
use mathlib.Core.Bool.{true≢false}
use agent_runner_opencode.Prelude.{
  ltb, leb, eqb, all, codes, byte_length, is_blank, ℕ, ◌≤◌, ◌<◌, String, ◌≡◌, refl, sym, Bool, true,
  false, ◌&&◌, ◌||◌, not, Option, none, some, arith, ◌==◌,
}
use agent_runner_opencode.Failure.{unsupported, Result, ok, ◌>>◌, refuse_if, chain-passed}
use agent_runner_opencode.SessionPages.Data.{
  TurnProjection, canonical_ingest, user_observation, StartMode, beginning, tail, continuation,
  ReadTurnsParams, max_turn_count, min_response_bytes, max_response_size, max_source_size,
  max_inline_body_size, max_id_bytes, max_token_bytes, invalid_params_failure,
}

abbrev pub is_id_invalid : String → Bool
is_id_invalid value = is_blank value || ltb max_id_bytes (byte_length value)

abbrev pub is_outside : ℕ → ℕ → ℕ → Bool
is_outside low high n = ltb n low || ltb high n

abbrev pub is_lowercase_hex : ℕ → Bool
is_lowercase_hex c = (leb b'0' c && leb c b'9') || (leb b'a' c && leb c b'f')

unfoldable pub is_nonce : String → Bool
is_nonce nonce = eqb (byte_length nonce) 64 && all is_lowercase_hex (codes nonce)

abbrev pub nonce_is_invalid : TurnProjection → Option String → Bool
nonce_is_invalid user_observation (some nonce) = not (is_nonce nonce)
nonce_is_invalid user_observation none = true
nonce_is_invalid canonical_ingest none = false
nonce_is_invalid canonical_ingest (some nonce) = true

abbrev pub token_is_invalid : Option String → Bool
token_is_invalid none = false
token_is_invalid (some token) = eqb (byte_length token) 0 || ltb max_token_bytes (byte_length token)

-- The match on the start mode and the tokens that come with it.
abbrev pub is_mode_allowed : StartMode → Option String → Option String → Option String → Bool
is_mode_allowed beginning after none none = true
is_mode_allowed tail none none none = true
is_mode_allowed continuation none (some snapshot) (some page) = true
is_mode_allowed _ _ _ _ = false

abbrev pub is_tail_of_ingest : StartMode → TurnProjection → Bool
is_tail_of_ingest tail canonical_ingest = true
is_tail_of_ingest _ _ = false

unfoldable pub validate_params : String → ReadTurnsParams → String → Result (Unit {0})
validate_params protocol params request_id =
    let e = invalid_params_failure request_id in
    refuse_if (not (params.read_protocol == protocol))
      (unsupported request_id "unsupported_session_read_protocol")
    >> refuse_if (is_id_invalid params.settings_id) e
    >> refuse_if (is_id_invalid params.session_id) e
    >> refuse_if (is_outside 1 max_turn_count params.max_turns) e
    >> refuse_if (is_outside min_response_bytes max_response_size params.max_response_bytes) e
    >> refuse_if (is_outside 1 max_source_size params.max_source_bytes) e
    >> refuse_if (ltb max_inline_body_size params.max_inline_body_bytes) e
    >> refuse_if (nonce_is_invalid params.turn_projection params.expected_delivery_nonce) e
    >> refuse_if (token_is_invalid params.after_token) e
    >> refuse_if (token_is_invalid params.snapshot_id) e
    >> refuse_if (token_is_invalid params.page_token) e
    >> refuse_if
        (not (
          is_mode_allowed params.start_mode params.after_token params.snapshot_id
            params.page_token))
        e
    >> refuse_if (is_tail_of_ingest params.start_mode params.turn_projection) e

-- The bounds of accepted parameters, and the tokens that their start mode goes with.
abbrev pub IsToken : Option String → Type 0
IsToken none = Unit
IsToken (some token) = (0 < byte_length token) × (byte_length token ≤ max_token_bytes)

abbrev pub IsNonce : TurnProjection → Option String → Type 0
IsNonce user_observation nonce = (n : String) × (nonce ≡ some n) × (is_nonce n ≡ true)
IsNonce canonical_ingest nonce = nonce ≡ none

abbrev pub IsStart :
    StartMode → TurnProjection → Option String → Option String → Option String → Type 0
IsStart beginning projection after snapshot page = (snapshot ≡ none) × (page ≡ none)
IsStart tail projection after snapshot page =
    (projection ≡ user_observation) × (after ≡ none) × (snapshot ≡ none) × (page ≡ none)
IsStart continuation projection after snapshot page =
    (after ≡ none) × ((s : String) × (snapshot ≡ some s)) × ((p : String) × (page ≡ some p))

abbrev pub InBudgets : ReadTurnsParams → Type 0
InBudgets params =
    (1 ≤ params.max_turns)
    × (params.max_turns ≤ 256)
    × (1024 ≤ params.max_response_bytes)
    × (params.max_response_bytes ≤ 524288)
    × (1 ≤ params.max_source_bytes)
    × (params.max_source_bytes ≤ 8388608)
    × (params.max_inline_body_bytes ≤ 65536)
    × (is_blank params.settings_id ≡ false)
    × (byte_length params.settings_id ≤ 1024)
    × (is_blank params.session_id ≡ false)
    × (byte_length params.session_id ≤ 1024)

token_is_invalid-IsToken : (token : Option String) → token_is_invalid token ≡ false → IsToken token
token_is_invalid-IsToken none h = tt
token_is_invalid-IsToken (some token) h = ground arith

nonce_is_invalid-IsNonce :
    (projection : TurnProjection) (nonce : Option String)
    → nonce_is_invalid projection nonce ≡ false
    → IsNonce projection nonce
nonce_is_invalid-IsNonce user_observation (some nonce) h = (nonce, refl, ground arith)
nonce_is_invalid-IsNonce user_observation none h = absurd (true≢false h)
nonce_is_invalid-IsNonce canonical_ingest none h = refl
nonce_is_invalid-IsNonce canonical_ingest (some nonce) h = absurd (true≢false h)

is_mode_allowed-IsStart :
    (mode : StartMode) (projection : TurnProjection) (after snapshot page : Option String)
    → is_mode_allowed mode after snapshot page ≡ true
    → is_tail_of_ingest mode projection ≡ false
    → IsStart mode projection after snapshot page
is_mode_allowed-IsStart beginning projection after none none h k = (refl, refl)
is_mode_allowed-IsStart beginning projection after (some s) page h k = absurd (true≢false (sym h))
is_mode_allowed-IsStart beginning projection after none (some p) h k = absurd (true≢false (sym h))
is_mode_allowed-IsStart tail user_observation none none none h k = (refl, refl, refl, refl)
is_mode_allowed-IsStart tail canonical_ingest after snapshot page h k = absurd (true≢false k)
is_mode_allowed-IsStart tail user_observation (some a) snapshot page h k =
    absurd (true≢false (sym h))
is_mode_allowed-IsStart tail user_observation none (some s) page h k = absurd (true≢false (sym h))
is_mode_allowed-IsStart tail user_observation none none (some p) h k = absurd (true≢false (sym h))
is_mode_allowed-IsStart continuation projection none (some s) (some p) h k =
    (refl, (s, refl), (p, refl))
is_mode_allowed-IsStart continuation projection (some a) snapshot page h k =
    absurd (true≢false (sym h))
is_mode_allowed-IsStart continuation projection none none page h k = absurd (true≢false (sym h))
is_mode_allowed-IsStart continuation projection none (some s) none h k = absurd (true≢false (sym h))

-- Every test of accepted parameters has passed.
module _ (protocol : String) (params : ReadTurnsParams) (request_id : String) where
  validate_params-passes :
      validate_params protocol params request_id ≡ ok tt
      → (is_id_invalid params.settings_id ≡ false)
        × (is_id_invalid params.session_id ≡ false)
        × (is_outside 1 max_turn_count params.max_turns ≡ false)
        × (is_outside min_response_bytes max_response_size params.max_response_bytes ≡ false)
        × (is_outside 1 max_source_size params.max_source_bytes ≡ false)
        × (ltb max_inline_body_size params.max_inline_body_bytes ≡ false)
        × (nonce_is_invalid params.turn_projection params.expected_delivery_nonce ≡ false)
        × (token_is_invalid params.after_token ≡ false)
        × (token_is_invalid params.snapshot_id ≡ false)
        × (token_is_invalid params.page_token ≡ false)
        × (is_mode_allowed params.start_mode params.after_token params.snapshot_id params.page_token
            ≡ true)
        × (is_tail_of_ingest params.start_mode params.turn_projection ≡ false)
  unfolding validate_params
  validate_params-passes h =
      let (h12, k) = chain-passed _ _ _ h in
      let (h11, m) = chain-passed _ _ _ h12 in
      let (h10, p) = chain-passed _ _ _ h11 in
      let (h9, s) = chain-passed _ _ _ h10 in
      let (h8, t) = chain-passed _ _ _ h9 in
      let (h7, n) = chain-passed _ _ _ h8 in
      let (h6, f) = chain-passed _ _ _ h7 in
      let (h5, e) = chain-passed _ _ _ h6 in
      let (h4, d) = chain-passed _ _ _ h5 in
      let (h3, c) = chain-passed _ _ _ h4 in
      let (h2, b) = chain-passed _ _ _ h3 in
      let (h1, a) = chain-passed _ _ _ h2 in (a, b, c, d, e, f, n, t, s, p, ground (arith, m), k)

  -- Accepted parameters are within every bound, with identifiers that are not blank; their nonce, their tokens and their start mode fit
  -- together, so that a continuation has the page token it is decoded from.
  pub validate_params-InBudgets :
      validate_params protocol params request_id ≡ ok tt
      → InBudgets params
        × IsNonce params.turn_projection params.expected_delivery_nonce
        × IsToken params.after_token
        × IsToken params.snapshot_id
        × IsToken params.page_token
        × IsStart params.start_mode params.turn_projection params.after_token params.snapshot_id
            params.page_token
  validate_params-InBudgets h =
      let (a, b, c, d, e, f, n, t, s, p, m, k) = validate_params-passes h in
      (
        ground (arith, a, b, c, d, e, f),
        nonce_is_invalid-IsNonce params.turn_projection params.expected_delivery_nonce n,
        token_is_invalid-IsToken params.after_token t,
        token_is_invalid-IsToken params.snapshot_id s,
        token_is_invalid-IsToken params.page_token p,
        is_mode_allowed-IsStart params.start_mode params.turn_projection params.after_token
            params.snapshot_id params.page_token m k,
      )

-- ===== src/SessionPages/Tokens.antt =====
-- src/session_turn_pages.rs: the paging tokens, as bytes: `encode_token`, `decode_token` and the digest
-- in hexadecimal. The JSON crate's and the MAC crate's functions are arguments.
pub mod RoundTrip
use Prim.Native.Nat.{bit_or}
use agent_runner_opencode.Prelude.{
  ltb, leb, eqb, if◌then◌else◌, length, all, codes, begins, same_codes, split_codes, ℕ, ◌+◌, ◌-◌,
  ◌*◌, ◌/◌, ◌%◌, String, Bool, false, ◌||◌, not, Option, none, some, List, [], ◌∷◌, ◌++◌, ◌==◌,
}
use agent_runner_opencode.Json.{Value, get, as_str, as_u64}
use agent_runner_opencode.Failure.{internal, Result, ok, ◌>>=◌, ◌>>◌, refuse_if, ok_or}
use agent_runner_opencode.Encoding.Base64.{Decoded, encode_base64, decode_base64}
use agent_runner_opencode.SessionPages.Data.{
  max_token_bytes, invalid_token_failure, snapshot_invalidated_failure,
}
use agent_runner_opencode.SessionPages.Parameters.{is_lowercase_hex}

-- The key and the runtime identity are in `mac`, whose answer has 32 bytes.
pub record Codec (Payload : Type 0) : Type 0 where
  pub to_vec : Payload → Option (List ℕ)
  pub from_slice : List ℕ → Option Value
  pub from_value : Value → Option Payload
  pub mac : List ℕ → List ℕ
  pub verify_slice : List ℕ → List ℕ → Bool

abbrev pub dot : ℕ
dot = b'.'

-- `format!("{byte:02x}")` of every byte.
abbrev pub hex_digit : ℕ → ℕ
hex_digit n = if ltb n 10 then n + b'0' else n - 10 + b'a'

unfoldable pub hex_bytes : List ℕ → List ℕ
hex_bytes [] = []
hex_bytes (b ∷ bytes) = hex_digit (b / 16) ∷ hex_digit (b % 16) ∷ hex_bytes bytes

-- `to_digit(16)`, of a lowercase digit.
abbrev pub to_digit : ℕ → ℕ
to_digit c = if leb c b'9' then c - b'0' else c - b'a' + 10

unfoldable pub hex_values : List ℕ → List ℕ
hex_values [] = []
hex_values (c ∷ []) = []
hex_values (high ∷ low ∷ rest) = bit_or (to_digit high * 16) (to_digit low) ∷ hex_values rest

unfoldable pub decode_hex_digest : List ℕ → Option (List ℕ)
decode_hex_digest encoded =
    if not (eqb (length encoded) 64) || not (all is_lowercase_hex encoded)
    then none
    else some (hex_values encoded)

abbrev pub fields_of : List (List ℕ) → Option (List ℕ × List ℕ × List ℕ)
fields_of (prefix ∷ payload ∷ digest ∷ []) = some (prefix, payload, digest)
fields_of _ = none

abbrev pub decoded_bytes : Decoded (List ℕ) → Option (List ℕ)
decoded_bytes (Decoded.ok bytes) = some bytes
decoded_bytes (Decoded.err failure) = none

abbrev pub is_number : Option ℕ → ℕ → Bool
is_number none n = false
is_number (some m) n = eqb m n

abbrev pub is_text : Option String → String → Bool
is_text none s = false
is_text (some t) s = t == s

module _ {Payload : Type 0} (codec : Codec Payload) where
  abbrev pub token_digest : List ℕ → List ℕ
  token_digest payload = hex_bytes (codec.mac payload)

  abbrev pub verified : List ℕ → Option (List ℕ) → Bool
  verified payload none = false
  verified payload (some digest) = codec.verify_slice payload digest

  unfoldable pub verify_token_digest : List ℕ → List ℕ → Bool
  verify_token_digest payload encoded = verified payload (decode_hex_digest encoded)

  abbrev pub token_text : List ℕ → List ℕ
  token_text payload = codes "stp2" ++ dot ∷ (encode_base64 payload ++ dot ∷ token_digest payload)

  unfoldable pub encode_token : Payload → String → Result (List ℕ)
  encode_token value request_id = do
    payload ← ok_or (codec.to_vec value) (internal request_id "session_token_encode_failed")
    refuse_if (ltb max_token_bytes (length (token_text payload)))
        (internal request_id "session_token_capacity_exceeded")
    ok (token_text payload)

  unfoldable pub decode_token : List ℕ → String → String → Result Payload
  decode_token token expected_kind request_id = do
    let e = invalid_token_failure request_id
    refuse_if (ltb max_token_bytes (length token)) e
    refuse_if (begins token (codes "stp1.")) (snapshot_invalidated_failure request_id)
    fields ← ok_or (fields_of (split_codes dot token [])) e
    refuse_if (not (same_codes fields.0 (codes "stp2")) || not (eqb (length fields.2) 64)) e
    payload ← ok_or (decoded_bytes (decode_base64 fields.1)) e
    refuse_if (not (same_codes (encode_base64 payload) fields.1)) e
    refuse_if (not (verify_token_digest payload fields.2)) e
    value ← ok_or (codec.from_slice payload) e
    refuse_if
        (not (is_number (as_u64 (get value "v")) 2)
          || not (is_text (as_str (get value "k")) expected_kind))
        e
    ok_or (codec.from_value value) e

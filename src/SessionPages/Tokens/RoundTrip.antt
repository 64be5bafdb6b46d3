-- ===== src/SessionPages/Tokens/RoundTrip.antt =====
-- src/session_turn_pages.rs: a token that was encoded is decoded to what it carries.
use Prim.Native.Nat.{bit_or}
use mathlib.Core.List.{append-nil, append_assoc}
use agent_runner_opencode.Prelude.{
  ltb, eqb, Bool-cases, length, all, All, all-append, codes, same_codes, split_codes, ℕ, ◌*◌, ◌/◌,
  ◌%◌, ◌<◌, String, ◌≡◌, refl, sym, ap, ◌∙◌, subst, inl, inr, Bool, true, false, not, some, List,
  [], ◌∷◌, ◌++◌, arith, eq_refl,
}
use agent_runner_opencode.Encoding.Base64.{
  table, byte_at, third_base64_char, fourth_base64_char, push_base64_chunk, encode_base64,
}
use agent_runner_opencode.Encoding.Base64.RoundTrip.{IsByte, decode-encode_base64}
use agent_runner_opencode.SessionPages.Parameters.{is_lowercase_hex}
use agent_runner_opencode.SessionPages.Tokens.{
  Codec, dot, hex_digit, hex_bytes, to_digit, hex_values, decode_hex_digest, token_digest,
  verify_token_digest, token_text, encode_token, decode_token,
}
use agent_runner_opencode.Json.{Value, get, as_str, as_u64}
use agent_runner_opencode.Encoding.Base64.Bits.{or-shift_4}
use agent_runner_opencode.Failure.{Result}
use agent_runner_opencode.SessionPages.Data.{max_token_bytes}

-- No part of a token has a dot in it.
abbrev is_undotted : List ℕ → Bool
is_undotted xs = all (λ c. not (eqb c dot)) xs

undotted-cons :
    (c : ℕ) (xs : List ℕ)
    → is_undotted (c ∷ xs) ≡ true
    → (eqb c dot ≡ false) × (is_undotted xs ≡ true)
undotted-cons c xs h = ground arith

split-part :
    (xs rest part : List ℕ)
    → is_undotted xs ≡ true
    → split_codes dot (xs ++ dot ∷ rest) part ≡ (part ++ xs) ∷ split_codes dot rest []
split-part [] rest part h = ap (λ p. p ∷ split_codes dot rest []) (sym (append-nil part))
split-part (c ∷ xs) rest part h =
    let (first, later) = undotted-cons c xs h in
    rw first (
      split-part xs rest (part ++ c ∷ []) later
      ∙ ap (λ p. p ∷ split_codes dot rest []) (append_assoc part (c ∷ []) xs))

split-last :
    (xs part : List ℕ) → is_undotted xs ≡ true → split_codes dot xs part ≡ (part ++ xs) ∷ []
split-last [] part h = ap (λ p. p ∷ []) (sym (append-nil part))
split-last (c ∷ xs) part h =
    let (first, later) = undotted-cons c xs h in
    rw first
      (split-last xs (part ++ c ∷ []) later ∙ ap (λ p. p ∷ []) (append_assoc part (c ∷ []) xs))

table-undotted : (i : ℕ) → eqb (table i) dot ≡ false
table-undotted i = ground arith

third-undotted : (chunk : List ℕ) (b1 b2 : ℕ) → eqb (third_base64_char chunk b1 b2) dot ≡ false
unfolding third_base64_char
third-undotted chunk b1 b2 = elim (Bool-cases (ltb 1 (length chunk))) [
  | inl e ↦ rw e (table-undotted (bit_or (b1 % 16 * 4) (b2 / 64)))
  | inr e ↦ rw e refl
]

fourth-undotted : (chunk : List ℕ) (b2 : ℕ) → eqb (fourth_base64_char chunk b2) dot ≡ false
unfolding fourth_base64_char
fourth-undotted chunk b2 = elim (Bool-cases (ltb 2 (length chunk))) [
  | inl e ↦ rw e (table-undotted (b2 % 64))
  | inr e ↦ rw e refl
]

chunk-undotted : (chunk : List ℕ) → is_undotted (push_base64_chunk chunk) ≡ true
unfolding push_base64_chunk
chunk-undotted chunk =
    let b0 : ℕ = byte_at chunk 0 in
    let b1 : ℕ = byte_at chunk 1 in
    let b2 : ℕ = byte_at chunk 2 in
    rw (table-undotted (b0 / 4)) (
      rw (table-undotted (bit_or (b0 % 4 * 16) (b1 / 16)))
        (rw (third-undotted chunk b1 b2) (rw (fourth-undotted chunk b2) refl)))

encode-undotted : (bytes : List ℕ) → is_undotted (encode_base64 bytes) ≡ true
unfolding encode_base64
encode-undotted [] = refl
encode-undotted (a ∷ []) = chunk-undotted (a ∷ [])
encode-undotted (a ∷ b ∷ []) = chunk-undotted (a ∷ b ∷ [])
encode-undotted (a ∷ b ∷ c ∷ rest) =
    all-append (λ c. not (eqb c dot)) (push_base64_chunk (a ∷ b ∷ c ∷ [])) (encode_base64 rest)
    ∙ rw (chunk-undotted (a ∷ b ∷ c ∷ [])) (encode-undotted rest)

digit-undotted : (n : ℕ) → eqb (hex_digit n) dot ≡ false
digit-undotted n = ground arith

digit-lowercase : (n : ℕ) → n < 16 → is_lowercase_hex (hex_digit n) ≡ true
digit-lowercase n h = ground arith

high-lt : (b : ℕ) → b < 256 → b / 16 < 16
high-lt b h = omega arith

low-lt : (b : ℕ) → b % 16 < 16
low-lt b = omega arith

hex-undotted : (bytes : List ℕ) → is_undotted (hex_bytes bytes) ≡ true
unfolding hex_bytes
hex-undotted [] = refl
hex-undotted (b ∷ bytes) =
    rw (digit-undotted (b / 16)) (rw (digit-undotted (b % 16)) (hex-undotted bytes))

hex-lowercase : (bytes : List ℕ) → All IsByte bytes → all is_lowercase_hex (hex_bytes bytes) ≡ true
unfolding hex_bytes
hex-lowercase [] h = refl
hex-lowercase (b ∷ bytes) h =
    rw (digit-lowercase (b / 16) (high-lt b h.0))
      (rw (digit-lowercase (b % 16) (low-lt b)) (hex-lowercase bytes h.1))

length-hex_bytes : (bytes : List ℕ) → length (hex_bytes bytes) ≡ 2 * length bytes
unfolding hex_bytes
length-hex_bytes [] = refl
length-hex_bytes (b ∷ bytes) = omega (arith, length-hex_bytes bytes)

to_digit-hex_digit : (n : ℕ) → n < 16 → to_digit (hex_digit n) ≡ n
to_digit-hex_digit n h = ground arith

hex_values-hex_bytes : (bytes : List ℕ) → All IsByte bytes → hex_values (hex_bytes bytes) ≡ bytes
unfolding hex_values hex_bytes
hex_values-hex_bytes [] h = refl
hex_values-hex_bytes (b ∷ bytes) h =
    ap (λ c. c ∷ hex_values (hex_bytes bytes)) byte
    ∙ ap (λ bs. b ∷ bs) (hex_values-hex_bytes bytes h.1)
  where
    byte : bit_or (to_digit (hex_digit (b / 16)) * 16) (to_digit (hex_digit (b % 16))) ≡ b
    byte = rw (to_digit-hex_digit (b / 16) (high-lt b h.0)) (
        rw (to_digit-hex_digit (b % 16) (low-lt b))
          (or-shift_4 (b / 16) (b % 16) (high-lt b h.0) (low-lt b) ∙ omega arith))

same_codes_refl : (xs : List ℕ) → same_codes xs xs ≡ true
same_codes_refl [] = refl
same_codes_refl (x ∷ xs) = ground (arith, same_codes_refl xs)

-- What the JSON crate and the MAC crate document: the value is read back from its bytes, with its version
-- and its kind; the MAC has 32 bytes and verifies.
abbrev pub ReadsBack : {Payload : Type 0} → Codec Payload → List ℕ → Payload → String → Type 0
ReadsBack codec payload value kind =
    All IsByte payload
    × ((w : Value) × (codec.from_slice payload ≡ some w)
        × (as_u64 (get w "v") ≡ some 2)
        × (as_str (get w "k") ≡ some kind)
        × (codec.from_value w ≡ some value))

abbrev pub Verifies : {Payload : Type 0} → Codec Payload → List ℕ → Type 0
Verifies codec payload =
    (length (codec.mac payload) ≡ 32)
    × All IsByte (codec.mac payload)
    × (codec.verify_slice payload (codec.mac payload) ≡ true)

module _ {Payload : Type 0} (codec : Codec Payload) (value : Payload) (payload : List ℕ)
    (kind request_id : String) where
  split-token :
      split_codes dot (token_text codec payload) []
      ≡ codes "stp2" ∷ encode_base64 payload ∷ token_digest codec payload ∷ []
  split-token =
      split-part (codes "stp2") (encode_base64 payload ++ dot ∷ token_digest codec payload) [] refl
      ∙ ap (λ parts. codes "stp2" ∷ parts)
          (split-part (encode_base64 payload) (token_digest codec payload) []
              (encode-undotted payload)
            ∙ ap (λ parts. encode_base64 payload ∷ parts)
                (split-last (token_digest codec payload) [] (hex-undotted (codec.mac payload))))

  digest-size : Verifies codec payload → eqb (length (token_digest codec payload)) 64 ≡ true
  digest-size (size, bytes, verifies) = ground (arith, length-hex_bytes (codec.mac payload), size)

  verify_token_digest-token_digest :
      Verifies codec payload → verify_token_digest codec payload (token_digest codec payload) ≡ true
  unfolding verify_token_digest decode_hex_digest
  verify_token_digest-token_digest (size, bytes, verifies) =
      rw (digest-size (size, bytes, verifies)) (
        rw (hex-lowercase (codec.mac payload) bytes)
          (rw (hex_values-hex_bytes (codec.mac payload) bytes) verifies))

  -- A token that was encoded is decoded to the value it carries, where serde reads the value back from
  -- its text and the authentication code of the text verifies.
  pub decode-encode_token :
      (token : List ℕ)
      → codec.to_vec value ≡ some payload
      → ReadsBack codec payload value kind
      → Verifies codec payload
      → encode_token codec value request_id ≡ Result.ok token
      → decode_token codec token kind request_id ≡ Result.ok value
  unfolding encode_token decode_token
  decode-encode_token token serialized reads verifies h =
      let (bytes, (w, read, version, named, back)) = reads in
      let small : ltb max_token_bytes (length (token_text codec payload)) ≡ false =
        ground (arith, h, serialized) in
      let same : token_text codec payload ≡ token = ground (arith, h, serialized) in
      subst (λ t. decode_token codec t kind request_id ≡ Result.ok value) same
        (rw small (
          rw split-token (
            rw (digest-size verifies) (
              rw (decode-encode_base64 payload bytes) (
                rw (same_codes_refl (encode_base64 payload)) (
                  rw (verify_token_digest-token_digest verifies)
                    (rw read (rw version (rw named (rw (eq_refl kind) (rw back refl)))))))))))

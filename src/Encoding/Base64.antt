-- ===== src/Encoding/Base64.antt =====
-- src/encoding.rs: the base64 encoder and decoder, over lists of bytes. A `u8` is a number whose
-- shifts wrap at 256; a mask by 2 ^ k - 1 is written as a remainder.
pub mod Bits
pub mod RoundTrip
use Prim.Native.Nat.{bit_or}
use agent_runner_opencode.Prelude.{
  ltb, leb, eqb, if◌then◌else◌, length, get_elem?, filter, ℕ, ◌+◌, ◌-◌, ◌*◌, ◌/◌, ◌%◌, Bool, ◌&&◌,
  ◌||◌, not, none, some, List, [], ◌∷◌, ◌++◌,
}

pub data DecodeError : Type 0 where
  invalid_base64_len : DecodeError
  invalid_base64_byte : ℕ → DecodeError

pub data Decoded (A : Type 0) : Type 0 where
  ok : A → Decoded A
  err : DecodeError → Decoded A

abbrev pub ◌>>=◌ : {Part Whole : Type 0} → Decoded Part → (Part → Decoded Whole) → Decoded Whole
err failure >>= rest = err failure
ok part >>= rest = rest part

infixl 5 ◌>>=◌
-- `TABLE[index]`: the alphabet in its five ranges.
abbrev pub table : ℕ → ℕ
table i =
    if ltb i 26
    then i + b'A'
    else if ltb i 52
    then i - 26 + b'a'
    else if ltb i 62
    then i - 52 + b'0'
    else if eqb i 62
    then b'+'
    else b'/'

abbrev pub padding_byte : ℕ
padding_byte = b'='

abbrev pub byte_at : List ℕ → ℕ → ℕ
byte_at chunk i = elim (get_elem? chunk i) [ none ↦ 0 | some b ↦ b ]

unfoldable pub third_base64_char : List ℕ → ℕ → ℕ → ℕ
third_base64_char chunk b1 b2 =
    if ltb 1 (length chunk) then table (bit_or (b1 % 16 * 4) (b2 / 64)) else padding_byte

unfoldable pub fourth_base64_char : List ℕ → ℕ → ℕ
fourth_base64_char chunk b2 = if ltb 2 (length chunk) then table (b2 % 64) else padding_byte

-- The four characters that a chunk of one to three bytes appends.
unfoldable pub push_base64_chunk : List ℕ → List ℕ
unfolding third_base64_char fourth_base64_char
push_base64_chunk chunk =
    let b0 = byte_at chunk 0 in
    let b1 = byte_at chunk 1 in
    let b2 = byte_at chunk 2 in
    table (b0 / 4)
    ∷ table (bit_or (b0 % 4 * 16) (b1 / 16))
    ∷ third_base64_char chunk b1 b2
    ∷ fourth_base64_char chunk b2
    ∷ []

-- The loop over `bytes.chunks(3)`.
unfoldable pub encode_base64 : List ℕ → List ℕ
unfolding push_base64_chunk
encode_base64 [] = []
encode_base64 (a ∷ []) = push_base64_chunk (a ∷ [])
encode_base64 (a ∷ b ∷ []) = push_base64_chunk (a ∷ b ∷ [])
encode_base64 (a ∷ b ∷ c ∷ rest) = push_base64_chunk (a ∷ b ∷ c ∷ []) ++ encode_base64 rest

abbrev pub is_ascii_whitespace : ℕ → Bool
is_ascii_whitespace b = eqb b 32 || eqb b 9 || eqb b 10 || eqb b 12 || eqb b 13

unfoldable pub clean_base64 : List ℕ → List ℕ
clean_base64 input = filter (λ b. not (is_ascii_whitespace b)) input

unfoldable pub validate_base64_len : List ℕ → Decoded (Unit {0})
validate_base64_len clean = if eqb (length clean % 4) 0 then ok tt else err invalid_base64_len

unfoldable pub base64_value : ℕ → Decoded ℕ
base64_value byte =
    if leb b'A' byte && leb byte b'Z'
    then ok (byte - b'A')
    else if leb b'a' byte && leb byte b'z'
    then ok (byte - b'a' + 26)
    else if leb b'0' byte && leb byte b'9'
    then ok (byte - b'0' + 52)
    else if eqb byte b'+'
    then ok 62
    else if eqb byte b'/'
    then ok 63
    else err (invalid_base64_byte byte)

-- The loop over a chunk: the values, a padding byte leaving its 0, and the padding bytes counted.
unfoldable pub base64_chunk_values : List ℕ → Decoded (List ℕ × ℕ)
unfolding base64_value
base64_chunk_values [] = ok ([], 0)
base64_chunk_values (byte ∷ bytes) = do
  value ← if eqb byte padding_byte then ok 0 else base64_value byte
  (values, padding) ← base64_chunk_values bytes
  ok (value ∷ values, if eqb byte padding_byte then padding + 1 else padding)

-- The bytes that a chunk appends.
unfoldable pub append_decoded_chunk : List ℕ → Decoded (List ℕ)
unfolding base64_chunk_values
append_decoded_chunk chunk = do
  (values, padding) ← base64_chunk_values chunk
  let v0 = byte_at values 0
  let v1 = byte_at values 1
  let v2 = byte_at values 2
  let v3 = byte_at values 3
  ok (
      bit_or (v0 * 4 % 256) (v1 / 16)
        ∷ (if ltb padding 2 then bit_or (v1 * 16 % 256) (v2 / 4) ∷ [] else [])
      ++ (if eqb padding 0 then bit_or (v2 * 64 % 256) v3 ∷ [] else []))

-- The loop over `clean.chunks(4)`; the last chunk of any list may be shorter.
unfoldable pub decode_base64_chunks : List ℕ → Decoded (List ℕ)
decode_base64_chunks (a ∷ b ∷ c ∷ d ∷ rest) = do
  head ← append_decoded_chunk (a ∷ b ∷ c ∷ d ∷ [])
  tail ← decode_base64_chunks rest
  ok (head ++ tail)
decode_base64_chunks [] = ok []
decode_base64_chunks short = append_decoded_chunk short

unfoldable pub decode_base64 : List ℕ → Decoded (List ℕ)
unfolding validate_base64_len
decode_base64 input = do
  let clean = clean_base64 input
  _ ← validate_base64_len clean
  decode_base64_chunks clean

-- ===== src/Encoding/Base64/RoundTrip.antt =====
-- Decoding what was encoded.
use Prim.Native.Nat.{bit_or}
use agent_runner_opencode.Prelude.{
  eqb, length, All, ℕ, ◌+◌, ◌*◌, ◌/◌, ◌%◌, ◌<◌, ◌≡◌, refl, ap, ◌∙◌, true, false, List, [], ◌∷◌,
  ◌++◌, arith,
}
use agent_runner_opencode.Encoding.Base64.Bits.{or-shift_2, or-shift_4, or-shift_6}
use agent_runner_opencode.Encoding.Base64.{
  ok, table, padding_byte, push_base64_chunk, encode_base64, is_ascii_whitespace, clean_base64,
  base64_value, base64_chunk_values, append_decoded_chunk, decode_base64_chunks, decode_base64,
}

abbrev pub IsByte : ℕ → Type 0
IsByte b = b < 256

base64_value-table : (i : ℕ) → i < 64 → base64_value (table i) ≡ ok i
unfolding base64_value
base64_value-table i h = ground arith

table_ne_padding : (i : ℕ) → i < 64 → eqb (table i) padding_byte ≡ false
table_ne_padding i h = ground arith

table_not_whitespace : (i : ℕ) → i < 64 → is_ascii_whitespace (table i) ≡ false
table_not_whitespace i h = ground arith

-- The values of a chunk without padding, with one padding byte and with two.
module _ (v0 v1 v2 v3 : ℕ) (h0 : v0 < 64) (h1 : v1 < 64) (h2 : v2 < 64) (h3 : v3 < 64) where
  chunk_values_four :
      base64_chunk_values (table v0 ∷ table v1 ∷ table v2 ∷ table v3 ∷ [])
      ≡ ok (v0 ∷ v1 ∷ v2 ∷ v3 ∷ [], 0)
  unfolding base64_chunk_values
  chunk_values_four = rw (
    base64_value-table v0 h0,
    base64_value-table v1 h1,
    base64_value-table v2 h2,
    base64_value-table v3 h3,
    table_ne_padding v0 h0,
    table_ne_padding v1 h1,
    table_ne_padding v2 h2,
    table_ne_padding v3 h3,
  )

module _ (v0 v1 v2 : ℕ) (h0 : v0 < 64) (h1 : v1 < 64) (h2 : v2 < 64) where
  chunk_values_three :
      base64_chunk_values (table v0 ∷ table v1 ∷ table v2 ∷ padding_byte ∷ [])
      ≡ ok (v0 ∷ v1 ∷ v2 ∷ 0 ∷ [], 1)
  unfolding base64_chunk_values
  chunk_values_three = rw (
    base64_value-table v0 h0,
    base64_value-table v1 h1,
    base64_value-table v2 h2,
    table_ne_padding v0 h0,
    table_ne_padding v1 h1,
    table_ne_padding v2 h2,
  )

module _ (v0 v1 : ℕ) (h0 : v0 < 64) (h1 : v1 < 64) where
  chunk_values_two :
      base64_chunk_values (table v0 ∷ table v1 ∷ padding_byte ∷ padding_byte ∷ [])
      ≡ ok (v0 ∷ v1 ∷ 0 ∷ 0 ∷ [], 2)
  unfolding base64_chunk_values
  chunk_values_two = rw (
    base64_value-table v0 h0,
    base64_value-table v1 h1,
    table_ne_padding v0 h0,
    table_ne_padding v1 h1,
  )

-- The six-bit values that two neighbouring bytes give, below 64, and the bytes that they give back.
second : (a b : ℕ) → b < 256 → bit_or (a % 4 * 16) (b / 16) ≡ a % 4 * 16 + b / 16
second a b h = or-shift_4 (a % 4) (b / 16) (omega arith) (omega arith)

third : (b c : ℕ) → c < 256 → bit_or (b % 16 * 4) (c / 64) ≡ b % 16 * 4 + c / 64
third b c h = or-shift_2 (b % 16) (c / 64) (omega arith) (omega arith)

first_byte :
    (a b : ℕ) → a < 256 → b < 256 → bit_or (a / 4 * 4 % 256) ((a % 4 * 16 + b / 16) / 16) ≡ a
first_byte a b h k =
    let shifted : a / 4 * 4 % 256 ≡ a / 4 * 4 = omega arith in
    rw shifted
      (or-shift_2 (a / 4) ((a % 4 * 16 + b / 16) / 16) (omega arith) (omega arith) ∙ omega arith)

second_byte :
    (a b c : ℕ)
    → b < 256
    → c < 256
    → bit_or ((a % 4 * 16 + b / 16) * 16 % 256) ((b % 16 * 4 + c / 64) / 4) ≡ b
second_byte a b c h k =
    let shifted : (a % 4 * 16 + b / 16) * 16 % 256 ≡ b / 16 * 16 = omega arith in
    rw shifted
      (or-shift_4 (b / 16) ((b % 16 * 4 + c / 64) / 4) (omega arith) (omega arith) ∙ omega arith)

third_byte : (b c : ℕ) → c < 256 → bit_or ((b % 16 * 4 + c / 64) * 64 % 256) (c % 64) ≡ c
third_byte b c h =
    let shifted : (b % 16 * 4 + c / 64) * 64 % 256 ≡ c / 64 * 64 = omega arith in
    rw shifted (or-shift_6 (c / 64) (c % 64) (omega arith) (omega arith) ∙ omega arith)

-- A chunk of each length decodes to its bytes.
decode_three :
    (a b c : ℕ)
    → IsByte a
    → IsByte b
    → IsByte c
    → append_decoded_chunk (push_base64_chunk (a ∷ b ∷ c ∷ [])) ≡ ok (a ∷ b ∷ c ∷ [])
unfolding append_decoded_chunk push_base64_chunk
decode_three a b c ha hb hc =
    rw (second a b hb, third b c hc)
      (rw
        (chunk_values_four (a / 4) (a % 4 * 16 + b / 16) (b % 16 * 4 + c / 64) (c % 64)
          (omega arith) (omega arith) (omega arith) (omega arith))
        (rw (first_byte a b ha hb, second_byte a b c hb hc, third_byte b c hc)))

decode_two :
    (a b : ℕ)
    → IsByte a
    → IsByte b
    → append_decoded_chunk (push_base64_chunk (a ∷ b ∷ [])) ≡ ok (a ∷ b ∷ [])
unfolding append_decoded_chunk push_base64_chunk
decode_two a b ha hb =
    rw (second a b hb, third b 0 (omega arith))
      (rw
        (chunk_values_three (a / 4) (a % 4 * 16 + b / 16) (b % 16 * 4 + 0 / 64) (omega arith)
          (omega arith) (omega arith))
        (rw (first_byte a b ha hb, second_byte a b 0 hb (omega arith))))

decode_one : (a : ℕ) → IsByte a → append_decoded_chunk (push_base64_chunk (a ∷ [])) ≡ ok (a ∷ [])
unfolding append_decoded_chunk push_base64_chunk
decode_one a ha = rw (second a 0 (omega arith)) (
    rw (chunk_values_two (a / 4) (a % 4 * 16 + 0 / 16) (omega arith) (omega arith))
      (rw (first_byte a 0 ha (omega arith))))

-- What the encoder writes is a whole number of four-character chunks without white space.
abbrev IsPrinted : ℕ → Type 0
IsPrinted c = is_ascii_whitespace c ≡ false

clean_printed : (cs : List ℕ) → All IsPrinted cs → clean_base64 cs ≡ cs
unfolding clean_base64
clean_printed [] h = refl
clean_printed (c ∷ cs) h = rw h.0 (ap (λ rest. c ∷ rest) (clean_printed cs h.1))

second-IsPrinted : (a b : ℕ) → b < 256 → IsPrinted (table (bit_or (a % 4 * 16) (b / 16)))
second-IsPrinted a b h =
    rw (second a b h) (table_not_whitespace (a % 4 * 16 + b / 16) (omega arith))

third-IsPrinted : (b c : ℕ) → c < 256 → IsPrinted (table (bit_or (b % 16 * 4) (c / 64)))
third-IsPrinted b c h = rw (third b c h) (table_not_whitespace (b % 16 * 4 + c / 64) (omega arith))

encode-IsPrinted : (bytes : List ℕ) → All IsByte bytes → All IsPrinted (encode_base64 bytes)
unfolding encode_base64
encode-IsPrinted [] h = tt
encode-IsPrinted (a ∷ []) h = (
  table_not_whitespace (a / 4) (omega arith),
  (second-IsPrinted a 0 (omega arith), (refl, (refl, tt))),
)
encode-IsPrinted (a ∷ b ∷ []) h = (
  table_not_whitespace (a / 4) (omega arith),
  (second-IsPrinted a b h.1.0, (third-IsPrinted b 0 (omega arith), (refl, tt))),
)
encode-IsPrinted (a ∷ b ∷ c ∷ rest) h = (
  table_not_whitespace (a / 4) (omega arith),
  (
    second-IsPrinted a b h.1.0,
    (
      third-IsPrinted b c h.1.1.0,
      (table_not_whitespace (c % 64) (omega arith), encode-IsPrinted rest h.1.1.1),
    ),
  ),
)

-- Each three bytes or fewer give four characters.
pub length-encode_base64 :
    (bytes : List ℕ) → length (encode_base64 bytes) ≡ (length bytes + 2) / 3 * 4
unfolding encode_base64 push_base64_chunk
length-encode_base64 [] = omega arith
length-encode_base64 (a ∷ []) = omega arith
length-encode_base64 (a ∷ b ∷ []) = omega arith
length-encode_base64 (a ∷ b ∷ c ∷ rest) = omega (arith, length-encode_base64 rest)

decode_step :
    (w x y z : ℕ) (rest bytes more : List ℕ)
    → append_decoded_chunk (w ∷ x ∷ y ∷ z ∷ []) ≡ ok bytes
    → decode_base64_chunks rest ≡ ok more
    → decode_base64_chunks (w ∷ x ∷ y ∷ z ∷ rest) ≡ ok (bytes ++ more)
unfolding decode_base64_chunks
decode_step w x y z rest bytes more h k = rw (h, k)

decode-encode_chunks :
    (bytes : List ℕ) → All IsByte bytes → decode_base64_chunks (encode_base64 bytes) ≡ ok bytes
unfolding encode_base64
decode-encode_chunks [] h = unfold decode_base64_chunks in refl
decode-encode_chunks (a ∷ []) h =
    decode_step _ _ _ _ [] (a ∷ []) [] (decode_one a h.0) (unfold decode_base64_chunks in refl)
decode-encode_chunks (a ∷ b ∷ []) h =
    decode_step _ _ _ _ [] (a ∷ b ∷ []) [] (decode_two a b h.0 h.1.0)
      (unfold decode_base64_chunks in refl)
decode-encode_chunks (a ∷ b ∷ c ∷ rest) h =
    decode_step _ _ _ _ (encode_base64 rest) (a ∷ b ∷ c ∷ []) rest
      (decode_three a b c h.0 h.1.0 h.1.1.0) (decode-encode_chunks rest h.1.1.1)

-- Whatever bytes are encoded, decoding the text gives them back.
pub decode-encode_base64 :
    (bytes : List ℕ) → All IsByte bytes → decode_base64 (encode_base64 bytes) ≡ ok bytes
unfolding decode_base64
decode-encode_base64 bytes h =
    let whole : eqb (length (encode_base64 bytes) % 4) 0 ≡ true =
      ground (arith, length-encode_base64 bytes) in
    rw (clean_printed (encode_base64 bytes) (encode-IsPrinted bytes h), whole)
      (decode-encode_chunks bytes h)

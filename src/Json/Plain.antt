-- ===== src/Json/Plain.antt =====
-- The JSON values that `serde_json` reads back from their text as they are: its parser has a limit on the
-- nesting, and may be off in the last bit of a float unless a feature is enabled.
use Prim.Native.Nat.{Ordering}
use Prim.Native.String.{compare}
use agent_runner_opencode.Prelude.{ltb, leb, ℕ, zero, suc, ◌^◌, String, Bool, true, false, ◌&&◌}
use agent_runner_opencode.Json.{
  Number, pos_int, neg_int, float, Value, null, boolean, number, text, array, object, Fields, field,
  end, Items, cons, nil,
}

-- Integers of 64 bits: unsigned, or negative with the magnitude.
abbrev pub is_plain_number : Number → Bool
is_plain_number (pos_int n) = ltb n (2 ^ 64)
is_plain_number (neg_int n) = ltb 0 n && leb n (2 ^ 63)
is_plain_number (float bits) = false

abbrev pub is_before : String → String → Bool
is_before j k = elim (compare j k) [ Ordering.lt ↦ true | _ ↦ false ]

-- The first key of the fields, if there is one, is after the key.
abbrev is_key_before : String → Fields → Bool
is_key_before k end = true
is_key_before k (field j v fs) = is_before k j

-- Is there no float, are the keys in order, and are arrays and objects nested no deeper than the levels?
unfoldable mutual
  pub is_plain : ℕ → Value → Bool
  is_plain levels null = true
  is_plain levels (boolean b) = true
  is_plain levels (number n) = is_plain_number n
  is_plain levels (text s) = true
  is_plain zero (array xs) = false
  is_plain (suc levels) (array xs) = is_plain_items levels xs
  is_plain zero (object fs) = false
  is_plain (suc levels) (object fs) = is_plain_fields levels fs

  pub is_plain_items : ℕ → Items → Bool
  is_plain_items levels nil = true
  is_plain_items levels (cons v xs) = is_plain levels v && is_plain_items levels xs

  pub is_plain_fields : ℕ → Fields → Bool
  is_plain_fields levels end = true
  is_plain_fields levels (field k v fs) =
      is_key_before k fs && is_plain levels v && is_plain_fields levels fs

-- ===== src/Json/Laws.antt =====
-- What a lookup finds after an insertion, and in a literal object.
use agent_runner_opencode.Prelude.{
  if◌then◌else◌, String, ◌≡◌, refl, Option, none, some, List, [], ◌∷◌, arith, ◌==◌, eq_iff, eq_refl,
}
use agent_runner_opencode.Json.{Value, Fields, end, field, find_field, insert, from_pairs}

-- A lookup after an insertion finds the new value under its key and the old ones under others.
pub find_field-insert :
    (k j : String) (v : Value) (fs : Fields)
    → find_field j (insert k v fs) ≡ (if k == j then some v else find_field j fs)
unfolding insert
find_field-insert k j v end = refl
find_field-insert k j v (field i w fs) =
    ground (arith, find_field-insert k j v fs, eq_iff k j, eq_iff i j, eq_iff k i)

-- Of a literal's pairs the first with the key is the one that is found.
abbrev pub find_pair : String → List (String × Value) → Option Value
find_pair k [] = none
find_pair k ((j, v) ∷ rest) = if j == k then some v else find_pair k rest

pub find_field-from_pairs :
    (k : String) (pairs : List (String × Value))
    → find_field k (from_pairs pairs) ≡ find_pair k pairs
unfolding from_pairs
find_field-from_pairs k [] = refl
find_field-from_pairs k ((j, v) ∷ rest) =
    ground (arith, find_field-insert j k v (from_pairs rest), find_field-from_pairs k rest)

pub ruleset json_laws = (find_field-insert, find_field-from_pairs, eq_refl)

-- ===== src/Json.antt =====
-- JSON values as `serde_json::Value` has them, which the source matches on and reads through
-- `get`, `pointer`, `as_str`, `as_bool`, `as_u64`, `as_object` and `Map::insert`. An object is a
-- list of fields in the order of their keys, as in the crate's `BTreeMap`; a field is found by its
-- key, and an insertion replaces the value of a key that is there.
pub mod Laws
pub mod Plain
use Prim.Native.Nat.{Ordering}
use Prim.Native.String.{compare}
use agent_runner_opencode.Prelude.{
  if◌then◌else◌, ℕ, String, Bool, Option, none, some, List, [], ◌∷◌, ◌==◌,
}

-- A number is an unsigned integer, the magnitude of a negative one, or the bits of a float.
pub data Number : Type 0 where
  pos_int neg_int float : ℕ → Number

mutual
  pub data Value : Type 0 where
    null : Value
    boolean : Bool → Value
    number : Number → Value
    text : String → Value
    array : Items → Value
    object : Fields → Value

  pub data Fields : Type 0 where
    field : String → Value → Fields → Fields
    end : Fields

  pub data Items : Type 0 where
    cons : Value → Items → Items
    nil : Items

-- `Map::get`.
abbrev pub find_field : String → Fields → Option Value
find_field k end = none
find_field k (field j v fs) = if j == k then some v else find_field k fs

-- `Value::get` with a key: a value that is no object has no field.
abbrev pub get : Value → String → Option Value
get (object fs) k = find_field k fs
get null k = none
get (boolean b) k = none
get (number n) k = none
get (text s) k = none
get (array xs) k = none

abbrev pub get_in : Option Value → String → Option Value
get_in none k = none
get_in (some v) k = get v k

-- `Value::pointer("/j/k")` with keys that are no numbers.
abbrev pub pointer : Value → String → String → Option Value
pointer v j k = get_in (get v j) k

abbrev pub as_str : Option Value → Option String
as_str (some (text s)) = some s
as_str _ = none

abbrev pub as_bool : Option Value → Option Bool
as_bool (some (boolean b)) = some b
as_bool _ = none

abbrev pub as_u64 : Option Value → Option ℕ
as_u64 (some (number (pos_int n))) = some n
as_u64 _ = none

abbrev pub as_object : Option Value → Option Fields
as_object (some (object fs)) = some fs
as_object _ = none

abbrev pub or_null : Option Value → Value
or_null none = null
or_null (some v) = v

-- `Map::insert`.
unfoldable pub insert : String → Value → Fields → Fields
insert k v end = field k v end
insert k v (field j w fs) = elim (compare k j) [
  | Ordering.lt ↦ field k v (field j w fs)
  | Ordering.eq ↦ field k v fs
  | Ordering.gt ↦ field j w (insert k v fs)
]

-- The object that `json!({ … })` builds.
unfoldable pub from_pairs : List (String × Value) → Fields
unfolding insert
from_pairs [] = end
from_pairs ((k, v) ∷ rest) = insert k v (from_pairs rest)

abbrev pub json : List (String × Value) → Value
json pairs = object (from_pairs pairs)

abbrev pub keys : Fields → List String
keys end = []
keys (field k v fs) = k ∷ keys fs

abbrev pub values : Fields → List Value
values end = []
values (field k v fs) = v ∷ values fs

-- ===== src/Prelude/Maps.antt =====
-- Rust's `BTreeMap<String, V>`: an association list in the order of its keys.
use Prim.Native.Nat.{Ordering}
use Prim.Native.String.{String, compare}
use mathlib.Core.Path.{◌≡◌, refl}
use mathlib.Core.Bool.{Bool}
use mathlib.Core.Option.{Option, none, some}
use mathlib.Core.List.{List, [], ◌∷◌}
use native.Mathlib.Omega.{arith}
use Prim.Native.Nat.{◌+◌, ◌≤◌}
use text.Mathlib.Text.{◌==◌}
use text.Mathlib.TextEquality.{eq_iff}
use agent_runner_opencode.Prelude.Tests.{if◌then◌else◌}
use agent_runner_opencode.Prelude.Lists.{length}

abbrev pub Dict {ℓ} : Type ℓ → Type ℓ
Dict V = List (String × V)

module _ {ℓ} {V : Type ℓ} where
  abbrev pub lookup : String → Dict V → Option V
  lookup k [] = none
  lookup k ((j, v) ∷ m) = if j == k then some v else lookup k m

  unfoldable pub insert_key : String → V → Dict V → Dict V
  insert_key k v [] = (k, v) ∷ []
  insert_key k v ((j, w) ∷ m) = elim (compare k j) [
    | Ordering.lt ↦ (k, v) ∷ (j, w) ∷ m
    | Ordering.eq ↦ (k, v) ∷ m
    | Ordering.gt ↦ (j, w) ∷ insert_key k v m
  ]

  -- `BTreeMap::retain`.
  unfoldable pub retain : (V → Bool) → Dict V → Dict V
  retain p [] = []
  retain p ((j, w) ∷ m) = let rest = retain p m in if p w then (j, w) ∷ rest else rest

  pub lookup-insert_key :
      (k j : String) (v : V) (m : Dict V)
      → lookup j (insert_key k v m) ≡ (if k == j then some v else lookup j m)
  unfolding insert_key
  lookup-insert_key k j v [] = refl
  lookup-insert_key k j v ((i, w) ∷ m) =
      ground (arith, lookup-insert_key k j v m, eq_iff k j, eq_iff i j, eq_iff k i)

  pub length-insert_key :
      (k : String) (v : V) (m : Dict V) → length (insert_key k v m) ≤ length m + 1
  unfolding insert_key
  length-insert_key k v [] = omega arith
  length-insert_key k v ((i, w) ∷ m) = ground (arith, length-insert_key k v m)

  pub length-retain : (p : V → Bool) (m : Dict V) → length (retain p m) ≤ length m
  unfolding retain
  length-retain p [] = omega arith
  length-retain p ((i, w) ∷ m) = ground (arith, length-retain p m)

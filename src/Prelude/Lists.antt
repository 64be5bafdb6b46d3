-- ===== src/Prelude/Lists.antt =====
-- Lists over the native numbers under the library's names, Boolean searches and predicates.
use Prim.Native.Nat.{ℕ, zero, suc, ◌+◌, ◌-◌, ◌≤◌, ◌<◌}
use mathlib.Core.Path.{◌≡◌, refl, ap}
use mathlib.Core.Logic.{inl, inr}
use mathlib.Core.Bool.{Bool, true, false, ◌&&◌, ◌||◌}
use mathlib.Core.List.{List, [], ◌∷◌, ◌++◌}
use mathlib.Core.Option.{Option, none, some}
use native.Mathlib.Omega.{arith}
use agent_runner_opencode.Prelude.Tests.{if◌then◌else◌, Bool-cases}

module _ {ℓ} {A : Type ℓ} where
  abbrev pub length : List A → ℕ
  length [] = 0
  length (x ∷ xs) = suc (length xs)

  abbrev pub get_elem? : List A → ℕ → Option A
  get_elem? [] i = none
  get_elem? (x ∷ xs) zero = some x
  get_elem? (x ∷ xs) (suc i) = get_elem? xs i

  abbrev pub take : ℕ → List A → List A
  take zero xs = []
  take (suc n) [] = []
  take (suc n) (x ∷ xs) = x ∷ take n xs

  abbrev pub drop : ℕ → List A → List A
  drop zero xs = xs
  drop (suc n) [] = []
  drop (suc n) (x ∷ xs) = drop n xs

  -- Rust's `iter().find`, `iter().any`, `iter().all`, `iter().filter` and `take_while`.
  abbrev pub find : (A → Bool) → List A → Option A
  find p [] = none
  find p (x ∷ xs) = if p x then some x else find p xs

  abbrev pub any : (A → Bool) → List A → Bool
  any p [] = false
  any p (x ∷ xs) = p x || any p xs

  abbrev pub all : (A → Bool) → List A → Bool
  all p [] = true
  all p (x ∷ xs) = p x && all p xs

  abbrev pub filter : (A → Bool) → List A → List A
  filter p [] = []
  filter p (x ∷ xs) = let rest = filter p xs in if p x then x ∷ rest else rest

  abbrev pub take_while : (A → Bool) → List A → List A
  take_while p [] = []
  take_while p (x ∷ xs) = let rest = take_while p xs in if p x then x ∷ rest else []

  -- Rust's `iter().position`.
  abbrev pub position : (A → Bool) → List A → Option ℕ
  position p [] = none
  position p (x ∷ xs) =
      let later : Option ℕ = position p xs in
      if p x then some 0 else elim later [ none ↦ none | some i ↦ some (suc i) ]

  -- `iter_mut().find` and what is then done to the element found; nothing is done if there is none.
  abbrev pub update_first : (A → Bool) → (A → A) → List A → List A
  update_first p f [] = []
  update_first p f (x ∷ xs) = if p x then f x ∷ xs else x ∷ update_first p f xs

  -- `iter().filter(p).count()`.
  abbrev pub count : (A → Bool) → List A → ℕ
  count p [] = 0
  count p (x ∷ xs) = if p x then suc (count p xs) else count p xs

  abbrev pub All {κ} : (A → Type κ) → List A → Type κ
  All P [] = Unit
  All P (x ∷ xs) = P x × All P xs

module _ {ℓ} {A : Type ℓ} where
  pub length-append : (xs ys : List A) → length (xs ++ ys) ≡ length xs + length ys
  length-append [] ys = omega arith
  length-append (x ∷ xs) ys = omega (arith, length-append xs ys)

  pub length-drop : (n : ℕ) (xs : List A) → length (drop n xs) ≡ length xs - n
  length-drop zero xs = omega arith
  length-drop (suc n) [] = omega arith
  length-drop (suc n) (x ∷ xs) = omega (arith, length-drop n xs)

  -- What follows a list is what is left when the list's length is dropped.
  pub drop-append_length : (xs ys : List A) → drop (length xs) (xs ++ ys) ≡ ys
  drop-append_length [] ys = refl
  drop-append_length (x ∷ xs) ys = drop-append_length xs ys

  pub take-append_length : (xs ys : List A) → take (length xs) (xs ++ ys) ≡ xs
  take-append_length [] ys = refl
  take-append_length (x ∷ xs) ys = ap (λ zs. x ∷ zs) (take-append_length xs ys)

  pub find-eq_some : (p : A → Bool) (xs : List A) (a : A) → find p xs ≡ some a → p a ≡ true
  find-eq_some p [] a h = ground arith
  find-eq_some p (x ∷ xs) a h = ground (arith, find-eq_some p xs a)

  pub All-append {κ} : (P : A → Type κ) (xs ys : List A) → All P xs → All P ys → All P (xs ++ ys)
  All-append P [] ys h k = k
  All-append P (x ∷ xs) ys h k = (h.0, All-append P xs ys h.1 k)

  pub All-drop {κ} : (P : A → Type κ) (n : ℕ) (xs : List A) → All P xs → All P (drop n xs)
  All-drop P zero xs h = h
  All-drop P (suc n) [] h = h
  All-drop P (suc n) (x ∷ xs) h = All-drop P n xs h.1

  pub all-append : (p : A → Bool) (xs ys : List A) → all p (xs ++ ys) ≡ (all p xs && all p ys)
  all-append p [] ys = refl
  all-append p (x ∷ xs) ys = ground (arith, all-append p xs ys)

module _ {ℓ} {A : Type ℓ} where
  -- Both parts of an empty list are empty.
  pub append-eq_nil : (xs ys : List A) → xs ++ ys ≡ [] → (xs ≡ []) × (ys ≡ [])
  append-eq_nil [] ys h = (refl, h)
  append-eq_nil (x ∷ xs) ys h = cc

module _ {ℓ} {A : Type ℓ} (p : A → Bool) (f : A → A) where
  pub length-update_first : (xs : List A) → length (update_first p f xs) ≡ length xs
  length-update_first [] = refl
  length-update_first (x ∷ xs) = ground (arith, length-update_first xs)

  -- A test that the change does not turn on stays off on all of the list.
  pub any-update_first :
      (q : A → Bool) (xs : List A)
      → ((x : A) → p x ≡ true → q x ≡ false → q (f x) ≡ false)
      → any q xs ≡ false
      → any q (update_first p f xs) ≡ false
  any-update_first q [] keeps h = h
  any-update_first q (x ∷ xs) keeps h =
      ground (arith, keeps x, λ (e : any q xs ≡ false). any-update_first q xs keeps e)

pub count-le {ℓ} : {A : Type ℓ} (p : A → Bool) (xs : List A) → count p xs ≤ length xs
count-le p [] = omega arith
count-le p (x ∷ xs) = ground (arith, count-le p xs)

pub position-lt {ℓ} :
    {A : Type ℓ} (p : A → Bool) (xs : List A) (at : ℕ) → position p xs ≡ some at → at < length xs
position-lt p [] at h = ground arith
position-lt p (x ∷ xs) at h = ground (arith, position-lt p xs (at - 1))

-- A list in which the test holds somewhere has a first place where it holds.
pub any-position {ℓ} :
    {A : Type ℓ} (p : A → Bool) (xs : List A)
    → any p xs ≡ true
    → (at : ℕ) × (x : A) × (position p xs ≡ some at)
      × (get_elem? xs at ≡ some x)
      × (p x ≡ true)
      × (at < length xs)
any-position p [] h = cc
any-position p (x ∷ xs) h = elim (Bool-cases (p x)) [
  | inl e ↦ (0, x, rw e refl, refl, e, omega arith)
  | inr e ↦
      let (at, y, q, g, t, b) = any-position p xs (ground arith) in
      (suc at, y, ground arith, g, t, omega arith)
]

-- The first list begins the second.
abbrev pub IsPrefix {ℓ} : {A : Type ℓ} → List A → List A → Type ℓ
IsPrefix {A = A} xs zs = (rest : List A) × (zs ≡ xs ++ rest)

module _ {ℓ} {A : Type ℓ} where
  pub prefix-if :
      (b : Bool) (xs ys zs : List A)
      → IsPrefix xs zs
      → IsPrefix ys zs
      → IsPrefix (if b then xs else ys) zs
  prefix-if true xs ys zs h k = h
  prefix-if false xs ys zs h k = k

  pub prefix-cons : (x : A) (xs zs : List A) → IsPrefix xs zs → IsPrefix (x ∷ xs) (x ∷ zs)
  prefix-cons x xs zs (rest, e) = (rest, ap (λ ys. x ∷ ys) e)

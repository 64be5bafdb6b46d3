-- ===== src/Custody/Active/Distinct.antt =====
-- src/request_custody.rs: what the `HashSet` of `ActiveIndex::validate` tests, as a bound on how often
-- a request is held.
use agent_runner_opencode.Prelude.{
  any, count, eq_of, ℕ, ◌≤◌, String, ◌≡◌, refl, ap, true, false, List, [], ◌∷◌, arith, ◌==◌, eq_iff,
  eq_refl,
}
use agent_runner_opencode.Custody.Errors.{all_new}
use agent_runner_opencode.Custody.Active.{ActiveSlot, is_held_by, held_requests}

abbrev times : String → List String → ℕ
times x xs = count (λ y. y == x) xs

pub same-sym : (x y : String) → (x == y) ≡ (y == x)
same-sym x y = ground (arith, eq_iff x y, eq_iff y x)

times-none : (x : String) (seen : List String) → any (λ y. y == x) seen ≡ false → times x seen ≡ 0
times-none x [] h = refl
times-none x (y ∷ seen) h = ground (arith, times-none x seen)

seen-same :
    (x y : String) (seen : List String)
    → (y == x) ≡ true
    → any (λ z. z == y) seen ≡ any (λ z. z == x) seen
seen-same x y seen e = ap (λ w. any (λ z. z == w) seen) (eq_of y x e)

-- No text is new twice, and none that is new was seen.
all_new-times :
    (seen xs : List String)
    → all_new seen xs ≡ true
    → (x : String) → (any (λ y. y == x) seen ≡ true → times x xs ≡ 0) × (times x xs ≤ 1)
unfolding all_new
all_new-times seen [] h x = (λ _. refl, omega arith)
all_new-times seen (y ∷ xs) h x =
    let later = all_new-times (y ∷ seen) xs rest x in
    (λ e. ground (arith, later.0, later.1, seen-same x y seen), ground (arith, later.0, later.1))
  where
    rest : all_new (y ∷ seen) xs ≡ true
    rest = ground arith

times-all_new :
    (seen xs : List String)
    → ((x : String) → any (λ y. y == x) seen ≡ true → times x xs ≡ 0)
    → ((x : String) → times x xs ≤ 1)
    → all_new seen xs ≡ true
unfolding all_new
times-all_new seen [] fresh once = refl
times-all_new seen (y ∷ xs) fresh once =
    ground (arith, seen-fresh, times-all_new (y ∷ seen) xs later (λ x. ground (arith, once x)))
  where
    seen-fresh : any (λ z. z == y) seen ≡ false
    seen-fresh = ground (arith, fresh y, eq_refl y)

    later : (x : String) → any (λ z. z == x) (y ∷ seen) ≡ true → times x xs ≡ 0
    later x h = ground (arith, fresh x, once x)

times-held :
    (slots : List ActiveSlot) (stem : String)
    → times stem (held_requests slots) ≡ count (is_held_by stem) slots
times-held [] stem = refl
times-held (slot ∷ slots) stem = ground (arith, times-held slots stem)

-- Every request is held at most once.
unfoldable pub IsDistinct : List ActiveSlot → Type 0
IsDistinct slots = (stem : String) → count (is_held_by stem) slots ≤ 1

pub all_new-IsDistinct :
    (slots : List ActiveSlot) → all_new [] (held_requests slots) ≡ true → IsDistinct slots
unfolding IsDistinct
all_new-IsDistinct slots h stem =
    omega (arith, times-held slots stem, (all_new-times [] (held_requests slots) h stem).1)

pub IsDistinct-all_new :
    (slots : List ActiveSlot) → IsDistinct slots → all_new [] (held_requests slots) ≡ true
unfolding IsDistinct
IsDistinct-all_new slots h =
    times-all_new [] (held_requests slots) (λ stem e. ground arith)
      λ stem. omega (arith, times-held slots stem, h stem)

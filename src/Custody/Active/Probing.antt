-- ===== src/Custody/Active/Probing.antt =====
-- src/request_custody.rs: `next_occupied` and `retry_next`, the round robin of the requests in custody.
use native.Mathlib.Nat.{mod-add-mod, mod-eq_of_lt, add-mod_right}
use mathlib.Core.Option.{some_inj}
use mathlib.Core.Bool.{true≢false}
use agent_runner_opencode.Prelude.{
  if◌then◌else◌, Bool-cases, length, get_elem?, any, any-position, eq_of, ℕ, zero, suc, ◌+◌, ◌-◌,
  ◌%◌, ◌≤◌, ◌<◌, String, len, ◌≡◌, refl, sym, ap, ◌∙◌, subst, ◌⊎◌, inl, inr, Bool, true, false,
  ◌||◌, Option, none, some, List, [], ◌∷◌, arith, ◌==◌, eq_iff,
}
use agent_runner_opencode.Custody.Active.Valid.{validate-IsValid}
use agent_runner_opencode.Custody.Active.{
  ActiveSlot, ActiveIndex, ActiveIndexPolicy, is_occupied, is_held_by, validate, holds, with_probe,
  select_at, select, next_occupied, retry_next,
}
use agent_runner_opencode.Custody.Errors.{ok}

-- The answers of successive calls of `next_occupied`.
unfoldable pub probes_of : ℕ → ActiveIndex → List (Option String)
probes_of zero index = []
probes_of (suc n) index = (next_occupied index).0 ∷ probes_of n (next_occupied index).1

select-some :
    (slots : List ActiveSlot) (next_probe offset rounds : ℕ) (selected : ℕ × String)
    → select slots next_probe offset rounds (some selected) ≡ some selected
unfolding select
select-some slots next_probe offset zero selected = refl
select-some slots next_probe offset (suc rounds) selected =
    select-some slots next_probe (suc offset) rounds selected

abbrev place : List ActiveSlot → ℕ → ℕ → ℕ
place slots next_probe offset = (next_probe + offset) % length slots

-- An occupied slot at an offset, and that the loop selects it.
abbrev IsSelected : List ActiveSlot → ℕ → ℕ → Option (ℕ × String) → Type 0
IsSelected slots next_probe offset selected =
    (slot : ActiveSlot) × (get_elem? slots (place slots next_probe offset) ≡ some slot)
    × (is_occupied slot ≡ true)
    × (selected ≡ some (place slots next_probe offset, slot.request_sha256))

-- One round: nothing is selected and the slot is not occupied, or it is and is selected.
select_at-Cases :
    (at : ℕ) (found : Option ActiveSlot)
    → ((select_at none at found ≡ none)
        × ((slot : ActiveSlot) → found ≡ some slot → is_occupied slot ≡ false))
      ⊎ ((slot : ActiveSlot) × (found ≡ some slot)
          × (is_occupied slot ≡ true)
          × (select_at none at found ≡ some (at, slot.request_sha256)))
select_at-Cases at none = inl (refl, λ slot e. cc)
select_at-Cases at (some slot) = elim (Bool-cases (is_occupied slot)) [
  | inl e ↦ inr (slot, refl, e, rw e refl)
  | inr e ↦ inl (rw e refl, λ other f. ap is_occupied (some_inj.0 (sym f)) ∙ e)
]

pub le-cases : (a b : ℕ) → a ≤ b → (a ≡ b) ⊎ (suc a ≤ b)
le-cases a b h = ground arith

module _ (slots : List ActiveSlot) (next_probe : ℕ) where
  -- With an occupied slot ahead, the loop selects it or one before it.
  select-reaches :
      (offset rounds ahead : ℕ) (slot : ActiveSlot)
      → offset ≤ ahead
      → ahead < offset + rounds
      → get_elem? slots (place slots next_probe ahead) ≡ some slot
      → is_occupied slot ≡ true
      → (at : ℕ) × (at ≤ ahead)
        × IsSelected slots next_probe at (select slots next_probe offset rounds none)
  unfolding select
  select-reaches offset zero ahead slot low high g o = absurd (omega arith)
  select-reaches offset (suc rounds) ahead slot low high g o =
      elim (select_at-Cases here (get_elem? slots here)) [
        | inr (found, e, f, k) ↦
            (offset, low, (found, e, f, rw k (select-some slots next_probe (suc offset) rounds _)))
        | inl (k, free) ↦ rw k (elim (le-cases offset ahead low) [
          | inl e ↦ absurd (
              true≢false
                (sym o ∙ free slot (ap (λ n. get_elem? slots (place slots next_probe n)) e ∙ g)))
          | inr later ↦ select-reaches (suc offset) rounds ahead slot later (omega arith) g o
        ])
      ]
    where
      here : ℕ
      here = place slots next_probe offset

-- The distance left after a probe that went past `at` of the slots ahead.
place-next :
    (slots : List ActiveSlot) (next_probe at ahead : ℕ)
    → at < ahead
    → place slots ((place slots next_probe at + 1) % length slots) (ahead - at - 1)
      ≡ place slots next_probe ahead
place-next slots next_probe at ahead h =
    mod-add-mod (at_place + 1) (length slots) (ahead - at - 1)
    ∙ ap (λ k. k % length slots) split
    ∙ mod-add-mod (next_probe + at) (length slots) (1 + (ahead - at - 1))
    ∙ ap (λ k. k % length slots) whole
  where
    at_place : ℕ
    at_place = place slots next_probe at

    split : at_place + 1 + (ahead - at - 1) ≡ at_place + (1 + (ahead - at - 1))
    split = omega arith

    whole : next_probe + at + (1 + (ahead - at - 1)) ≡ next_probe + ahead
    whole = omega arith

abbrev pub is_answer : String → Option String → Bool
is_answer stem none = false
is_answer stem (some answer) = answer == stem

-- The answer is the request ahead, or one of the later answers is.
answer-or :
    (slots : List ActiveSlot) (next_probe at ahead : ℕ) (slot found : ActiveSlot) (later : Bool)
    → at ≤ ahead
    → get_elem? slots (place slots next_probe at) ≡ some found
    → get_elem? slots (place slots next_probe ahead) ≡ some slot
    → (at < ahead → later ≡ true)
    → ((found.request_sha256 == slot.request_sha256) || later) ≡ true
answer-or slots next_probe at ahead slot found later low e g rest = elim (le-cases at ahead low) [
  | inl same ↦ ground (
    arith,
    ap (λ s. s.request_sha256)
        (some_inj.0 (sym e ∙ ap (λ k. get_elem? slots (place slots next_probe k)) same ∙ g)),
    eq_iff found.request_sha256 slot.request_sha256,
  )
  | inr further ↦ ground (arith, rest further)
]

-- A request ahead of the probe is answered after as many calls as there are slots up to it.
probes_of-reaches :
    (n ahead : ℕ) (index : ActiveIndex) (slot : ActiveSlot)
    → ahead < n
    → ahead < length index.slots
    → get_elem? index.slots (place index.slots index.next_probe ahead) ≡ some slot
    → is_occupied slot ≡ true
    → any (is_answer slot.request_sha256) (probes_of n index) ≡ true
unfolding probes_of next_occupied
probes_of-reaches zero ahead index slot k b g o = absurd (omega arith)
probes_of-reaches (suc n) ahead index slot k b g o =
    let (at, low, (found, e, f, s)) =
      select-reaches index.slots index.next_probe 0 (length index.slots) ahead slot (omega arith)
        (omega (arith, b)) g o in
    rw s (
      answer-or index.slots index.next_probe at ahead slot found _ low e g λ further.
        probes_of-reaches n (ahead - at - 1)
          (with_probe index ((place index.slots index.next_probe at + 1) % length index.slots)) slot
          (omega arith) (omega arith)
          (ap (λ k. get_elem? index.slots k)
              (place-next index.slots index.next_probe at ahead further)
            ∙ g)
          o)

-- The offset at which the probe meets a place of the slots.
ahead_of :
    (len next_probe at : ℕ)
    → next_probe < len
    → at < len
    → (ahead : ℕ) × (ahead < len) × ((next_probe + ahead) % len ≡ at)
ahead_of len next_probe at p h = elim (le-or next_probe at) [
  | inl e ↦ (at - next_probe, omega arith, ap (λ k. k % len) (omega arith) ∙ mod-eq_of_lt h)
  | inr e ↦ (
    at + len - next_probe,
    omega arith,
    ap (λ k. k % len) (omega arith) ∙ add-mod_right at len ∙ mod-eq_of_lt h,
  )
]
  where
    le-or : (a b : ℕ) → (a ≤ b) ⊎ (b < a)
    le-or a b = ground arith

held_stem :
    (stem : String) (slot : ActiveSlot) → is_held_by stem slot ≡ true → slot.request_sha256 ≡ stem
held_stem stem slot h = eq_of slot.request_sha256 stem (ground arith)

-- Every request in custody is answered within one round of calls, as many as there are slots.
pub probes_of-fair :
    (policy : ActiveIndexPolicy) (index : ActiveIndex) (stem : String)
    → validate policy index ≡ ok tt
    → holds index stem ≡ true
    → any (is_answer stem) (probes_of (length index.slots) index) ≡ true
unfolding holds
probes_of-fair policy index stem v h =
    let (at, slot, q, g, t, b) = any-position (is_held_by stem) index.slots h in
    let (ahead, k, e) =
      ahead_of (length index.slots) index.next_probe at
        ((validate-IsValid policy index v).1 (omega (arith, b))) b in
    subst (λ name. any (is_answer name) (probes_of (length index.slots) index) ≡ true)
      (held_stem stem slot t)
      (probes_of-reaches (length index.slots) ahead index slot k k
        (ap (λ n. get_elem? index.slots n) e ∙ g) (ground (arith, t)))

-- The loop selects the slot at the probe itself if it is occupied.
select-first :
    (slots : List ActiveSlot) (at rounds : ℕ) (slot : ActiveSlot)
    → at < length slots
    → 0 < rounds
    → get_elem? slots at ≡ some slot
    → is_occupied slot ≡ true
    → select slots at 0 rounds none ≡ some (at, slot.request_sha256)
unfolding select
select-first slots at zero slot b r g o = absurd (omega arith)
select-first slots at (suc rounds) slot b r g o =
    ap (λ k. select slots at 1 rounds (select_at none k (get_elem? slots k)))
      (ap (λ k. k % length slots) (omega arith) ∙ mod-eq_of_lt b)
    ∙ ap (λ s. select slots at 1 rounds (select_at none at s)) g
    ∙ ap (λ b. select slots at 1 rounds (if b then some (at, slot.request_sha256) else none)) o
    ∙ select-some slots at 1 rounds (at, slot.request_sha256)

-- A request in custody that is to be tried again is the next answer.
pub retry_next-next :
    (index : ActiveIndex) (stem : String)
    → holds index stem ≡ true
    → (next_occupied (retry_next stem index)).0 ≡ some stem
unfolding retry_next holds next_occupied
retry_next-next index stem h =
    let (at, slot, q, g, t, b) = any-position (is_held_by stem) index.slots h in
    rw q (
      rw
        (select-first index.slots at (length index.slots) slot b (omega (arith, b)) g
          (ground (arith, t)))
        (ap some (held_stem stem slot t)))

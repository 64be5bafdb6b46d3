-- ===== src/Custody/Active/Slots.antt =====
-- src/request_custody.rs: what the slots hold, as a map from requests to bindings, and how a change of
-- the first free slot, or of the slot of a request, changes it.
use agent_runner_opencode.Prelude.{
  if◌then◌else◌, is_present, length, find, any, update_first, count, count-le, suc, ◌+◌, ◌≤◌, ◌<◌,
  String, ◌≡◌, refl, ◌≢◌, true, false, Option, none, some, List, [], ◌∷◌, arith, ◌==◌, eq_iff,
}
use agent_runner_opencode.Custody.Active.{
  ActiveSlot, empty_slot, ActiveReservation, absent, ActiveIndex, is_free, is_occupied, is_held_by,
  slot_is_inconsistent, compare_binding, reservation_of, taken_by, with_binding,
}

-- The binding under which the slots hold a request.
unfoldable pub held_in : List ActiveSlot → String → Option (Option String)
held_in [] stem = none
held_in (slot ∷ slots) stem =
    if is_held_by stem slot then some slot.binding_sha256 else held_in slots stem

unfoldable pub held : ActiveIndex → String → Option (Option String)
held index stem = held_in index.slots stem

pub occupied-not_free : (slot : ActiveSlot) → is_occupied slot ≡ true → is_free slot ≡ false
occupied-not_free slot h = ground arith

pub held-any :
    (slots : List ActiveSlot) (stem : String)
    → any (is_held_by stem) slots ≡ is_present (held_in slots stem)
unfolding held_in
held-any [] stem = refl
held-any (slot ∷ slots) stem = ground (arith, held-any slots stem)

-- `reservation`, read off the map.
abbrev pub entry_reservation : Option (Option String) → String → ActiveReservation
entry_reservation none binding = absent
entry_reservation (some held) binding = compare_binding held binding

pub held-reservation :
    (slots : List ActiveSlot) (stem binding : String)
    → reservation_of (find (is_held_by stem) slots) binding
      ≡ entry_reservation (held_in slots stem) binding
unfolding held_in
held-reservation [] stem binding = refl
held-reservation (slot ∷ slots) stem binding = ground (arith, held-reservation slots stem binding)

module _ (stem : String) (binding : Option String) where
  -- The first free slot takes the request: it is held as said, and nothing else changes.
  pub held-occupy :
      (slots : List ActiveSlot) (slot : ActiveSlot) (other : String)
      → find is_free slots ≡ some slot
      → held_in slots stem ≡ none
      → held_in (update_first is_free (λ _. taken_by stem binding) slots) other
        ≡ (if stem == other then some binding else held_in slots other)
  unfolding held_in
  held-occupy [] slot other h k = ground arith
  held-occupy (s ∷ slots) slot other h k = ground (
    arith,
    held-occupy slots slot other,
    eq_iff stem other,
    eq_iff s.request_sha256 stem,
    eq_iff s.request_sha256 other,
  )

  pub count-occupy :
      (slots : List ActiveSlot) (slot : ActiveSlot) (other : String)
      → find is_free slots ≡ some slot
      → count (is_held_by other) (update_first is_free (λ _. taken_by stem binding) slots)
        ≡ count (is_held_by other) slots + (if stem == other then 1 else 0)
  count-occupy [] slot other h = ground arith
  count-occupy (s ∷ slots) slot other h = ground (arith, count-occupy slots slot other)

module _ (stem : String) where
  -- The slot of the request gets a binding.
  pub held-bind :
      (binding : String) (slots : List ActiveSlot) (other : String)
      → held_in slots stem ≢ none
      → held_in (update_first (is_held_by stem) (with_binding binding) slots) other
        ≡ (if stem == other then some (some binding) else held_in slots other)
  unfolding held_in
  held-bind binding [] other h = absurd (h refl)
  held-bind binding (s ∷ slots) other h = ground (
    arith,
    held-bind binding slots other,
    eq_iff stem other,
    eq_iff s.request_sha256 stem,
    eq_iff s.request_sha256 other,
  )

  pub count-bind :
      (binding : String) (slots : List ActiveSlot) (other : String)
      → count (is_held_by other) (update_first (is_held_by stem) (with_binding binding) slots)
        ≡ count (is_held_by other) slots
  count-bind binding [] other = refl
  count-bind binding (s ∷ slots) other = ground (arith, count-bind binding slots other)

  pub count-none :
      (slots : List ActiveSlot) → count (is_held_by stem) slots ≡ 0 → held_in slots stem ≡ none
  unfolding held_in
  count-none [] h = refl
  count-none (s ∷ slots) h = ground (arith, count-none slots)

  pub held-none :
      (slots : List ActiveSlot) → held_in slots stem ≡ none → count (is_held_by stem) slots ≡ 0
  unfolding held_in
  held-none [] h = refl
  held-none (s ∷ slots) h = ground (arith, held-none slots)

  -- The slot of the request is emptied: of a request held once nothing is left, nothing else changes.
  pub held-remove :
      (slots : List ActiveSlot) (other : String)
      → count (is_held_by stem) slots ≤ 1
      → held_in (update_first (is_held_by stem) (λ _. empty_slot) slots) other
        ≡ (if stem == other then none else held_in slots other)
  unfolding held_in
  held-remove [] other h = ground arith
  held-remove (s ∷ slots) other h = ground (
    arith,
    held-remove slots other,
    count-none slots,
    eq_iff stem other,
    eq_iff s.request_sha256 stem,
    eq_iff s.request_sha256 other,
  )

  pub count-remove :
      (slots : List ActiveSlot) (other : String)
      → count (is_held_by other) (update_first (is_held_by stem) (λ _. empty_slot) slots)
        ≤ count (is_held_by other) slots
  count-remove [] other = omega arith
  count-remove (s ∷ slots) other = ground (arith, count-remove slots other)

  -- The number of the occupied slots after each change.
  pub occupied-occupy :
      (binding : Option String) (slots : List ActiveSlot) (slot : ActiveSlot)
      → find is_free slots ≡ some slot
      → count is_occupied (update_first is_free (λ _. taken_by stem binding) slots)
        ≡ suc (count is_occupied slots)
  occupied-occupy binding [] slot h = ground arith
  occupied-occupy binding (s ∷ slots) slot h = ground (arith, occupied-occupy binding slots slot)

  pub occupied-remove :
      (slots : List ActiveSlot)
      → any (is_held_by stem) slots ≡ true
      → suc (count is_occupied (update_first (is_held_by stem) (λ _. empty_slot) slots))
        ≡ count is_occupied slots
  occupied-remove [] h = ground arith
  occupied-remove (s ∷ slots) h = ground (arith, occupied-remove slots)

-- Without a free slot, every consistent slot is occupied.
pub full-occupied :
    (slots : List ActiveSlot)
    → find is_free slots ≡ none
    → any slot_is_inconsistent slots ≡ false
    → count is_occupied slots ≡ length slots
full-occupied [] h k = refl
full-occupied (s ∷ slots) h k = ground (arith, full-occupied slots)

pub free-occupied :
    (slots : List ActiveSlot) (slot : ActiveSlot)
    → find is_free slots ≡ some slot
    → count is_occupied slots < length slots
free-occupied [] slot h = ground arith
free-occupied (s ∷ slots) slot h =
    ground (arith, free-occupied slots slot, count-le is_occupied slots)

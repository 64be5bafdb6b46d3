-- ===== src/Custody/Active.antt =====
-- src/request_custody.rs: `ActiveIndex`, the slots that hold the requests in flight, with its policy,
-- its validation and every operation on it.
pub mod Slots
pub mod Distinct
pub mod Valid
pub mod Refined
pub mod Probing
use agent_runner_opencode.Prelude.{
  ltb, leb, eqb, if◌then◌else◌, is_present, length, get_elem?, find, any, filter, position,
  update_first, count, ℕ, zero, suc, ◌+◌, ◌%◌, String, Bool, true, false, ◌&&◌, ◌||◌, not, Option,
  none, some, List, [], ◌∷◌, map, ◌==◌,
}
use agent_runner_opencode.Custody.Errors.{
  invalid, capacity, CustodyResult, err, ok, refuse_when, and_then, valid_digest, all_new,
}

pub record ActiveSlot : Type 0 where
  pub occupied : ℕ
  pub request_sha256 : String
  pub binding_sha256 : Option String

abbrev pub empty_active_digest : String
empty_active_digest = "0000000000000000000000000000000000000000000000000000000000000000"

abbrev pub empty_slot : ActiveSlot
empty_slot = record { occupied = 0; request_sha256 = empty_active_digest; binding_sha256 = none }

pub data ActiveReservation : Type 0 where
  absent matching unbound conflicting : ActiveReservation

pub record ActiveIndex : Type 0 where
  pub next_probe : ℕ
  pub slots : List ActiveSlot

pub data ActiveIndexPolicy : Type 0 where
  fixed : ℕ → ActiveIndexPolicy
  distributed : ℕ → ActiveIndexPolicy

abbrev pub initial_slots : ActiveIndexPolicy → ℕ
initial_slots (fixed limit) = limit
initial_slots (distributed predecessor_initial_slots) = predecessor_initial_slots

abbrev pub is_distributed : ActiveIndexPolicy → Bool
is_distributed (fixed limit) = false
is_distributed (distributed predecessor_initial_slots) = true

abbrev pub replicate {ℓ} : {A : Type ℓ} → ℕ → A → List A
replicate zero a = []
replicate (suc n) a = a ∷ replicate n a

abbrev pub empty_index : ℕ → ActiveIndex
empty_index active_slots = record { next_probe = 0; slots = replicate active_slots empty_slot }

abbrev pub is_free : ActiveSlot → Bool
is_free slot = eqb slot.occupied 0

abbrev pub is_occupied : ActiveSlot → Bool
is_occupied slot = eqb slot.occupied 1

-- `slot.occupied == 1 && slot.request_sha256 == stem`.
abbrev pub is_held_by : String → ActiveSlot → Bool
is_held_by stem slot = is_occupied slot && (slot.request_sha256 == stem)

abbrev pub is_some_invalid : Option String → Bool
is_some_invalid none = false
is_some_invalid (some binding) = not (valid_digest binding)

abbrev pub slot_is_inconsistent : ActiveSlot → Bool
slot_is_inconsistent slot =
    not (leb slot.occupied 1)
    || not (valid_digest slot.request_sha256)
    || (is_free slot && not (slot.request_sha256 == empty_active_digest))
    || (is_free slot && is_present slot.binding_sha256)
    || is_some_invalid slot.binding_sha256

abbrev pub active_size_is_valid : ActiveIndexPolicy → ActiveIndex → Bool
active_size_is_valid (fixed limit) index = eqb (length index.slots) limit
active_size_is_valid (distributed predecessor_initial_slots) index =
    leb predecessor_initial_slots (length index.slots)

-- The requests of the occupied slots.
abbrev pub held_requests : List ActiveSlot → List String
held_requests slots = map (λ slot. slot.request_sha256) (filter is_occupied slots)

unfoldable pub validate : ActiveIndexPolicy → ActiveIndex → CustodyResult (Unit {0})
validate policy index =
    and_then
      (refuse_when
        (not (active_size_is_valid policy index)
          || (ltb 0 (length index.slots) && leb (length index.slots) index.next_probe)
          || any slot_is_inconsistent index.slots)
        invalid)
      λ _. refuse_when (not (all_new [] (held_requests index.slots))) invalid

unfoldable pub active : ActiveIndex → ℕ
active index = count is_occupied index.slots

unfoldable pub holds : ActiveIndex → String → Bool
holds index stem = any (is_held_by stem) index.slots

abbrev pub compare_binding : Option String → String → ActiveReservation
compare_binding none binding = unbound
compare_binding (some held) binding = if held == binding then matching else conflicting

abbrev pub reservation_of : Option ActiveSlot → String → ActiveReservation
reservation_of none binding = absent
reservation_of (some slot) binding = compare_binding slot.binding_sha256 binding

unfoldable pub reservation : ActiveIndex → String → String → ActiveReservation
reservation index stem binding = reservation_of (find (is_held_by stem) index.slots) binding

abbrev pub with_slots : ActiveIndex → List ActiveSlot → ActiveIndex
with_slots index slots = record index { slots = slots }

abbrev pub with_probe : ActiveIndex → ℕ → ActiveIndex
with_probe index at = record index { next_probe = at }

abbrev pub taken_by : String → Option String → ActiveSlot
taken_by stem binding = record { occupied = 1; request_sha256 = stem; binding_sha256 = binding }

abbrev pub occupy :
    ActiveIndex → String → Option String → Option ActiveSlot → CustodyResult ActiveIndex
occupy index stem binding none = err capacity
occupy index stem binding (some slot) =
    ok (with_slots index (update_first is_free (λ _. taken_by stem binding) index.slots))

-- The end of both reservations: the first free slot takes the request, if there is one.
unfoldable pub occupy_free : String → Option String → ActiveIndex → CustodyResult ActiveIndex
occupy_free stem binding index = occupy index stem binding (find is_free index.slots)

abbrev pub reserve_as :
    ActiveReservation → String → String → ActiveIndex → CustodyResult ActiveIndex
reserve_as matching stem binding index = ok index
reserve_as unbound stem binding index = err invalid
reserve_as conflicting stem binding index = err invalid
reserve_as absent stem binding index = occupy_free stem (some binding) index

unfoldable pub reserve : String → String → ActiveIndex → CustodyResult ActiveIndex
reserve stem binding index =
    and_then (refuse_when (not (valid_digest binding)) invalid)
      λ _. reserve_as (reservation index stem binding) stem binding index

unfoldable pub reserve_unbound : String → ActiveIndex → CustodyResult ActiveIndex
reserve_unbound stem index = if holds index stem then ok index else occupy_free stem none index

abbrev pub with_binding : String → ActiveSlot → ActiveSlot
with_binding binding slot = record slot { binding_sha256 = some binding }

abbrev pub bind_as : ActiveReservation → String → String → ActiveIndex → CustodyResult ActiveIndex
bind_as absent stem binding index = err invalid
bind_as matching stem binding index = ok index
bind_as conflicting stem binding index = err invalid
bind_as unbound stem binding index =
    ok (with_slots index (update_first (is_held_by stem) (with_binding binding) index.slots))

unfoldable pub bind_unbound : String → String → ActiveIndex → CustodyResult ActiveIndex
bind_unbound stem binding index =
    and_then (refuse_when (not (valid_digest binding)) invalid)
      λ _. bind_as (reservation index stem binding) stem binding index

unfoldable pub remove : String → ActiveIndex → Bool × ActiveIndex
remove stem index =
    if holds index stem
    then (true, with_slots index (update_first (is_held_by stem) (λ _. empty_slot) index.slots))
    else (false, index)

-- What the loop body of `next_occupied` does at one index, given what is selected so far.
abbrev pub select_at : Option (ℕ × String) → ℕ → Option ActiveSlot → Option (ℕ × String)
select_at (some selected) index slot = some selected
select_at none index none = none
select_at none index (some slot) =
    if is_occupied slot then some (index, slot.request_sha256) else none

-- The loop, from an offset on, for the rounds that are left.
unfoldable pub select : List ActiveSlot → ℕ → ℕ → ℕ → Option (ℕ × String) → Option (ℕ × String)
select slots next_probe offset zero selected = selected
select slots next_probe offset (suc rounds) selected =
    let index = (next_probe + offset) % length slots in
    select slots next_probe (suc offset) rounds (select_at selected index (get_elem? slots index))

abbrev pub advance : ActiveIndex → Option (ℕ × String) → Option String × ActiveIndex
advance index none = (none, index)
advance index (some (at, stem)) = (some stem, with_probe index ((at + 1) % length index.slots))

unfoldable pub next_occupied : ActiveIndex → Option String × ActiveIndex
next_occupied index =
    advance index (select index.slots index.next_probe 0 (length index.slots) none)

abbrev pub return_to : ActiveIndex → Option ℕ → ActiveIndex
return_to index none = index
return_to index (some at) = with_probe index at

unfoldable pub retry_next : String → ActiveIndex → ActiveIndex
retry_next stem index = return_to index (position (is_held_by stem) index.slots)

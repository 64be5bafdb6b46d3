-- ===== src/Custody/Active/Valid.antt =====
-- src/request_custody.rs: what `ActiveIndex::validate` accepts, and that every operation keeps it.
use native.Mathlib.Nat.{mod-lt}
use agent_runner_opencode.Prelude.{
  Bool-cases, Option-cases, length, find, any, position, update_first, length-update_first,
  any-update_first, position-lt, ℕ, ◌+◌, ◌%◌, ◌<◌, String, ◌≡◌, refl, ap, subst, ◌⊎◌, inl, inr,
  true, false, Option, none, some, List, arith, eq_iff,
}
use agent_runner_opencode.Custody.Errors.{CustodyResult, ok, valid_digest, ok_inj}
use agent_runner_opencode.Custody.Active.{
  ActiveSlot, empty_slot, ActiveIndex, ActiveIndexPolicy, fixed, distributed, is_free, is_held_by,
  is_some_invalid, slot_is_inconsistent, active_size_is_valid, validate, holds, reservation,
  with_slots, with_probe, taken_by, occupy_free, reserve, reserve_unbound, with_binding,
  bind_unbound, remove, select, advance, next_occupied, return_to, retry_next,
}
use agent_runner_opencode.Custody.Active.Slots.{
  held_in, held-any, held-reservation, count-occupy, count-bind, held-none, count-remove,
}
use agent_runner_opencode.Custody.Active.Distinct.{
  IsDistinct, all_new-IsDistinct, IsDistinct-all_new,
}

-- An operation on the index, with its arguments.
pub data Operation : Type 0 where
  reserves binds_unbound : String → String → Operation
  reserves_unbound removes retries : String → Operation
  probes : Operation

unfoldable pub perform : Operation → ActiveIndex → CustodyResult ActiveIndex
perform (reserves stem binding) index = reserve stem binding index
perform (binds_unbound stem binding) index = bind_unbound stem binding index
perform (reserves_unbound stem) index = reserve_unbound stem index
perform (removes stem) index = ok (remove stem index).1
perform (retries stem) index = ok (retry_next stem index)
perform probes index = ok (next_occupied index).1

-- The request that an operation can newly name is a digest.
abbrev pub IsNamed : Operation → Type 0
IsNamed (reserves stem binding) = valid_digest stem ≡ true
IsNamed (binds_unbound stem binding) = Unit
IsNamed (reserves_unbound stem) = valid_digest stem ≡ true
IsNamed (removes stem) = Unit
IsNamed (retries stem) = Unit
IsNamed probes = Unit

-- What the three tests of `validate` establish.
abbrev pub IsValid : ActiveIndexPolicy → ActiveIndex → Type 0
IsValid policy index =
    (active_size_is_valid policy index ≡ true)
    × (0 < length index.slots → index.next_probe < length index.slots)
    × (any slot_is_inconsistent index.slots ≡ false)
    × IsDistinct index.slots

pub validate-IsValid :
    (policy : ActiveIndexPolicy) (index : ActiveIndex)
    → validate policy index ≡ ok tt
    → IsValid policy index
unfolding validate
validate-IsValid policy index h = ground (arith, all_new-IsDistinct index.slots)

pub IsValid-validate :
    (policy : ActiveIndexPolicy) (index : ActiveIndex)
    → IsValid policy index
    → validate policy index ≡ ok tt
unfolding validate
IsValid-validate policy index h = ground (arith, h.0, h.1, h.2, IsDistinct-all_new index.slots h.3)

pub kept :
    (policy : ActiveIndexPolicy) (before after : ActiveIndex)
    → ok before ≡ ok after
    → IsValid policy before
    → IsValid policy after
kept policy before after e v = subst (IsValid policy) (ok_inj e) v

module _ (policy : ActiveIndexPolicy) (index : ActiveIndex) (valid : IsValid policy index) where
  -- Another index is valid with as many slots, a probe within them and valid contents.
  rebuilt :
      (other : ActiveIndex)
      → length other.slots ≡ length index.slots
      → (0 < length index.slots → other.next_probe < length index.slots)
      → any slot_is_inconsistent other.slots ≡ false
      → IsDistinct other.slots
      → IsValid policy other
  rebuilt other e k c d = (size policy valid.0, (λ h. ground (arith, k)), c, d)
    where
      size :
          (policy : ActiveIndexPolicy)
          → active_size_is_valid policy index ≡ true
          → active_size_is_valid policy other ≡ true
      size (fixed limit) h = ground arith
      size (distributed limit) h = ground arith

  resized :
      (slots : List ActiveSlot)
      → length slots ≡ length index.slots
      → any slot_is_inconsistent slots ≡ false
      → IsDistinct slots
      → IsValid policy (with_slots index (slots))
  resized slots e c d = rebuilt (with_slots index (slots)) e valid.1 c d

  occupied_slots :
      (stem : String) (binding : Option String) (slot : ActiveSlot)
      → find is_free index.slots ≡ some slot
      → valid_digest stem ≡ true
      → is_some_invalid binding ≡ false
      → held_in index.slots stem ≡ none
      → IsValid policy
          (with_slots index (update_first is_free (λ _. taken_by stem binding) index.slots))
  unfolding IsDistinct
  occupied_slots stem binding slot h n b k =
      resized (update_first is_free (λ _. taken_by stem binding) index.slots)
        (length-update_first is_free (λ _. taken_by stem binding) index.slots)
        (any-update_first is_free (λ _. taken_by stem binding) slot_is_inconsistent index.slots
          (λ x _ _. ground (arith, n, b)) valid.2)
        once
    where
      once : IsDistinct (update_first is_free (λ _. taken_by stem binding) index.slots)
      once other = ground (
        arith,
        count-occupy stem binding index.slots slot other h,
        valid.3 other,
        held-none stem index.slots k,
        eq_iff stem other,
      )

  occupy_free-IsValid :
      (stem : String) (binding : Option String) (after : ActiveIndex)
      → valid_digest stem ≡ true
      → is_some_invalid binding ≡ false
      → held_in index.slots stem ≡ none
      → occupy_free stem binding index ≡ ok after
      → IsValid policy after
  unfolding occupy_free
  occupy_free-IsValid stem binding after n b k h = elim (Option-cases (find is_free index.slots)) [
    | inl e ↦ cc
    | inr (slot, e) ↦
        kept policy
          (with_slots index (update_first is_free (λ _. taken_by stem binding) index.slots)) after
          (cc) (occupied_slots stem binding slot e n b k)
  ]

  bound_slots :
      (stem binding : String)
      → valid_digest binding ≡ true
      → IsValid policy
          (with_slots index (update_first (is_held_by stem) (with_binding binding) index.slots))
  unfolding IsDistinct
  bound_slots stem binding b =
      resized (update_first (is_held_by stem) (with_binding binding) index.slots)
        (length-update_first (is_held_by stem) (with_binding binding) index.slots)
        (any-update_first (is_held_by stem) (with_binding binding) slot_is_inconsistent index.slots
          (λ x e f. ground (arith, b, e, f)) valid.2)
        once
    where
      once : IsDistinct (update_first (is_held_by stem) (with_binding binding) index.slots)
      once other = ground (arith, count-bind stem binding index.slots other, valid.3 other)

  removed_slots :
      (stem : String)
      → IsValid policy
          (with_slots index (update_first (is_held_by stem) (λ _. empty_slot) index.slots))
  unfolding IsDistinct valid_digest
  removed_slots stem =
      resized (update_first (is_held_by stem) (λ _. empty_slot) index.slots)
        (length-update_first (is_held_by stem) (λ _. empty_slot) index.slots)
        (any-update_first (is_held_by stem) (λ _. empty_slot) slot_is_inconsistent index.slots
          (λ x _ _. refl) valid.2)
        once
    where
      once : IsDistinct (update_first (is_held_by stem) (λ _. empty_slot) index.slots)
      once other = ground (arith, count-remove stem index.slots other, valid.3 other)

  -- Only the probe moves, to a slot there is.
  probed :
      (at : ℕ)
      → (0 < length index.slots → at < length index.slots)
      → IsValid policy (with_probe index at)
  probed at h = rebuilt (with_probe index at) refl h valid.2 valid.3

module _ (index after : ActiveIndex) (stem : String) where
  reserve-Cases :
      (binding : String)
      → reserve stem binding index ≡ ok after
      → (index ≡ after)
        ⊎ ((valid_digest binding ≡ true)
            × (held_in index.slots stem ≡ none)
            × (occupy_free stem (some binding) index ≡ ok after))
  unfolding reserve reservation
  reserve-Cases binding h = ground (arith, held-reservation index.slots stem binding)

  reserve_unbound-Cases :
      reserve_unbound stem index ≡ ok after
      → (index ≡ after)
        ⊎ ((held_in index.slots stem ≡ none) × (occupy_free stem none index ≡ ok after))
  unfolding reserve_unbound holds
  reserve_unbound-Cases h = ground (arith, held-any index.slots stem)

  bind_unbound-Cases :
      (binding : String)
      → bind_unbound stem binding index ≡ ok after
      → (index ≡ after)
        ⊎ ((valid_digest binding ≡ true)
            × (with_slots index (update_first (is_held_by stem) (with_binding binding) index.slots)
                ≡ after))
  unfolding bind_unbound reservation
  bind_unbound-Cases binding h = ground (arith, held-reservation index.slots stem binding)

module _ (policy : ActiveIndexPolicy) (index : ActiveIndex) (valid : IsValid policy index) where
  remove-IsValid : (stem : String) → IsValid policy (remove stem index).1
  unfolding remove
  remove-IsValid stem = elim (Bool-cases (holds index stem)) [
    | inl e ↦ rw e (removed_slots policy index valid stem)
    | inr e ↦ rw e valid
  ]

  return_to-IsValid :
      (found : Option ℕ)
      → ((at : ℕ) → found ≡ some at → at < length index.slots)
      → IsValid policy (return_to index found)
  return_to-IsValid none h = valid
  return_to-IsValid (some at) h = probed policy index valid at λ _. h at refl

  retry_next-IsValid : (stem : String) → IsValid policy (retry_next stem index)
  unfolding retry_next
  retry_next-IsValid stem =
      return_to-IsValid (position (is_held_by stem) index.slots)
        (position-lt (is_held_by stem) index.slots)

  advance-IsValid : (selected : Option (ℕ × String)) → IsValid policy (advance index selected).1
  advance-IsValid none = valid
  advance-IsValid (some (at, stem)) =
      probed policy index valid ((at + 1) % length index.slots) λ h. mod-lt (at + 1) h

  next_occupied-IsValid : IsValid policy (next_occupied index).1
  unfolding next_occupied
  next_occupied-IsValid =
      advance-IsValid (select index.slots index.next_probe 0 (length index.slots) none)

  perform-IsValid :
      (after : ActiveIndex) (op : Operation)
      → IsNamed op
      → perform op index ≡ ok after
      → IsValid policy after
  unfolding perform
  perform-IsValid after (reserves stem binding) n h =
      elim (reserve-Cases index after stem binding h) [
        | inl e ↦ kept policy index after (ap ok e) valid
        | inr (b, k, e) ↦
            occupy_free-IsValid policy index valid stem (some binding) after n (ground (arith, b)) k
              e
      ]
  perform-IsValid after (binds_unbound stem binding) n h =
      elim (bind_unbound-Cases index after stem binding h) [
        | inl e ↦ kept policy index after (ap ok e) valid
        | inr (b, e) ↦
            kept policy
              (with_slots index (update_first (is_held_by stem) (with_binding binding) index.slots))
              after (ap ok e) (bound_slots policy index valid stem binding b)
      ]
  perform-IsValid after (reserves_unbound stem) n h =
      elim (reserve_unbound-Cases index after stem h) [
        | inl e ↦ kept policy index after (ap ok e) valid
        | inr (k, e) ↦ occupy_free-IsValid policy index valid stem none after n refl k e
      ]
  perform-IsValid after (removes stem) n h =
      kept policy (remove stem index).1 after h (remove-IsValid stem)
  perform-IsValid after (retries stem) n h =
      kept policy (retry_next stem index) after h (retry_next-IsValid stem)
  perform-IsValid after probes n h =
      kept policy (next_occupied index).1 after h next_occupied-IsValid

-- Every operation that succeeds keeps what `validate` accepts.
pub perform-validate :
    (policy : ActiveIndexPolicy) (index after : ActiveIndex) (op : Operation)
    → validate policy index ≡ ok tt
    → IsNamed op
    → perform op index ≡ ok after
    → validate policy after ≡ ok tt
perform-validate policy index after op v n h =
    IsValid-validate policy after
      (perform-IsValid policy index (validate-IsValid policy index v) after op n h)

-- ===== src/Custody/Active/Refined.antt =====
-- src/request_custody.rs: `ActiveIndex` against the table it stands for, which says of each request
-- whether it is in custody and under which binding, and knows nothing of slots or of a probe.
use agent_runner_opencode.Prelude.{
  ltb, if◌then◌else◌, Bool-cases, Option-cases, is_present, length, find, any, position, count, ℕ,
  ◌≤◌, String, ◌≡◌, refl, ap, inl, inr, Bool, true, false, Option, none, some, arith, ◌==◌, eq_iff,
}
use agent_runner_opencode.Custody.Errors.{invalid, capacity, CustodyResult, err, ok, valid_digest}
use agent_runner_opencode.Custody.Active.{
  ActiveSlot, ActiveIndex, ActiveIndexPolicy, is_free, is_held_by, slot_is_inconsistent, validate,
  active, holds, reservation, occupy, occupy_free, reserve_as, reserve, reserve_unbound, bind_as,
  bind_unbound, remove, select, advance, next_occupied, return_to, retry_next,
}
use agent_runner_opencode.Custody.Active.Slots.{
  held_in, held, held-any, entry_reservation, held-reservation, held-occupy, held-bind, held-remove,
  full-occupied, free-occupied,
}
use agent_runner_opencode.Custody.Active.Valid.{
  Operation, reserves, binds_unbound, reserves_unbound, removes, retries, probes, perform,
  validate-IsValid,
}
use agent_runner_opencode.Custody.Active.Distinct.{IsDistinct}

abbrev pub Table : Type 0
Table = String → Option (Option String)

abbrev put : String → Option (Option String) → Table → Table
put stem entry table other = if stem == other then entry else table other

abbrev admit : Bool → String → Option String → Table → CustodyResult Table
admit room stem binding table = if room then ok (put stem (some binding) table) else err capacity

abbrev reserve_table : Bool → String → String → Table → Option (Option String) → CustodyResult Table
reserve_table room stem binding table none = admit room stem (some binding) table
reserve_table room stem binding table (some none) = err invalid
reserve_table room stem binding table (some (some other)) =
    if other == binding then ok table else err invalid

abbrev bind_table : String → String → Table → Option (Option String) → CustodyResult Table
bind_table stem binding table none = err invalid
bind_table stem binding table (some none) = ok (put stem (some (some binding)) table)
bind_table stem binding table (some (some other)) =
    if other == binding then ok table else err invalid

-- What each operation promises of the table, when there is room or not for one more request.
unfoldable pub promise : Bool → Operation → Table → CustodyResult Table
promise room (reserves stem binding) table =
    if valid_digest binding then reserve_table room stem binding table (table stem) else err invalid
promise room (binds_unbound stem binding) table =
    if valid_digest binding then bind_table stem binding table (table stem) else err invalid
promise room (reserves_unbound stem) table =
    if is_present (table stem) then ok table else admit room stem none table
promise room (removes stem) table = ok (put stem none table)
promise room (retries stem) table = ok table
promise room probes table = ok table

-- The same error, or an index that stands for the table promised.
unfoldable pub Agrees : CustodyResult ActiveIndex → CustodyResult Table → Type 0
Agrees (err error) (err promised) = error ≡ promised
Agrees (ok index) (ok table) = (stem : String) → held index stem ≡ table stem
Agrees (err error) (ok table) = ⊥
Agrees (ok index) (err promised) = ⊥

unfoldable pub has_room : ActiveIndex → Bool
has_room index = ltb (active index) (length index.slots)

module _ (index : ActiveIndex) (consistent : any slot_is_inconsistent index.slots ≡ false) where
  occupy-Agrees :
      (stem : String) (binding : Option String) (found : Option ActiveSlot)
      → find is_free index.slots ≡ found
      → held_in index.slots stem ≡ none
      → Agrees (occupy index stem binding found) (admit (has_room index) stem binding (held index))
  unfolding Agrees has_room active held
  occupy-Agrees stem binding none e h = rw full refl
    where
      full : has_room index ≡ false
      full = ground (arith, full-occupied index.slots e consistent)
  occupy-Agrees stem binding (some slot) e h =
      rw free λ other. held-occupy stem binding index.slots slot other e h
    where
      free : has_room index ≡ true
      free = ground (arith, free-occupied index.slots slot e)

  occupy_free-Agrees :
      (stem : String) (binding : Option String)
      → held_in index.slots stem ≡ none
      → Agrees (occupy_free stem binding index) (admit (has_room index) stem binding (held index))
  unfolding occupy_free
  occupy_free-Agrees stem binding h = occupy-Agrees stem binding (find is_free index.slots) refl h

  reserve-Agrees :
      (stem binding : String) (entry : Option (Option String))
      → held_in index.slots stem ≡ entry
      → Agrees
          (reserve_as (entry_reservation entry binding) stem binding index)
          (reserve_table (has_room index) stem binding (held index) entry)
  unfolding Agrees
  reserve-Agrees stem binding none h = occupy_free-Agrees stem (some binding) h
  reserve-Agrees stem binding (some none) h = refl
  reserve-Agrees stem binding (some (some other)) h = elim (Bool-cases (other == binding)) [
    | inl e ↦ rw e λ _. refl
    | inr e ↦ rw e refl
  ]

  bind-Agrees :
      (stem binding : String) (entry : Option (Option String))
      → held_in index.slots stem ≡ entry
      → Agrees
          (bind_as (entry_reservation entry binding) stem binding index)
          (bind_table stem binding (held index) entry)
  unfolding Agrees held
  bind-Agrees stem binding none h = refl
  bind-Agrees stem binding (some none) h = λ other. held-bind stem binding index.slots other λ e. cc
  bind-Agrees stem binding (some (some other)) h = elim (Bool-cases (other == binding)) [
    | inl e ↦ rw e λ _. refl
    | inr e ↦ rw e refl
  ]

  reserve_unbound-Agrees :
      (stem : String)
      → Agrees
          (reserve_unbound stem index)
          (promise (has_room index) (reserves_unbound stem) (held index))
  unfolding promise reserve_unbound holds held Agrees
  reserve_unbound-Agrees stem = elim (Option-cases (held_in index.slots stem)) [
    | inl e ↦ rw (held-any index.slots stem) (rw e (occupy_free-Agrees stem none e))
    | inr (entry, e) ↦ rw (held-any index.slots stem) (rw e λ _. refl)
  ]

  remove-held :
      (stem : String)
      → count (is_held_by stem) index.slots ≤ 1
      → (other : String) → held (remove stem index).1 other ≡ put stem none (held index) other
  unfolding remove holds held
  remove-held stem once other = elim (Option-cases (held_in index.slots stem)) [
    | inl e ↦ rw (held-any index.slots stem) (rw e (ground (arith, e, eq_iff stem other)))
    | inr (entry, e) ↦
        rw (held-any index.slots stem) (rw e (held-remove stem index.slots other once))
  ]

-- A probe moves no request.
pub return_to-slots :
    (index : ActiveIndex) (found : Option ℕ) → (return_to index found).slots ≡ index.slots
return_to-slots index none = refl
return_to-slots index (some at) = refl

pub advance-slots :
    (index : ActiveIndex) (selected : Option (ℕ × String))
    → (advance index selected).1.slots ≡ index.slots
advance-slots index none = refl
advance-slots index (some selected) = refl

-- Every operation on an index that `validate` accepts answers with the promised error, or leaves an
-- index that holds exactly what is promised.
pub perform-Agrees :
    (policy : ActiveIndexPolicy) (index : ActiveIndex) (op : Operation)
    → validate policy index ≡ ok tt
    → Agrees (perform op index) (promise (has_room index) op (held index))
unfolding perform promise reserve bind_unbound reservation held Agrees retry_next next_occupied
    IsDistinct
perform-Agrees policy index (reserves stem binding) v = elim (Bool-cases (valid_digest binding)) [
  | inl e ↦ rw e (
      rw (held-reservation index.slots stem binding)
        (reserve-Agrees index consistent stem binding (held index stem) refl))
  | inr e ↦ rw e refl
]
  where
    consistent : any slot_is_inconsistent index.slots ≡ false
    consistent = (validate-IsValid policy index v).2
perform-Agrees policy index (binds_unbound stem binding) v =
    elim (Bool-cases (valid_digest binding)) [
      | inl e ↦ rw e (
          rw (held-reservation index.slots stem binding)
            (bind-Agrees index consistent stem binding (held index stem) refl))
      | inr e ↦ rw e refl
    ]
  where
    consistent : any slot_is_inconsistent index.slots ≡ false
    consistent = (validate-IsValid policy index v).2
perform-Agrees policy index (reserves_unbound stem) v =
    reserve_unbound-Agrees index (validate-IsValid policy index v).2 stem
perform-Agrees policy index (removes stem) v =
    remove-held index (validate-IsValid policy index v).2 stem
      ((validate-IsValid policy index v).3 stem)
perform-Agrees policy index (retries stem) v = λ other.
    ap (λ slots. held_in slots other)
      (return_to-slots index (position (is_held_by stem) index.slots))
perform-Agrees policy index probes v = λ other.
    ap (λ slots. held_in slots other)
      (advance-slots index (select index.slots index.next_probe 0 (length index.slots) none))

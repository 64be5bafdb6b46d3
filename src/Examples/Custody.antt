-- ===== src/Examples/Custody.antt =====
-- Tests and examples of the request custody.
use agent_runner_opencode.Prelude.{
  eqb, if◌then◌else◌, Bool-cases, is_present, any, eq_of, String, ◌≡◌, refl, ap, inl, inr, true,
  false, none, some, [], ◌∷◌, arith, ◌==◌,
}
use agent_runner_opencode.Custody.Errors.{capacity, err, ok, valid_digest, all_new}
use agent_runner_opencode.Custody.Active.{
  empty_active_digest, empty_slot, ActiveIndex, fixed, validate, holds, reservation, taken_by,
  occupy_free, reserve, select, next_occupied, retry_next,
}
use agent_runner_opencode.Custody.Active.Valid.{reserves, perform, perform-validate}
use agent_runner_opencode.Custody.Active.Refined.{promise, Agrees, has_room, perform-Agrees}
use agent_runner_opencode.Custody.Active.Slots.{held}
use agent_runner_opencode.Custody.Active.Probing.{
  probes_of, is_answer, probes_of-fair, retry_next-next,
}
use agent_runner_opencode.Custody.Markers.{
  Markers, put_ticket, validate_marker, validate_maintenance, read_active_marker,
  write_active_marker, write_maintenance_index, enqueue_maintenance, marker_of, without_marker,
  remove_active_marker, probed_once, probe_maintenance,
}
use agent_runner_opencode.Custody.Markers.Queued.{IsQueued, written, queue_marker}
use agent_runner_opencode.Custody.Markers.Retained.{probe_maintenance_retained}
use agent_runner_opencode.Custody.Markers.Maintained.{probe_maintenance-IsQueued}

abbrev digest_a : String
digest_a = "aaaaaaaaaaaaaaaaaaaaaaaaaaaaaaaaaaaaaaaaaaaaaaaaaaaaaaaaaaaaaaaa"

abbrev digest_b : String
digest_b = "bbbbbbbbbbbbbbbbbbbbbbbbbbbbbbbbbbbbbbbbbbbbbbbbbbbbbbbbbbbbbbbb"

abbrev digest_c : String
digest_c = "cccccccccccccccccccccccccccccccccccccccccccccccccccccccccccccccc"

-- A free slot, a bound request and an unbound one, which the probe is at.
abbrev index : ActiveIndex
index = record {
  next_probe = 2;
  slots = empty_slot ∷ taken_by digest_a (some digest_b) ∷ taken_by digest_c none ∷ [];
}

abbrev index_after : ActiveIndex
index_after = record {
  next_probe = 2;
  slots =
      taken_by digest_b (some digest_a)
      ∷ taken_by digest_a (some digest_b)
      ∷ taken_by digest_c none
      ∷ [];
}

index_valid : validate (fixed 3) index ≡ ok tt
unfolding validate valid_digest all_new
index_valid = refl

-- A third request takes the free slot, and a fourth finds none.
reserve_takes : reserve digest_b digest_a index ≡ ok index_after
unfolding reserve valid_digest reservation occupy_free
reserve_takes = refl

reserve_full : reserve empty_active_digest digest_a index_after ≡ err capacity
unfolding reserve valid_digest reservation occupy_free
reserve_full = refl

probes_wrap : probes_of 3 index ≡ some digest_c ∷ some digest_a ∷ some digest_c ∷ []
unfolding probes_of next_occupied select
probes_wrap = refl

perform-Agrees_example :
    Agrees
      (perform (reserves digest_b digest_a) index)
      (promise (has_room index) (reserves digest_b digest_a) (held index))
perform-Agrees_example = perform-Agrees (fixed 3) index (reserves digest_b digest_a) index_valid

perform-validate_example : validate (fixed 3) index_after ≡ ok tt
unfolding perform valid_digest
perform-validate_example =
    perform-validate (fixed 3) index index_after (reserves digest_b digest_a) index_valid refl
      reserve_takes

probes_of-fair_example : any (is_answer digest_a) (probes_of 3 index) ≡ true
unfolding holds
probes_of-fair_example = probes_of-fair (fixed 3) index digest_a index_valid refl

retry_next-next_example : (next_occupied (retry_next digest_a index)).0 ≡ some digest_a
unfolding holds
retry_next-next_example = retry_next-next index digest_a refl

-- A request in the queue at number 1; number 0 has no ticket.
abbrev queue : Markers
queue = record {
  markers = λ stem. if digest_a == stem then some (marker_of digest_b 1) else none;
  tickets = λ sequence. if eqb 1 sequence then some digest_a else none;
  index = record { next_probe = 0; next_sequence = 2 };
}

queue-IsQueued : IsQueued queue
unfolding IsQueued
queue-IsQueued = (
  omega arith,
  λ stem marker e d. elim (Bool-cases (digest_a == stem)) [
    | inl same ↦ ground (
      arith,
      ap (λ m. m.maintenance_sequence)
          (written (digest_a == stem) none (marker_of digest_b 1) marker same e),
      eq_of digest_a stem same,
    )
    | inr differs ↦ ground (arith, e, differs)
  ],
)

abbrev queue_after : Markers
queue_after =
    without_marker digest_a (some (marker_of digest_b 1)) (probed_once (probed_once queue))

-- Maintenance passes over number 0 and retires the request at number 1.
maintain_retires : probe_maintenance (λ _. ok true) 16 queue ≡ ok queue_after
unfolding probe_maintenance valid_digest read_active_marker validate_marker remove_active_marker
maintain_retires = refl

probe_maintenance-IsQueued_example : IsQueued queue_after
probe_maintenance-IsQueued_example =
    probe_maintenance-IsQueued (λ _. ok true) 16 queue queue_after queue-IsQueued maintain_retires

abbrev queue_requeued : Markers
queue_requeued =
    put_ticket 1 none
      (queue_marker digest_a (marker_of digest_b 2) (probed_once (probed_once queue)))

-- A request that is not retired goes to the end of the queue.
maintain_requeues : probe_maintenance (λ _. ok false) 16 queue ≡ ok queue_requeued
unfolding probe_maintenance valid_digest read_active_marker validate_marker enqueue_maintenance
    write_active_marker write_maintenance_index validate_maintenance
maintain_requeues = refl

probe_maintenance_retained_example : is_present (queue_requeued.markers digest_a) ≡ true
probe_maintenance_retained_example =
    probe_maintenance_retained (λ _. ok false) digest_a (λ e. cc) 16 queue queue_requeued
      maintain_requeues refl

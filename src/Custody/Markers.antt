-- ===== src/Custody/Markers.antt =====
-- src/request_custody.rs: the custody of the distributed policy, one marker for each request, and the
-- maintenance queue of tickets. The files are maps whose writes take place; what is done to the request
-- that a probe finds, the replay ring's and the lock files' part, is an argument.
pub mod Queued
pub mod Maintained
pub mod Retained
use agent_runner_opencode.Prelude.{
  ltb, leb, eqb, if◌then◌else◌, ℕ, zero, suc, ◌+◌, ◌-◌, ◌^◌, String, Bool, true, false, ◌||◌, not,
  Option, none, some, ◌==◌,
}
use agent_runner_opencode.Custody.Errors.{
  invalid, CustodyResult, err, ok, refuse_when, and_then, valid_digest,
}
use agent_runner_opencode.Custody.Active.{
  ActiveReservation, absent, matching, unbound, conflicting, is_some_invalid, compare_binding,
}

pub record ActiveMarker : Type 0 where
  pub binding_sha256 : Option String
  pub maintenance_sequence : ℕ

pub record MaintenanceIndex : Type 0 where
  pub next_probe : ℕ
  pub next_sequence : ℕ

-- The marker files, the ticket files with the request each names, and the maintenance index.
pub record Markers : Type 0 where
  pub markers : String → Option ActiveMarker
  pub tickets : ℕ → Option String
  pub index : MaintenanceIndex

-- `u64::MAX`.
abbrev pub direct_maintenance_sequence : ℕ
direct_maintenance_sequence = 2 ^ 64 - 1

abbrev pub max_active_maintenance_probes : ℕ
max_active_maintenance_probes = 16

abbrev pub put_marker : String → Option ActiveMarker → Markers → Markers
put_marker stem marker store = record store {
  markers = λ other. if stem == other then marker else store.markers other;
}

abbrev pub put_ticket : ℕ → Option String → Markers → Markers
put_ticket sequence ticket store = record store {
  tickets = λ other. if eqb sequence other then ticket else store.tickets other;
}

abbrev pub empty_maintenance : MaintenanceIndex
empty_maintenance = record { next_probe = 0; next_sequence = 0 }

unfoldable pub validate_marker : ActiveMarker → CustodyResult (Unit {0})
validate_marker marker = refuse_when (is_some_invalid marker.binding_sha256) invalid

unfoldable pub validate_maintenance : MaintenanceIndex → CustodyResult (Unit {0})
validate_maintenance index = refuse_when (ltb index.next_sequence index.next_probe) invalid

unfoldable pub marker_reservation : ActiveMarker → String → ActiveReservation
marker_reservation marker binding = compare_binding marker.binding_sha256 binding

abbrev pub validated_marker : Option ActiveMarker → CustodyResult (Option ActiveMarker)
validated_marker none = ok none
validated_marker (some marker) = and_then (validate_marker marker) λ _. ok (some marker)

unfoldable pub read_active_marker : String → Markers → CustodyResult (Option ActiveMarker)
read_active_marker stem store =
    and_then (refuse_when (not (valid_digest stem)) invalid)
      λ _. validated_marker (store.markers stem)

unfoldable pub write_active_marker : String → ActiveMarker → Markers → CustodyResult Markers
write_active_marker stem marker store =
    and_then (refuse_when (not (valid_digest stem)) invalid)
      λ _. and_then (validate_marker marker) λ _. ok (put_marker stem (some marker) store)

unfoldable pub read_maintenance_index : Markers → CustodyResult MaintenanceIndex
read_maintenance_index store = and_then (validate_maintenance store.index) λ _. ok store.index

unfoldable pub write_maintenance_index : MaintenanceIndex → Markers → CustodyResult Markers
write_maintenance_index index store =
    and_then (validate_maintenance index) λ _. ok (record store { index = index })

-- The ticket is written before the index that counts it.
unfoldable pub enqueue_maintenance : String → Markers → CustodyResult (ℕ × Markers)
enqueue_maintenance stem store =
    let sequence = store.index.next_sequence in
    and_then
      (refuse_when (not (valid_digest stem) || eqb sequence direct_maintenance_sequence) invalid)
      λ _.
        and_then
          (write_maintenance_index
            (record { next_probe = store.index.next_probe; next_sequence = sequence + 1 })
            (put_ticket sequence (some stem) store))
          λ written. ok (sequence, written)

abbrev pub marker_of : String → ℕ → ActiveMarker
marker_of binding sequence = record {
  binding_sha256 = some binding;
  maintenance_sequence = sequence;
}

-- What a reservation does with the marker that is there.
abbrev pub settle_marker :
    Option ActiveMarker → String → Markers → CustodyResult Markers → CustodyResult Markers
settle_marker none binding store publish = publish
settle_marker (some marker) binding store publish = elim (marker_reservation marker binding) [
  | matching ↦ ok store
  | unbound ↦ err invalid
  | conflicting ↦ err invalid
  | absent ↦ err invalid
]

abbrev pub publish_queued : String → String → Markers → CustodyResult Markers
publish_queued stem binding store = and_then (read_maintenance_index store) λ _.
    and_then (enqueue_maintenance stem store)
      λ queued. write_active_marker stem (marker_of binding queued.0) queued.1

unfoldable pub reserve_active_marker : String → String → Markers → CustodyResult Markers
reserve_active_marker stem binding store =
    and_then (refuse_when (not (valid_digest binding)) invalid) λ _.
      and_then (read_active_marker stem store)
        λ found. settle_marker found binding store (publish_queued stem binding store)

unfoldable pub reserve_independent_active_marker : String → String → Markers → CustodyResult Markers
reserve_independent_active_marker stem binding store =
    and_then (refuse_when (not (valid_digest binding)) invalid) λ _.
      and_then (read_active_marker stem store) λ found.
        settle_marker found binding store
          (write_active_marker stem (marker_of binding direct_maintenance_sequence) store)

-- The marker goes, and its ticket with it if it is in the queue.
abbrev pub without_marker : String → Option ActiveMarker → Markers → Markers
without_marker stem none store = store
without_marker stem (some marker) store =
    let removed = put_marker stem none store in
    if eqb marker.maintenance_sequence direct_maintenance_sequence
    then removed
    else put_ticket marker.maintenance_sequence none removed

unfoldable pub remove_active_marker : String → Markers → CustodyResult Markers
remove_active_marker stem store =
    and_then (read_active_marker stem store) λ found. ok (without_marker stem found store)

abbrev pub read_maintenance_ticket : ℕ → Markers → CustodyResult (Option String)
read_maintenance_ticket sequence store = elim (store.tickets sequence) [
  | none ↦ ok none
  | some stem ↦ if valid_digest stem then ok (some stem) else err invalid
]

-- The end of a probe that found its request: it is retired, or goes to the end of the queue.
abbrev pub retire_or_requeue : Bool → String → ActiveMarker → ℕ → Markers → CustodyResult Markers
retire_or_requeue true stem marker sequence store = remove_active_marker stem store
retire_or_requeue false stem marker sequence store =
    and_then (enqueue_maintenance stem store) λ queued.
      and_then
        (write_active_marker stem (record marker { maintenance_sequence = queued.0 }) queued.1)
        λ written. ok (put_ticket sequence none written)

abbrev pub visit_marker :
    (String → CustodyResult Bool)
    → Option ActiveMarker
    → String
    → ℕ
    → Markers
    → CustodyResult Markers
visit_marker settled none stem sequence store = ok (put_ticket sequence none store)
visit_marker settled (some marker) stem sequence store =
    if eqb marker.maintenance_sequence sequence
    then and_then (settled stem) (λ retired. retire_or_requeue retired stem marker sequence store)
    else ok (put_ticket sequence none store)

abbrev pub probed_once : Markers → Markers
probed_once store = record store {
  index = record {
    next_probe = store.index.next_probe + 1;
    next_sequence = store.index.next_sequence;
  };
}

abbrev pub visit_ticket :
    (String → CustodyResult Bool)
    → Option String
    → ℕ
    → Markers
    → CustodyResult Markers
    → CustodyResult Markers
visit_ticket settled none sequence store rest = rest
visit_ticket settled (some stem) sequence store rest =
    and_then (read_active_marker stem store) λ found. visit_marker settled found stem sequence store

-- The loop of `maintain_distributed`: it passes over numbers without a ticket.
unfoldable pub probe_maintenance :
    (String → CustodyResult Bool) → ℕ → Markers → CustodyResult Markers
probe_maintenance settled zero store = ok store
probe_maintenance settled (suc probes) store =
    let sequence = store.index.next_probe in
    let rest = probe_maintenance settled probes (probed_once store) in
    if leb store.index.next_sequence sequence
    then ok store
    else and_then (read_maintenance_ticket sequence store)
        λ ticket. visit_ticket settled ticket sequence (probed_once store) rest

unfoldable pub maintain_distributed :
    (String → CustodyResult Bool) → Markers → CustodyResult Markers
maintain_distributed settled store =
    and_then (read_maintenance_index store)
      λ _. probe_maintenance settled max_active_maintenance_probes store

-- ===== src/Custody/Markers/Queued.antt =====
-- src/request_custody.rs: each marker in the maintenance queue keeps a ticket ahead of the probe, whatever
-- is reserved or removed.
use mathlib.Core.Bool.{true≢false}
use agent_runner_opencode.Prelude.{
  leb, eqb, if◌then◌else◌, Bool-cases, eq_of, ℕ, ◌+◌, ◌≤◌, ◌<◌, String, ◌≡◌, refl, sym, ap, ◌∙◌,
  subst, inl, inr, Bool, true, false, not, Option, none, some, arith, ◌==◌, eq_iff,
}
use agent_runner_opencode.Custody.Markers.{
  ActiveMarker, Markers, direct_maintenance_sequence, put_marker, put_ticket, validate_marker,
  validate_maintenance, read_active_marker, write_active_marker, read_maintenance_index,
  write_maintenance_index, enqueue_maintenance, marker_of, settle_marker, publish_queued,
  reserve_active_marker, reserve_independent_active_marker, without_marker, remove_active_marker,
  probed_once,
}
use agent_runner_opencode.Custody.Errors.{
  invalid, CustodyResult, ok, refuse_when, valid_digest, ok_inj, and_then-eq-ok,
}

-- A marker that is in the queue has a ticket with its request, between the probe and the next number.
unfoldable pub IsQueued : Markers → Type 0
IsQueued store =
    (store.index.next_probe ≤ store.index.next_sequence)
    × ((stem : String) (marker : ActiveMarker)
        → store.markers stem ≡ some marker
        → eqb marker.maintenance_sequence direct_maintenance_sequence ≡ false
        → (store.index.next_probe ≤ marker.maintenance_sequence)
          × (marker.maintenance_sequence < store.index.next_sequence)
          × (store.tickets marker.maintenance_sequence ≡ some stem))

-- No marker in the queue has the number.
abbrev pub Unqueued : ℕ → Markers → Type 0
Unqueued sequence store =
    (stem : String) (marker : ActiveMarker)
    → store.markers stem ≡ some marker
    → eqb marker.maintenance_sequence direct_maintenance_sequence ≡ false
    → eqb marker.maintenance_sequence sequence ≡ false

pub some-eq : (a b : ActiveMarker) → some a ≡ some b → a ≡ b
some-eq a b h = cc

pub written :
    (b : Bool) (kept : Option ActiveMarker) (new marker : ActiveMarker)
    → b ≡ true
    → (if b then some new else kept) ≡ some marker
    → new ≡ marker
written b kept new marker same e = some-eq new marker (ground (arith, same, e))

-- The store after a ticket and its marker are written under the next number.
abbrev pub queue_marker : String → ActiveMarker → Markers → Markers
queue_marker stem new store =
    put_marker stem (some new) (record (put_ticket store.index.next_sequence (some stem) store) {
      index = record {
        next_probe = store.index.next_probe;
        next_sequence = store.index.next_sequence + 1;
      };
    })

module _ (store : Markers) (queued : IsQueued store) where
  -- A ticket that no marker needs may go.
  pub drop_ticket-IsQueued :
      (sequence : ℕ) → Unqueued sequence store → IsQueued (put_ticket sequence none store)
  unfolding IsQueued
  drop_ticket-IsQueued sequence free =
      (queued.0, λ stem marker e d. ground (arith, queued.1 stem marker e d, free stem marker e d))

  pub drop_marker-IsQueued : (stem : String) → IsQueued (put_marker stem none store)
  unfolding IsQueued
  drop_marker-IsQueued stem =
      (queued.0, λ other marker e d. ground (arith, e, d, queued.1 other marker))

  -- A marker outside the queue may be written.
  put_direct-IsQueued :
      (stem : String) (new : ActiveMarker)
      → eqb new.maintenance_sequence direct_maintenance_sequence ≡ true
      → IsQueued (put_marker stem (some new) store)
  unfolding IsQueued
  put_direct-IsQueued stem new direct = (
    queued.0,
    λ other marker e d. elim (Bool-cases (stem == other)) [
      | inl same ↦ absurd (
          true≢false (
            sym direct
            ∙ ap (λ m. eqb m.maintenance_sequence direct_maintenance_sequence)
                (written (stem == other) (store.markers other) new marker same e)
            ∙ d))
      | inr differs ↦ ground (arith, e, d, differs, queued.1 other marker)
    ],
  )

  -- The probe may pass a number that no marker has.
  pub probed_once-IsQueued :
      leb store.index.next_sequence store.index.next_probe ≡ false
      → Unqueued store.index.next_probe store
      → IsQueued (probed_once store)
  unfolding IsQueued
  probed_once-IsQueued more free = (
    ground (arith, more),
    λ stem marker e d. ground (arith, queued.1 stem marker e d, free stem marker e d),
  )

  pub queue_marker-IsQueued :
      (stem : String) (new : ActiveMarker)
      → new.maintenance_sequence ≡ store.index.next_sequence
      → IsQueued (queue_marker stem new store)
  unfolding IsQueued
  queue_marker-IsQueued stem new number = (
    ground (arith, queued.0),
    λ other marker e d. elim (Bool-cases (stem == other)) [
      | inl same ↦ ground (
        arith,
        queued.0,
        number,
        ap (λ m. m.maintenance_sequence)
            (written (stem == other) (store.markers other) new marker same e),
        eq_of stem other same,
      )
      | inr differs ↦ ground (arith, e, d, differs, queued.1 other marker)
    ],
  )

  publish_queued-IsQueued :
      (stem binding : String) (after : Markers)
      → publish_queued stem binding store ≡ ok after
      → IsQueued after
  unfolding enqueue_maintenance read_maintenance_index write_maintenance_index validate_maintenance
      write_active_marker
  publish_queued-IsQueued stem binding after h =
      subst IsQueued (ground (arith, h))
        (queue_marker-IsQueued stem (marker_of binding store.index.next_sequence) refl)

  settled :
      (found : Option ActiveMarker) (binding : String) (after : Markers)
      (publish : CustodyResult Markers)
      → ((after : Markers) → publish ≡ ok after → IsQueued after)
      → settle_marker found binding store publish ≡ ok after
      → IsQueued after
  settled none binding after publish published h = published after h
  settled (some marker) binding after publish published h =
      subst IsQueued (ground (arith, h)) queued

  pub reserve_active_marker-IsQueued :
      (stem binding : String) (after : Markers)
      → reserve_active_marker stem binding store ≡ ok after
      → IsQueued after
  unfolding reserve_active_marker
  reserve_active_marker-IsQueued stem binding after h =
      let (_u, a, h1) = and_then-eq-ok (refuse_when (not (valid_digest binding)) invalid) _ h in
      let (found, b, h2) = and_then-eq-ok (read_active_marker stem store) _ h1 in
      settled found binding after (publish_queued stem binding store)
        (publish_queued-IsQueued stem binding) h2

  pub reserve_independent_active_marker-IsQueued :
      (stem binding : String) (after : Markers)
      → reserve_independent_active_marker stem binding store ≡ ok after
      → IsQueued after
  unfolding reserve_independent_active_marker write_active_marker
  reserve_independent_active_marker-IsQueued stem binding after h =
      let (_u, a, h1) = and_then-eq-ok (refuse_when (not (valid_digest binding)) invalid) _ h in
      let (found, b, h2) = and_then-eq-ok (read_active_marker stem store) _ h1 in
      settled found binding after
        (write_active_marker stem (marker_of binding direct_maintenance_sequence) store)
        (λ after e.
          subst IsQueued (ground (arith, e))
            (put_direct-IsQueued stem (marker_of binding direct_maintenance_sequence) refl))
        h2

pub read_active_marker-found :
    (stem : String) (store : Markers) (found : Option ActiveMarker)
    → read_active_marker stem store ≡ ok found
    → found ≡ store.markers stem
unfolding read_active_marker validate_marker
read_active_marker-found stem store found h = ground (arith, h)

-- Two markers of the queue with one number are one.
module _ (store : Markers) (queued : IsQueued store) where
  pub one_number :
      (stem other : String) (marker : ActiveMarker) (sequence : ℕ)
      → store.tickets sequence ≡ some stem
      → store.markers other ≡ some marker
      → eqb marker.maintenance_sequence direct_maintenance_sequence ≡ false
      → eqb marker.maintenance_sequence sequence ≡ true
      → (stem == other) ≡ true
  unfolding IsQueued
  one_number stem other marker sequence t e d same =
      ground (arith, t, e, d, same, queued.1 other marker e d, eq_iff stem other)

  -- Once a ticket's marker has gone, no marker has its number.
  pub removed-Unqueued :
      (stem : String) (sequence : ℕ)
      → store.tickets sequence ≡ some stem
      → Unqueued sequence (put_marker stem none store)
  removed-Unqueued stem sequence t other marker e d =
      elim (Bool-cases (eqb marker.maintenance_sequence sequence)) [
        | inr free ↦ free
        | inl same ↦ elim (Bool-cases (stem == other)) [
          | inl here ↦ ground (arith, e, here)
          | inr there ↦ absurd (
              true≢false (
                sym (one_number stem other marker sequence t (ground (arith, e, there)) d same)
                ∙ there))
        ]
      ]

  without_marker-IsQueued :
      (stem : String) (found : Option ActiveMarker)
      → found ≡ store.markers stem
      → IsQueued (without_marker stem found store)
  unfolding IsQueued
  without_marker-IsQueued stem none e = queued
  without_marker-IsQueued stem (some marker) e =
      elim (Bool-cases (eqb marker.maintenance_sequence direct_maintenance_sequence)) [
        | inl direct ↦ rw direct (drop_marker-IsQueued store queued stem)
        | inr d ↦ rw d (
            drop_ticket-IsQueued (put_marker stem none store)
              (drop_marker-IsQueued store queued stem) marker.maintenance_sequence
              (removed-Unqueued stem marker.maintenance_sequence
                (queued.1 stem marker (sym e) d).2))
      ]

  pub remove_active_marker-IsQueued :
      (stem : String) (after : Markers)
      → remove_active_marker stem store ≡ ok after
      → IsQueued after
  unfolding remove_active_marker
  remove_active_marker-IsQueued stem after h =
      let (found, a, h1) = and_then-eq-ok (read_active_marker stem store) _ h in
      subst IsQueued (ok_inj h1)
        (without_marker-IsQueued stem found (read_active_marker-found stem store found a))

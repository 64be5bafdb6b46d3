-- ===== src/Custody/Markers/Maintained.antt =====
-- src/request_custody.rs: `maintain_distributed` keeps the tickets of the queue ahead of the probe,
-- whatever becomes of the request it finds.
use mathlib.Core.Bool.{true≢false}
use agent_runner_opencode.Prelude.{
  leb, eqb, if◌then◌else◌, Bool-cases, eq_of, ℕ, zero, suc, String, ◌≡◌, refl, sym, ap, ◌∙◌, subst,
  inl, inr, Bool, true, false, Option, none, some, arith, ◌==◌,
}
use agent_runner_opencode.Custody.Errors.{CustodyResult, ok, ok_inj, and_then-eq-ok}
use agent_runner_opencode.Custody.Markers.{
  ActiveMarker, Markers, direct_maintenance_sequence, put_marker, put_ticket, validate_maintenance,
  read_active_marker, write_active_marker, read_maintenance_index, write_maintenance_index,
  enqueue_maintenance, without_marker, remove_active_marker, read_maintenance_ticket,
  retire_or_requeue, visit_marker, probed_once, visit_ticket, probe_maintenance,
}
use agent_runner_opencode.Custody.Markers.Queued.{
  IsQueued, Unqueued, some-eq, written, queue_marker, drop_ticket-IsQueued, drop_marker-IsQueued,
  probed_once-IsQueued, queue_marker-IsQueued, read_active_marker-found, one_number,
  removed-Unqueued,
}

pub if-true :
    (b : Bool) (x y : CustodyResult Markers) {after : Markers}
    → b ≡ true
    → (if b then x else y) ≡ ok after
    → x ≡ ok after
if-true b x y e h = ground (arith, e, h)

pub if-false :
    (b : Bool) (x y : CustodyResult Markers) {after : Markers}
    → b ≡ false
    → (if b then x else y) ≡ ok after
    → y ≡ ok after
if-false b x y e h = ground (arith, e, h)

read_maintenance_ticket-found :
    (sequence : ℕ) (store : Markers) (ticket : Option String)
    → read_maintenance_ticket sequence store ≡ ok ticket
    → ticket ≡ store.tickets sequence
read_maintenance_ticket-found sequence store ticket h = ground (arith, h)

module _ (store : Markers) (queued : IsQueued store)
    (more : leb store.index.next_sequence store.index.next_probe ≡ false) where
  -- The number of the probe is free if no marker has it, whose request its ticket may name.
  probe-Unqueued :
      (stem : String)
      → store.tickets store.index.next_probe ≡ some stem
      → ((marker : ActiveMarker)
          → store.markers stem ≡ some marker
          → eqb marker.maintenance_sequence store.index.next_probe ≡ false)
      → Unqueued store.index.next_probe store
  probe-Unqueued stem t free other marker e d =
      elim (Bool-cases (eqb marker.maintenance_sequence store.index.next_probe)) [
        | inr unqueued ↦ unqueued
        | inl same ↦ free marker (
            ap store.markers (
              eq_of stem other
                (one_number store queued stem other marker store.index.next_probe t e d same))
            ∙ e)
      ]

  passed-IsQueued :
      Unqueued store.index.next_probe store
      → IsQueued (put_ticket store.index.next_probe none (probed_once store))
  passed-IsQueued free =
      probed_once-IsQueued (put_ticket store.index.next_probe none store)
        (drop_ticket-IsQueued store queued store.index.next_probe free) more free

  without-IsQueued :
      (stem : String)
      → store.tickets store.index.next_probe ≡ some stem
      → (found : Option ActiveMarker) → found ≡ store.markers stem
      → IsQueued (without_marker stem found (probed_once store))
  unfolding IsQueued
  without-IsQueued stem t none e =
      probed_once-IsQueued store queued more (probe-Unqueued stem t λ marker m. cc)
  without-IsQueued stem t (some marker) e =
      elim (Bool-cases (eqb marker.maintenance_sequence direct_maintenance_sequence)) [
        | inl direct ↦ rw direct (
            probed_once-IsQueued (put_marker stem none store)
              (drop_marker-IsQueued store queued stem) more
              (removed-Unqueued store queued stem store.index.next_probe t))
        | inr d ↦ rw d (
            probed_once-IsQueued
              (put_ticket marker.maintenance_sequence none (put_marker stem none store))
              (drop_ticket-IsQueued (put_marker stem none store)
                (drop_marker-IsQueued store queued stem) marker.maintenance_sequence
                (removed-Unqueued store queued stem marker.maintenance_sequence
                  (queued.1 stem marker (sym e) d).2))
              more (removed-Unqueued store queued stem store.index.next_probe t))
      ]

  retired-IsQueued :
      (stem : String) (after : Markers)
      → store.tickets store.index.next_probe ≡ some stem
      → remove_active_marker stem (probed_once store) ≡ ok after
      → IsQueued after
  unfolding remove_active_marker
  retired-IsQueued stem after t h =
      let (found, a, h1) = and_then-eq-ok (read_active_marker stem (probed_once store)) _ h in
      subst IsQueued (ok_inj h1)
        (without-IsQueued stem t found (read_active_marker-found stem (probed_once store) found a))

  requeued-IsQueued :
      (stem : String) (marker : ActiveMarker) (after : Markers)
      → store.tickets store.index.next_probe ≡ some stem
      → retire_or_requeue false stem marker store.index.next_probe (probed_once store) ≡ ok after
      → IsQueued after
  unfolding enqueue_maintenance read_maintenance_index write_maintenance_index validate_maintenance
      write_active_marker
  requeued-IsQueued stem marker after t h =
      subst IsQueued
        {x = put_ticket store.index.next_probe none (queue_marker stem new (probed_once store))}
        (ground (arith, h))
        (probed_once-IsQueued (put_ticket store.index.next_probe none (queue_marker stem new store))
          (drop_ticket-IsQueued (queue_marker stem new store)
            (queue_marker-IsQueued store queued stem new refl) store.index.next_probe free)
          (ground (arith, more)) free)
    where
      new : ActiveMarker
      new = record marker { maintenance_sequence = store.index.next_sequence }

      free : Unqueued store.index.next_probe (queue_marker stem new store)
      free other found e d = elim (Bool-cases (stem == other)) [
        | inl here ↦ ground (
          arith,
          more,
          ap (λ m. m.maintenance_sequence)
              (written (stem == other) (store.markers other) new found here e),
        )
        | inr there ↦ elim (Bool-cases (eqb found.maintenance_sequence store.index.next_probe)) [
          | inr unqueued ↦ unqueued
          | inl same ↦ absurd (
              true≢false (
                sym (
                  one_number store queued stem other found store.index.next_probe t
                    (ground (arith, e, there)) d same)
                ∙ there))
        ]
      ]

  settled-IsQueued :
      (retired : Bool) (stem : String) (marker : ActiveMarker) (after : Markers)
      → store.tickets store.index.next_probe ≡ some stem
      → retire_or_requeue retired stem marker store.index.next_probe (probed_once store) ≡ ok after
      → IsQueued after
  settled-IsQueued true stem marker after t h = retired-IsQueued stem after t h
  settled-IsQueued false stem marker after t h = requeued-IsQueued stem marker after t h

  visited-IsQueued :
      (settled : String → CustodyResult Bool) (stem : String) (found : Option ActiveMarker)
      (after : Markers)
      → store.tickets store.index.next_probe ≡ some stem
      → found ≡ store.markers stem
      → visit_marker settled found stem store.index.next_probe (probed_once store) ≡ ok after
      → IsQueued after
  visited-IsQueued settled stem none after t e h =
      subst IsQueued (ok_inj h) (passed-IsQueued (probe-Unqueued stem t λ marker m. cc))
  visited-IsQueued settled stem (some marker) after t e h =
      elim (Bool-cases (eqb marker.maintenance_sequence store.index.next_probe)) [
        | inr differs ↦ subst IsQueued (ok_inj (if-false _ _ _ differs h)) (
            passed-IsQueued (
              probe-Unqueued stem t λ other m.
                subst (λ o. eqb o.maintenance_sequence store.index.next_probe ≡ false)
                  (some-eq marker other (e ∙ m)) differs))
        | inl same ↦
            let (retired, a, h1) = and_then-eq-ok (settled stem) _ (if-true _ _ _ same h) in
            settled-IsQueued retired stem marker after t h1
      ]

  unticketed-Unqueued :
      none ≡ store.tickets store.index.next_probe → Unqueued store.index.next_probe store
  unfolding IsQueued
  unticketed-Unqueued t stem marker e d =
      elim (Bool-cases (eqb marker.maintenance_sequence store.index.next_probe)) [
        | inr unqueued ↦ unqueued
        | inl same ↦ ground (arith, same, t, queued.1 stem marker e d)
      ]

  ticket-IsQueued :
      (settled : String → CustodyResult Bool) (rest : CustodyResult Markers) (after : Markers)
      → (IsQueued (probed_once store) → rest ≡ ok after → IsQueued after)
      → (ticket : Option String) → ticket ≡ store.tickets store.index.next_probe
      → visit_ticket settled ticket store.index.next_probe (probed_once store) rest ≡ ok after
      → IsQueued after
  ticket-IsQueued settled rest after later none t h =
      later (probed_once-IsQueued store queued more (unticketed-Unqueued t)) h
  ticket-IsQueued settled rest after later (some stem) t h =
      let (found, a, h1) = and_then-eq-ok (read_active_marker stem (probed_once store)) _ h in
      visited-IsQueued settled stem found after (sym t)
        (read_active_marker-found stem (probed_once store) found a) h1

-- If each marker of the queue has its ticket ahead of the probe, this holds after maintenance too,
-- whatever the outcomes of the requests and however many numbers have no ticket.
pub probe_maintenance-IsQueued :
    (settled : String → CustodyResult Bool) (probes : ℕ) (store after : Markers)
    → IsQueued store
    → probe_maintenance settled probes store ≡ ok after
    → IsQueued after
unfolding probe_maintenance
probe_maintenance-IsQueued settled zero store after queued h = subst IsQueued (ok_inj h) queued
probe_maintenance-IsQueued settled (suc probes) store after queued h =
    elim (Bool-cases (leb store.index.next_sequence store.index.next_probe)) [
      | inl done ↦ subst IsQueued (ok_inj (if-true _ _ _ done h)) queued
      | inr more ↦
          let (ticket, a, h1) =
            and_then-eq-ok (read_maintenance_ticket store.index.next_probe store) _
              (if-false _ _ _ more h) in
          ticket-IsQueued store queued more settled
            (probe_maintenance settled probes (probed_once store)) after
            (λ q e. probe_maintenance-IsQueued settled probes (probed_once store) after q e) ticket
            (read_maintenance_ticket-found store.index.next_probe store ticket a) h1
    ]

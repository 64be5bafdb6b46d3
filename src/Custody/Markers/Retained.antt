-- ===== src/Custody/Markers/Retained.antt =====
-- src/request_custody.rs: `maintain_distributed` gives up no request but one that it retires.
use agent_runner_opencode.Prelude.{
  leb, eqb, Bool-cases, is_present, eq_of, ℕ, zero, suc, String, ◌≡◌, subst, ◌≢◌, inl, inr, Bool,
  true, false, Option, none, some, arith, ◌==◌,
}
use agent_runner_opencode.Custody.Errors.{CustodyResult, ok, ok_inj, and_then-eq-ok}
use agent_runner_opencode.Custody.Markers.{
  ActiveMarker, Markers, direct_maintenance_sequence, put_ticket, validate_maintenance,
  read_active_marker, write_active_marker, read_maintenance_index, write_maintenance_index,
  enqueue_maintenance, without_marker, remove_active_marker, read_maintenance_ticket,
  retire_or_requeue, visit_marker, probed_once, visit_ticket, probe_maintenance,
}
use agent_runner_opencode.Custody.Markers.Queued.{queue_marker}
use agent_runner_opencode.Custody.Markers.Maintained.{if-true, if-false}

module _ (settled : String → CustodyResult Bool) (stem : String)
    (unretired : settled stem ≢ ok true) where
  abbrev Keeps : Markers → Markers → Type 0
  Keeps store after =
      is_present (store.markers stem) ≡ true → is_present (after.markers stem) ≡ true

  without-Keeps :
      (other : String) (found : Option ActiveMarker) (store : Markers)
      → (other == stem) ≡ false
      → Keeps store (without_marker other found store)
  without-Keeps other none store differs p = p
  without-Keeps other (some marker) store differs p =
      elim (Bool-cases (eqb marker.maintenance_sequence direct_maintenance_sequence)) [
        | inl direct ↦ rw direct (ground (arith, differs, p))
        | inr queued ↦ rw queued (ground (arith, differs, p))
      ]

  requeued-Keeps :
      (other : String) (marker : ActiveMarker) (sequence : ℕ) (store after : Markers)
      → retire_or_requeue false other marker sequence store ≡ ok after
      → Keeps store after
  unfolding enqueue_maintenance read_maintenance_index write_maintenance_index validate_maintenance
      write_active_marker
  requeued-Keeps other marker sequence store after h p =
      subst (λ end. is_present (end.markers stem) ≡ true) {y = after} (same h) (ground (arith, p))
    where
      end : Markers
      end = put_ticket sequence none (
          queue_marker other (record marker { maintenance_sequence = store.index.next_sequence })
            store)

      same : retire_or_requeue false other marker sequence store ≡ ok after → end ≡ after
      same e = ground (arith, e)

  settled-Keeps :
      (retired : Bool) (other : String) (marker : ActiveMarker) (sequence : ℕ)
      (store after : Markers)
      → settled other ≡ ok retired
      → retire_or_requeue retired other marker sequence store ≡ ok after
      → Keeps store after
  unfolding remove_active_marker
  settled-Keeps false other marker sequence store after a h p =
      requeued-Keeps other marker sequence store after h p
  settled-Keeps true other marker sequence store after a h p = elim (Bool-cases (other == stem)) [
    | inl same ↦ absurd (unretired (subst (λ s. settled s ≡ ok true) (eq_of other stem same) a))
    | inr differs ↦
        let (found, b, h1) = and_then-eq-ok (read_active_marker other store) _ h in
        subst (λ end. is_present (end.markers stem) ≡ true) (ok_inj h1)
          (without-Keeps other found store differs p)
  ]

  visited-Keeps :
      (found : Option ActiveMarker) (other : String) (sequence : ℕ) (store after : Markers)
      → visit_marker settled found other sequence store ≡ ok after
      → Keeps store after
  visited-Keeps none other sequence store after h p =
      subst (λ end. is_present (end.markers stem) ≡ true) (ok_inj h) p
  visited-Keeps (some marker) other sequence store after h p =
      elim (Bool-cases (eqb marker.maintenance_sequence sequence)) [
        | inr differs ↦
            subst (λ end. is_present (end.markers stem) ≡ true) (ok_inj (if-false _ _ _ differs h))
              p
        | inl same ↦
            let (retired, a, h1) = and_then-eq-ok (settled other) _ (if-true _ _ _ same h) in
            settled-Keeps retired other marker sequence store after a h1 p
      ]

  ticket-Keeps :
      (ticket : Option String) (sequence : ℕ) (store after : Markers) (rest : CustodyResult Markers)
      → (rest ≡ ok after → Keeps store after)
      → visit_ticket settled ticket sequence store rest ≡ ok after
      → Keeps store after
  ticket-Keeps none sequence store after rest later h = later h
  ticket-Keeps (some other) sequence store after rest later h =
      let (found, a, h1) = and_then-eq-ok (read_active_marker other store) _ h in
      visited-Keeps found other sequence store after h1

  -- A request whose marker is there before maintenance, and which is not settled to be retired, has a
  -- marker after it, whatever the number of probes and the outcomes of the other requests.
  pub probe_maintenance_retained :
      (probes : ℕ) (store after : Markers)
      → probe_maintenance settled probes store ≡ ok after
      → is_present (store.markers stem) ≡ true
      → is_present (after.markers stem) ≡ true
  unfolding probe_maintenance
  probe_maintenance_retained zero store after h p =
      subst (λ end. is_present (end.markers stem) ≡ true) (ok_inj h) p
  probe_maintenance_retained (suc probes) store after h p =
      elim (Bool-cases (leb store.index.next_sequence store.index.next_probe)) [
        | inl done ↦
            subst (λ end. is_present (end.markers stem) ≡ true) (ok_inj (if-true _ _ _ done h)) p
        | inr more ↦
            let (ticket, a, h1) =
              and_then-eq-ok (read_maintenance_ticket store.index.next_probe store) _
                (if-false _ _ _ more h) in
            ticket-Keeps ticket store.index.next_probe (probed_once store) after
              (probe_maintenance settled probes (probed_once store))
              (λ e. probe_maintenance_retained probes (probed_once store) after e) h1 p
      ]

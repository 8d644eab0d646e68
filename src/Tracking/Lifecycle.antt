-- ===== src/Tracking/Lifecycle.antt =====
-- src/model/signal_tracking.cpp: what a schedule promises, and what updates at rising times make of it.
use gnss_data_simulator.Prelude.{
  ◌≤◌, ◌≡◌, inl, inr, refl, subst, ◌∙◌, sym, ap, true, false, List, [], ◌∷◌, Option, some, none,
  arith,
}
use gnss_data_simulator.Prelude.Opt.{is_none}
use gnss_data_simulator.Prelude.Int.{
  ℤ, pos, ◌-ℤ◌, ◌+ℤ◌, ◌≤ℤ◌, ltb_ℤ, int_laws, IsInt64, magnitude, eq_of_parts,
}
use gnss_data_simulator.Double.{Double}
use gnss_data_simulator.Time.{SimTime, compare_sim_time, difference_time_ns}
use gnss_data_simulator.Time.Total.{IsNormal, total_ns, valid_normalized_time_iff}
use gnss_data_simulator.Time.Arithmetic.{difference_time_ns_iff, week_delta, max_week_delta}
use gnss_data_simulator.Time.Order.{compare-lt_zero}
use gnss_data_simulator.Signals.{SignalId, find_signal_definition}
use gnss_data_simulator.Signals.Lookup.{find_signal_definition_total}
use gnss_data_simulator.Tracking.Tracker.{SignalTracker, TrackingError}
use gnss_data_simulator.Tracking.Schedule.{Cn0Estimate}
use gnss_data_simulator.Tracking.Update.{
  while_searching, while_acquiring, while_tracking, with_lock_time, advance_phase,
  update_signal_tracker,
}
use gnss_data_simulator.Tracking.Windows.{
  IsScheduled, SameSchedule, InRange, Follows, SameSchedule-IsScheduled, searching-Follows,
  acquiring-Follows, tracking-Follows, reached-cases,
}

not_before : (a b : ℤ) → b ≤ℤ a → ltb_ℤ a b ≡ false
not_before a b h = ground arith

not_negative : (a b : ℤ) → b ≤ℤ a → ltb_ℤ (a -ℤ b) (pos 0) ≡ false
not_negative a b h = not_before (a -ℤ b) (pos 0) (omega int_laws)

minus_plus : (a b : ℤ) → a ≡ b +ℤ (a -ℤ b)
minus_plus a b = eq_of_parts a _ (omega int_laws)

abbrev pub last : SimTime → List SimTime → SimTime
last now [] = now
last now (t ∷ times) = last t times

signal_known :
    (F : Type 0) ⦃d : Double F⦄ (id : SignalId)
    → is_none (find_signal_definition {F = F} id) ≡ false
signal_known F id = let (s, e, _) = find_signal_definition_total {F = F} id in rw e refl

module _ {F : Type 0} ⦃d : Double F⦄ where
  -- The part of the update that follows the estimate is total.
  advance_phase-Follows :
      (tracker : SignalTracker F) (now : SimTime)
      → IsScheduled tracker
      → IsNormal now
      → total_ns tracker.state_since ≤ℤ total_ns now
      → (total_ns tracker.acquisition_complete_time ≤ℤ total_ns now → InRange tracker now)
      → (next : SignalTracker F) × (advance_phase now tracker ≡ (next, none))
        × Follows tracker now next
  unfolding advance_phase
  advance_phase-Follows tracker now i n le range =
      elim (reached-cases now tracker.search_ready_time n i.ready) [
        | inl (e, h) ↦ (while_searching tracker, rw e, searching-Follows tracker now i n le h)
        | inr (e, h) ↦ elim (reached-cases now tracker.acquisition_complete_time n i.complete) [
          | inl (f, k) ↦
              (while_acquiring tracker, rw (e, f), acquiring-Follows tracker now i n le h k)
          | inr (f, k) ↦
              let lock = total_ns now -ℤ total_ns tracker.acquisition_complete_time in
              let (fits, weeks) = range k in
              let difference : difference_time_ns now tracker.tracking_start_time ≡ some lock =
                rw (i.start) (
                  (difference_time_ns_iff now tracker.acquisition_complete_time n i.complete lock).1
                    (minus_plus _ _, fits, weeks)) in
              (
                with_lock_time now lock (while_tracking tracker),
                rw (
                  e,
                  f,
                  difference,
                  not_negative (total_ns now) (total_ns tracker.acquisition_complete_time) k,
                ),
                tracking-Follows tracker now i n le k,
              )
        ]
      ]

  -- The same tracker with the estimate of the CN0.
  with_cn0 : F → SignalTracker F → SignalTracker F
  with_cn0 cn0_dbhz tracker = record tracker { cn0_dbhz = cn0_dbhz }

  with_cn0-Follows :
      (c : F) (tracker : SignalTracker F) (now : SimTime) (next : SignalTracker F)
      → Follows (with_cn0 c tracker) now next
      → Follows tracker now next
  unfolding with_cn0
  with_cn0-Follows c tracker now next (i, k, a) = (
    i,
    record {
      signal = k.signal;
      ready = k.ready;
      complete = k.complete;
      psr = k.psr;
      doppler = k.doppler;
      adr = k.adr;
    },
    a,
  )

  with_cn0-IsScheduled :
      (c : F) (tracker : SignalTracker F) → IsScheduled tracker → IsScheduled (with_cn0 c tracker)
  unfolding with_cn0
  with_cn0-IsScheduled c tracker i =
      SameSchedule-IsScheduled tracker (with_cn0 c tracker) i
        (record {
          signal = refl;
          ready = refl;
          complete = refl;
          psr = refl;
          doppler = refl;
          adr = refl;
        })
        i.scheduled refl i.since

  SameSchedule-trans :
      (s t u : SignalTracker F) → SameSchedule s t → SameSchedule t u → SameSchedule s u
  SameSchedule-trans s t u a b = record {
    signal = b.signal ∙ a.signal;
    ready = b.ready ∙ a.ready;
    complete = b.complete ∙ a.complete;
    psr = b.psr ∙ a.psr;
    doppler = b.doppler ∙ a.doppler;
    adr = b.adr ∙ a.adr;
  }

  module _ (estimate : Cn0Estimate F) (elevation_deg : F) where
    -- The updates at one time after another, as far as they succeed.
    abbrev pub updates : SignalTracker F → List SimTime → SignalTracker F × Option TrackingError
    updates tracker [] = (tracker, none)
    updates tracker (now ∷ times) =
        let (next, error) = update_signal_tracker estimate tracker now true elevation_deg in
        elim error [ none ↦ updates next times | some e ↦ (next, some e) ]

    -- Times at which a tracker of the signal, its acquisition complete at the time given, can be
    -- updated one after another, from a total on.
    abbrev pub Epochs : SignalId → SimTime → ℤ → List SimTime → Type 0
    Epochs id complete from [] = Unit {0}
    Epochs id complete from (now ∷ times) =
        IsNormal now
        × (from ≤ℤ total_ns now)
        × ((total_ns complete ≤ℤ total_ns now)
            → IsInt64 (total_ns now -ℤ total_ns complete)
              × (magnitude (week_delta now complete) ≤ max_week_delta))
        × ((c : F) × (estimate id elevation_deg now ≡ some c))
        × Epochs id complete (total_ns now) times

    updates_step :
        (times : List SimTime) (now : SimTime) (tracker next : SignalTracker F)
        → update_signal_tracker estimate tracker now true elevation_deg ≡ (next, none)
        → updates tracker (now ∷ times) ≡ updates next times
    updates_step times now tracker next e =
        ap
          (λ (r : SignalTracker F × Option TrackingError).
            let result : SignalTracker F × Option TrackingError = elim (r.1) [
              | none ↦ updates r.0 times
              | some e' ↦ (r.0, some e')
            ] in
            result)
          e

  module _ (estimate : Cn0Estimate F) (elevation_deg : F)
      (finite : d.is_finite elevation_deg ≡ true) where
    -- An update of a scheduled tracker, its signal on, succeeds at every normal time that is not
    -- before its state's, where the CN0 model has a value and, from the acquisition on, the lock
    -- time is in the range of `difference_time_ns`. The schedule stays, the phase is that of the
    -- window of the time, each measurement is valid exactly from its time on, and the lock time is
    -- the time since the acquisition.
    pub update_signal_tracker-Follows :
        (tracker : SignalTracker F) (now : SimTime) (cn0_dbhz : F)
        → IsScheduled tracker
        → IsNormal now
        → total_ns tracker.state_since ≤ℤ total_ns now
        → (total_ns tracker.acquisition_complete_time ≤ℤ total_ns now → InRange tracker now)
        → estimate tracker.signal_id elevation_deg now ≡ some cn0_dbhz
        → (next : SignalTracker F) × (update_signal_tracker estimate tracker now true elevation_deg
            ≡ (next, none))
          × Follows tracker now next
    unfolding update_signal_tracker with_cn0
    update_signal_tracker-Follows tracker now c i n le range known =
        let (next, e, f) =
          advance_phase-Follows (with_cn0 c tracker) now (with_cn0-IsScheduled c tracker i) n le
            range in
        let later : ltb_ℤ (compare_sim_time now tracker.state_since) (pos 0) ≡ false =
          compare-lt_zero now tracker.state_since n i.since
          ∙ not_before (total_ns now) (total_ns tracker.state_since) le in
        (
          next,
          rw
              (
                (valid_normalized_time_iff now n.week_le).1 n,
                finite,
                signal_known F tracker.signal_id,
                i.scheduled,
                later,
                known,
              )
              e,
          with_cn0-Follows c tracker now next f,
        )

    -- Updates of a scheduled tracker at rising times all succeed, and leave it with its schedule, in
    -- the phase and with the measurements of the last time, however many times there are.
    pub updates-Follows :
        (times : List SimTime) (now : SimTime) (tracker : SignalTracker F)
        → IsScheduled tracker
        → Epochs estimate elevation_deg tracker.signal_id tracker.acquisition_complete_time
            (total_ns tracker.state_since)
            (now ∷ times)
        → (final : SignalTracker F) × (updates estimate elevation_deg tracker (now ∷ times)
            ≡ (final, none))
          × Follows tracker (last now times) final
    updates-Follows [] now tracker i (n, le, range, (c, known), _) =
        let (next, e, f) = update_signal_tracker-Follows tracker now c i n le range known in
        (next, updates_step estimate elevation_deg [] now tracker next e, f)
    updates-Follows (t ∷ times) now tracker i (n, le, range, (c, known), more) =
        let (next, e, (j, k, a)) = update_signal_tracker-Follows tracker now c i n le range known in
        let from = total_ns next.state_since in
        let here : Epochs estimate elevation_deg tracker.signal_id tracker.acquisition_complete_time
            from (t ∷ times) =
          (more.0, omega (int_laws, more.1, a.since_le), more.2, more.3, more.4) in
        let there : Epochs estimate elevation_deg next.signal_id tracker.acquisition_complete_time
            from (t ∷ times) =
          subst
            (λ x.
              Epochs estimate elevation_deg x tracker.acquisition_complete_time from (t ∷ times))
            (sym k.signal) here in
        let later : Epochs estimate elevation_deg next.signal_id next.acquisition_complete_time from
            (t ∷ times) =
          subst (λ x. Epochs estimate elevation_deg next.signal_id x from (t ∷ times))
            (sym k.complete) there in
        let (final, e', (j', k', a')) = updates-Follows times t next j later in
        (
          final,
          updates_step estimate elevation_deg (t ∷ times) now tracker next e ∙ e',
          (j', SameSchedule-trans tracker next final k k', a'),
        )

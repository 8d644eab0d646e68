-- ===== src/Tracking/Acquisition.antt =====
-- src/model/signal_tracking.cpp: what the schedule of an acquisition promises.
use gnss_data_simulator.Prelude.{
  ◌≡◌, inl, inr, refl, subst, sym, ◌∙◌, true, false, Bool-cases, Option, some, List, ◌∷◌, none,
  Option-cases, arith,
}
use gnss_data_simulator.Prelude.Int.{pos, ◌-ℤ◌, ◌≤ℤ◌, int_laws, int_max, Same-of_eq}
use gnss_data_simulator.Double.{Double}
use gnss_data_simulator.Rng.{DeterministicRng}
use gnss_data_simulator.Time.{SimTime}
use gnss_data_simulator.Time.Total.{IsNormal, total_ns, valid_normalized_time_iff}
use gnss_data_simulator.Tracking.{DelayDistribution, sample_delay}
use gnss_data_simulator.Tracking.Tracker.{
  SignalTrackingPhase, AcquisitionContext, SignalTracker, SignalTrackingModelConfig, TrackingError,
}
use gnss_data_simulator.Tracking.Schedule.{
  Cn0Estimate, Milestones, milestones, acquisition_distribution_for, with_schedule,
  schedule_refused, schedule_signal_acquisition,
}
use gnss_data_simulator.Tracking.Due.{Later, Timed, milestones-Timed}
use gnss_data_simulator.Tracking.Choice.{IsChosen, acquisition_distribution_for-IsChosen}
use gnss_data_simulator.Tracking.Windows.{IsScheduled, AtTime}
use gnss_data_simulator.Tracking.Lifecycle.{Epochs, last, updates, updates-Follows}

module _ {F : Type 0} ⦃d : Double F⦄ where
  lock_of :
      (tracker : SignalTracker F) (now : SimTime)
      → AtTime tracker now
      → total_ns tracker.acquisition_complete_time ≤ℤ total_ns now
      → tracker.lock_time_ns ≡ total_ns now -ℤ total_ns tracker.acquisition_complete_time
  lock_of tracker now a h = elim (a.lock) [
    | inl (k, e) ↦ absurd (omega (int_laws, h, k))
    | inr (k, e) ↦ e
  ]

  pub record IsUnmeasured (t : SignalTracker F) : Type 0 where
    pub psr : t.psr_valid ≡ false
    pub doppler : t.doppler_valid ≡ false
    pub adr : t.adr_valid ≡ false
    pub observation : t.observation_available ≡ false
    pub continuity : t.carrier_continuity_valid ≡ false
    pub lock_time : t.lock_time_ns ≡ pos 0

  pub record IsUntracked (t : SignalTracker F) : Type 0 where
    pub lock : t.has_tracking_lock ≡ false
    pub previous : t.previous_dll_root_valid ≡ false
    pub current : t.current_dll_root_valid ≡ false
    pub above : t.above_acquisition_threshold_active ≡ false
    pub below : t.below_tracking_threshold_active ≡ false
    pub pending : t.reacquisition_pending ≡ false
    pub event : t.reacquisition_event ≡ false

  module _ (estimate : Cn0Estimate F) (config : SignalTrackingModelConfig F)
      (tracker : SignalTracker F) (context : AcquisitionContext) (on ready : SimTime)
      (elevation_deg : F) (rng : DeterministicRng) where
    -- What a schedule that succeeds leaves: the CN0 is the one that the model gives, the delay of
    -- the acquisition is drawn from the distribution for the context and the CN0, and the
    -- measurements are valid their configured delays after it. Nothing is measured or tracked yet.
    pub record Granted (next : SignalTracker F) (rng' : DeterministicRng) : Type 0 where
      pub known : estimate tracker.signal_id elevation_deg ready ≡ some next.cn0_dbhz
      pub distribution : DelayDistribution
      pub chosen : IsChosen config context next.cn0_dbhz distribution
      pub drawn : rng' ≡ (sample_delay distribution rng).1
      pub acquisition : Later ready (sample_delay distribution rng).0 next.acquisition_complete_time
      pub start : next.tracking_start_time ≡ next.acquisition_complete_time
      pub psr : Later next.acquisition_complete_time config.psr_valid_delay_ns next.psr_valid_time
      pub doppler :
          Later next.acquisition_complete_time config.doppler_valid_delay_ns next.doppler_valid_time
      pub adr : Later next.acquisition_complete_time config.adr_valid_delay_ns next.adr_valid_time
      pub signal : next.signal_id ≡ tracker.signal_id
      pub context_kept : next.acquisition_context ≡ context
      pub since : next.state_since ≡ on
      pub normal : IsNormal on
      pub search : next.search_ready_time ≡ ready
      pub phase : next.phase ≡ SignalTrackingPhase.searching
      pub scheduled : next.scheduled ≡ true
      pub unmeasured : IsUnmeasured next
      pub untracked : IsUntracked next

    abbrev pub Outcome : SignalTracker F × DeterministicRng × Option TrackingError → Type 0
    Outcome (next, rng', none) = Granted next rng'
    Outcome (next, rng', some e) = next ≡ tracker

    normal_start :
        on.gps_week ≤ℤ int_max
        → schedule_refused config tracker on ready elevation_deg ≡ false
        → IsNormal on
    unfolding schedule_refused
    normal_start won e = (valid_normalized_time_iff on won).0 (ground arith)

    with_schedule-Granted :
        (c : F) (times : Milestones) (rng' : DeterministicRng)
        → IsNormal on
        → let distribution = acquisition_distribution_for config context c in
          estimate tracker.signal_id elevation_deg ready ≡ some c
          → rng' ≡ (sample_delay distribution rng).1
          → Timed config ready (sample_delay distribution rng).0 times
          → Granted (with_schedule tracker context on ready c times) rng'
    unfolding with_schedule
    with_schedule-Granted c times rng' n f e t = record {
      known = f;
      distribution = acquisition_distribution_for config context c;
      chosen = acquisition_distribution_for-IsChosen config context c;
      drawn = e;
      acquisition = t.acquisition;
      start = refl;
      psr = t.psr;
      doppler = t.doppler;
      adr = t.adr;
      signal = refl;
      context_kept = refl;
      since = refl;
      normal = n;
      search = refl;
      phase = refl;
      scheduled = refl;
      unmeasured = record {
        psr = refl;
        doppler = refl;
        adr = refl;
        observation = refl;
        continuity = refl;
        lock_time = refl;
      };
      untracked = record {
        lock = refl;
        previous = refl;
        current = refl;
        above = refl;
        below = refl;
        pending = refl;
        event = refl;
      };
    }

    -- Of a schedule, asked for at times whose weeks are an `int`: where it succeeds, the CN0 of the
    -- tracker is the one that the model gives, the acquisition takes the delay drawn from the
    -- distribution for the context and the band of that CN0, each measurement is due its own
    -- configured delay after the acquisition, and the tracker searches from the times asked for on,
    -- with no measurement valid and no lock; where it fails, the tracker is as it was.
    pub schedule_signal_acquisition-Outcome :
        on.gps_week ≤ℤ int_max
        → ready.gps_week ≤ℤ int_max
        → Outcome
            (schedule_signal_acquisition estimate config tracker context on ready elevation_deg rng)
    unfolding schedule_signal_acquisition
    schedule_signal_acquisition-Outcome won wready =
        elim (Bool-cases (schedule_refused config tracker on ready elevation_deg)) [
          | inl e ↦ rw e refl
          | inr e ↦ elim (Option-cases (estimate tracker.signal_id elevation_deg ready)) [
            | inl f ↦ rw (e, f) refl
            | inr (c, f) ↦
                let (delay_ns, rng') =
                  sample_delay (acquisition_distribution_for config context c) rng in
                elim (Option-cases (milestones config ready delay_ns)) [
                  | inl g ↦ rw (e, f, g) refl
                  | inr (times, g) ↦
                      let timed = milestones-Timed config ready delay_ns times wready g in
                      rw (e, f, g)
                        (with_schedule-Granted c times rng' (normal_start won e) f refl timed)
                ]
          ]
        ]

    -- The schedule is one that the updates follow.
    Granted-IsScheduled :
        (next : SignalTracker F) (rng' : DeterministicRng) → Granted next rng' → IsScheduled next
    Granted-IsScheduled next rng' g =
        let a = g.acquisition in
        let p = g.psr in
        let q = g.doppler in
        let r = g.adr in
        let e = Same-of_eq a.total in
        let e1 = Same-of_eq p.total in
        let e2 = Same-of_eq q.total in
        let e3 = Same-of_eq r.total in
        let d = a.delay in
        let d1 = p.delay in
        let d2 = q.delay in
        let d3 = r.delay in
        let le : total_ns ready ≤ℤ total_ns next.acquisition_complete_time = omega int_laws in
        record {
          scheduled = g.scheduled;
          since = subst IsNormal (sym g.since) g.normal;
          ready = subst IsNormal (sym g.search) a.start;
          complete = a.normal;
          psr = p.normal;
          doppler = q.normal;
          adr = r.normal;
          start = g.start;
          ready_le = rw (g.search) le;
          psr_ge = omega int_laws;
          doppler_ge = omega int_laws;
          adr_ge = omega int_laws;
        }

    -- Where the schedule succeeds, at times whose weeks are an `int` and a finite elevation, and
    -- updates with the signal on and that elevation follow at normal times that do not go back, from
    -- its start on, at each of which the CN0 model has a value and, from the acquisition on, the lock
    -- time is in the range of `difference_time_ns`: the updates all succeed, and if the last of them
    -- has reached the times of the three measurements, the signal is tracked then, with the three
    -- measurements valid and the lock time counted from the acquisition.
    pub schedule_updates_live :
        (next : SignalTracker F) (rng' : DeterministicRng) (now : SimTime) (times : List SimTime)
        → on.gps_week ≤ℤ int_max
        → ready.gps_week ≤ℤ int_max
        → d.is_finite elevation_deg ≡ true
        → schedule_signal_acquisition estimate config tracker context on ready elevation_deg rng
          ≡ (next, rng', none)
        → Epochs estimate elevation_deg next.signal_id next.acquisition_complete_time
            (total_ns next.state_since)
            (now ∷ times)
        → total_ns next.psr_valid_time ≤ℤ total_ns (last now times)
        → total_ns next.doppler_valid_time ≤ℤ total_ns (last now times)
        → total_ns next.adr_valid_time ≤ℤ total_ns (last now times)
        → (final : SignalTracker F) × (updates estimate elevation_deg next (now ∷ times)
            ≡ (final, none))
          × (final.phase ≡ SignalTrackingPhase.tracking)
          × (final.psr_valid ≡ true)
          × (final.doppler_valid ≡ true)
          × (final.adr_valid ≡ true)
          × (final.observation_available ≡ true)
          × (final.carrier_continuity_valid ≡ true)
          × (final.lock_time_ns
              ≡ total_ns (last now times) -ℤ total_ns next.acquisition_complete_time)
    schedule_updates_live next rng' now times won wready finite e epochs p q r =
        let granted : Granted next rng' =
          subst Outcome e (schedule_signal_acquisition-Outcome won wready) in
        let i = Granted-IsScheduled next rng' granted in
        let (final, f, (j, k, a)) =
          updates-Follows estimate elevation_deg finite times now next i epochs in
        let complete : total_ns next.acquisition_complete_time ≤ℤ total_ns (last now times) =
          omega (int_laws, i.psr_ge, p) in
        let psr = a.psr.1 (rw (k.psr) p) in
        let adr = a.adr.1 (rw (k.adr) r) in
        let tracked = a.tracking.1 (rw (k.complete) complete) in
        (
          final,
          f,
          tracked,
          psr,
          a.doppler.1 (rw (k.doppler) q),
          adr,
          a.observation ∙ psr,
          a.continuity ∙ adr,
          rw (← k.complete) (lock_of final (last now times) a (rw (k.complete) complete)),
        )

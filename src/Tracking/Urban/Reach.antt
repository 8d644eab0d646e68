-- ===== src/Tracking/Urban/Reach.antt =====
-- The trackers that src/model/signal_tracking.cpp and src/model/urban_signal_tracking.cpp can make in
-- a run with the urban model.
use gnss_data_simulator.Prelude.{inl, inr, false, not, ◌||◌, if-split, Option-cases, Option, arith}
use gnss_data_simulator.Prelude.Opt.{is_none}
use gnss_data_simulator.Double.{Double}
use gnss_data_simulator.Rng.{DeterministicRng}
use gnss_data_simulator.Time.{SimTime, valid_normalized_time}
use gnss_data_simulator.Signals.{SignalId, find_signal_definition}
use gnss_data_simulator.Tracking.Tracker.{
  AcquisitionContext, SignalTrackingModelConfig, SignalTracker, TrackingError,
}
use gnss_data_simulator.Tracking.Schedule.{
  Cn0Estimate, Milestones, reset_signal_tracker, schedule_signal_acquisition, schedule_refused,
  milestones, with_schedule, acquisition_distribution_for, clear_observation_state,
}
use gnss_data_simulator.Tracking.Update.{switched_off, update_signal_tracker}
use gnss_data_simulator.Tracking.{sample_delay}
use gnss_data_simulator.Tracking.Urban.{UrbanSignalTrackingInput}
use gnss_data_simulator.Tracking.Urban.Step.{update_urban_signal_tracker}
use gnss_data_simulator.Tracking.Urban.Invariant.{IsCoherent, reset-IsCoherent}
use gnss_data_simulator.Tracking.Urban.Coherence.{update-IsCoherent}

module _ {F : Type 0} ⦃d : Double F⦄ where
  with_schedule-IsCoherent :
      (t : SignalTracker F) (context : AcquisitionContext) (on ready : SimTime) (c : F)
      (times : Milestones)
      → IsCoherent t
      → IsCoherent (with_schedule t context on ready c times)
  unfolding with_schedule
  with_schedule-IsCoherent t context on ready c times h = ground arith

  -- The tracker that a schedule leaves is the old one, or has the schedule.
  schedule_cases :
      (P : SignalTracker F → Type 0) (estimate : Cn0Estimate F)
      (config : SignalTrackingModelConfig F) (t : SignalTracker F) (context : AcquisitionContext)
      (on ready : SimTime) (elevation_deg : F) (rng : DeterministicRng)
      → P t
      → ((c : F) (times : Milestones) → P (with_schedule t context on ready c times))
      → P (schedule_signal_acquisition estimate config t context on ready elevation_deg rng).0
  unfolding schedule_signal_acquisition
  schedule_cases P estimate config t context on ready elevation_deg rng old new =
      if-split {A = SignalTracker F × DeterministicRng × Option TrackingError} (λ r. P r.0)
        (schedule_refused config t on ready elevation_deg) (λ u. old)
        (λ u. elim (Option-cases (estimate t.signal_id elevation_deg ready)) [
          | inl e ↦ rw e old
          | inr (c, e) ↦
              let delay_ns = (sample_delay (acquisition_distribution_for config context c) rng).0 in
              elim (Option-cases (milestones config ready delay_ns)) [
                | inl f ↦ rw (e, f) old
                | inr (times, f) ↦ rw (e, f) (new c times)
              ]
        ])

  signal_off-IsCoherent :
      (estimate : Cn0Estimate F) (t : SignalTracker F) (now : SimTime) (elevation_deg : F)
      → IsCoherent t
      → IsCoherent (update_signal_tracker estimate t now false elevation_deg).0
  unfolding update_signal_tracker switched_off clear_observation_state
  signal_off-IsCoherent estimate t now elevation_deg c =
      if-split {A = SignalTracker F × Option TrackingError} (λ r. IsCoherent r.0)
        (not (valid_normalized_time now)
          || not (d.is_finite elevation_deg)
          || is_none (find_signal_definition {F = F} t.signal_id))
        (λ u. c) (λ u. ground arith)

  -- The trackers that can be in a run with the urban model: one that is reset, and what a schedule,
  -- an urban update or the switching off of the signal by `update_signal_tracker`, each successful
  -- or not, makes of one. (`update_signal_tracker` with the signal on belongs to the other runs.)
  pub data Reaches : SignalTracker F → Type 0 where
    reset : (id : SignalId) (time : SimTime) → Reaches (reset_signal_tracker id time)
    schedule :
        (estimate : Cn0Estimate F) (config : SignalTrackingModelConfig F)
        (context : AcquisitionContext) (on ready : SimTime) (elevation_deg : F)
        (rng : DeterministicRng) {t : SignalTracker F}
        → Reaches t
        → Reaches
            (schedule_signal_acquisition estimate config t context on ready elevation_deg rng).0
    update :
        (now : SimTime) (input : UrbanSignalTrackingInput F) (config : SignalTrackingModelConfig F)
        {t : SignalTracker F}
        → Reaches t
        → Reaches (update_urban_signal_tracker now input config t).0
    turned_off :
        (estimate : Cn0Estimate F) (now : SimTime) (elevation_deg : F) {t : SignalTracker F}
        → Reaches t
        → Reaches (update_signal_tracker estimate t now false elevation_deg).0

  -- Every tracker that can be in a run with the urban model, in which signals are also switched off by
  -- `update_signal_tracker`, is coherent: it has the lock exactly in the phase of tracking; without
  -- the lock no measurement is valid; the lock needs a schedule and a previous root. With a schedule
  -- but no lock no previous root is held, no loss is awaited and no reacquisition reported; a
  -- reacquisition is pending only without a schedule.
  pub Reaches-IsCoherent : {t : SignalTracker F} → Reaches t → IsCoherent t
  Reaches-IsCoherent (reset id time) = reset-IsCoherent id time
  Reaches-IsCoherent (schedule estimate config context on ready elevation_deg rng {t} r) =
      let c = Reaches-IsCoherent r in
      schedule_cases (λ u. IsCoherent u) estimate config t context on ready elevation_deg rng c
        (λ cn0 times. with_schedule-IsCoherent t context on ready cn0 times c)
  Reaches-IsCoherent (update now input config {t} r) =
      update-IsCoherent now input config t (Reaches-IsCoherent r)
  Reaches-IsCoherent (turned_off estimate now elevation_deg {t} r) =
      signal_off-IsCoherent estimate t now elevation_deg (Reaches-IsCoherent r)

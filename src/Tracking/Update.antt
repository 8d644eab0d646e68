-- ===== src/Tracking/Update.antt =====
-- src/model/signal_tracking.cpp: the update of a tracker at an epoch.
use gnss_data_simulator.Prelude.{Bool, true, false, not, ◌||◌, Option, none, some, if◌then◌else◌}
use gnss_data_simulator.Prelude.Opt.{is_none}
use gnss_data_simulator.Prelude.Int.{ℤ, pos, ltb_ℤ, leb_ℤ}
use gnss_data_simulator.Double.{Double}
use gnss_data_simulator.Time.{SimTime, compare_sim_time, difference_time_ns, valid_normalized_time}
use gnss_data_simulator.Signals.{find_signal_definition}
use gnss_data_simulator.Tracking.Tracker.{
  SignalTrackingPhase, SignalTracker, TrackingError, update_arguments, not_scheduled,
  precedes_signal_on, cn0_for_tracking, lock_time,
}
use gnss_data_simulator.Tracking.Schedule.{Cn0Estimate, clear_observation_state}

-- Whether a time has come.
abbrev pub reached : SimTime → SimTime → Bool
reached current_time time = leb_ℤ (pos 0) (compare_sim_time current_time time)

abbrev pub is_acquiring : SignalTrackingPhase → Bool
is_acquiring SignalTrackingPhase.acquiring = true
is_acquiring _ = false

-- The measurements are not valid, and no time of lock has passed.
unfoldable pub without_measurements : {F : Type 0} → SignalTracker F → SignalTracker F
without_measurements tracker = record tracker {
  lock_time_ns = pos 0;
  psr_valid = false;
  doppler_valid = false;
  adr_valid = false;
  observation_available = false;
  carrier_continuity_valid = false;
}

-- Before and during the acquisition.
unfoldable pub while_searching : {F : Type 0} → SignalTracker F → SignalTracker F
unfolding without_measurements
while_searching tracker =
    without_measurements (record tracker { phase = SignalTrackingPhase.searching })

unfoldable pub while_acquiring : {F : Type 0} → SignalTracker F → SignalTracker F
unfolding without_measurements
while_acquiring tracker = without_measurements (record tracker {
  phase = SignalTrackingPhase.acquiring;
  state_since =
      if is_acquiring tracker.phase then tracker.state_since else tracker.search_ready_time;
})

-- After it, with the time that the lock has lasted.
unfoldable pub while_tracking : {F : Type 0} → SignalTracker F → SignalTracker F
while_tracking tracker = record tracker {
  phase = SignalTrackingPhase.tracking;
  state_since = tracker.tracking_start_time;
  has_tracking_lock = true;
}

unfoldable pub with_lock_time : {F : Type 0} → SimTime → ℤ → SignalTracker F → SignalTracker F
with_lock_time current_time lock_time_ns tracker = record tracker {
  lock_time_ns = lock_time_ns;
  psr_valid = reached current_time tracker.psr_valid_time;
  doppler_valid = reached current_time tracker.doppler_valid_time;
  adr_valid = reached current_time tracker.adr_valid_time;
  observation_available = reached current_time tracker.psr_valid_time;
  carrier_continuity_valid = reached current_time tracker.adr_valid_time;
}

module _ {F : Type 0} ⦃d : Double F⦄ where
  open d use {is_finite}

  unfoldable pub switched_off : SimTime → SignalTracker F → SignalTracker F
  unfolding clear_observation_state
  switched_off current_time tracker = clear_observation_state (record tracker {
    phase = SignalTrackingPhase.signal_off;
    state_since = current_time;
    scheduled = false;
    has_tracking_lock = false;
  })

  -- The part of the update that follows the estimate of the CN0.
  unfoldable pub advance_phase : SimTime → SignalTracker F → SignalTracker F × Option TrackingError
  advance_phase current_time tracker =
      if not (reached current_time tracker.search_ready_time)
      then (while_searching tracker, none)
      else if not (reached current_time tracker.acquisition_complete_time)
      then (while_acquiring tracker, none)
      else elim (difference_time_ns current_time tracker.tracking_start_time) [
        | none ↦ (while_tracking tracker, some lock_time)
        | some lock_time_ns ↦
            if ltb_ℤ lock_time_ns (pos 0)
            then (while_tracking tracker, some lock_time)
            else (with_lock_time current_time lock_time_ns (while_tracking tracker), none)
      ]

  -- The tracker and the error: `none` is success.
  unfoldable pub update_signal_tracker :
      Cn0Estimate F → SignalTracker F → SimTime → Bool → F → SignalTracker F × Option TrackingError
  update_signal_tracker estimate tracker current_time signal_available elevation_deg =
      if not (valid_normalized_time current_time)
        || not (is_finite elevation_deg)
        || is_none (find_signal_definition {F = F} tracker.signal_id)
      then (tracker, some update_arguments)
      else if not signal_available
      then (switched_off current_time tracker, none)
      else if not tracker.scheduled
      then (tracker, some not_scheduled)
      else if ltb_ℤ (compare_sim_time current_time tracker.state_since) (pos 0)
      then (tracker, some precedes_signal_on)
      else elim (estimate tracker.signal_id elevation_deg current_time) [
        | none ↦ (tracker, some cn0_for_tracking)
        | some cn0_dbhz ↦ advance_phase current_time (record tracker { cn0_dbhz = cn0_dbhz })
      ]

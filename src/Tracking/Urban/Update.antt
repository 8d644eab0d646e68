-- ===== src/Tracking/Urban/Update.antt =====
-- src/model/urban_signal_tracking.cpp: the entry to tracking, the two qualifications, and the update.
use gnss_data_simulator.Prelude.{Bool, true, false, Option, none, some, if◌then◌else◌}
use gnss_data_simulator.Prelude.Opt.{◌>>=◌}
use gnss_data_simulator.Prelude.Int.{pos, ltb_ℤ}
use gnss_data_simulator.Double.{Double}
use gnss_data_simulator.Time.{SimTime, add_time_ns, difference_time_ns}
use gnss_data_simulator.CodeTracking.{CodeTrackingDllRoot}
use gnss_data_simulator.Tracking.Tracker.{
  SignalTrackingPhase, SignalTrackingModelConfig, SignalTracker,
}
use gnss_data_simulator.Tracking.Schedule.{is_reacquisition}
use gnss_data_simulator.Tracking.Update.{with_lock_time}
use gnss_data_simulator.Tracking.Urban.{
  UrbanSignalTrackingInput, UrbanError, validity_overflow, lock_duration, elapsed_at_least,
}

module _ {F : Type 0} ⦃d : Double F⦄ where
  open d use {sub, absolute, lt, is_finite}

  -- The root that is tracked now.
  unfoldable pub with_current_root : CodeTrackingDllRoot F → SignalTracker F → SignalTracker F
  with_current_root root tracker = record tracker {
    current_dll_root_valid = true;
    current_dll_code_phase_sec = root.code_phase_sec;
    current_dll_code_phase_chips = root.code_phase_chips;
    current_dll_prompt_power = root.prompt_power;
  }

  -- The root that the next one is compared with.
  unfoldable pub with_previous_root : CodeTrackingDllRoot F → SignalTracker F → SignalTracker F
  with_previous_root root tracker = record tracker {
    previous_dll_root_valid = true;
    previous_dll_code_phase_sec = root.code_phase_sec;
    previous_dll_code_phase_chips = root.code_phase_chips;
  }

  -- The three times at which the measurements are valid.
  unfoldable pub validity_times :
      SimTime → SignalTrackingModelConfig F → Option (SimTime × SimTime × SimTime)
  validity_times current_time config = do
    psr_valid_time ← add_time_ns current_time config.psr_valid_delay_ns
    doppler_valid_time ← add_time_ns current_time config.doppler_valid_delay_ns
    adr_valid_time ← add_time_ns current_time config.adr_valid_delay_ns
    some (psr_valid_time, doppler_valid_time, adr_valid_time)

  unfoldable pub tracking_entered :
      SignalTracker F
      → SimTime
      → SimTime × SimTime × SimTime
      → CodeTrackingDllRoot F
      → SignalTracker F
  unfolding with_current_root with_previous_root
  tracking_entered tracker current_time (psr_valid_time, doppler_valid_time, adr_valid_time)
        selected_root =
      with_previous_root selected_root (
        with_current_root selected_root (record tracker {
          phase = SignalTrackingPhase.tracking;
          state_since = current_time;
          tracking_start_time = current_time;
          psr_valid_time = psr_valid_time;
          doppler_valid_time = doppler_valid_time;
          adr_valid_time = adr_valid_time;
          has_tracking_lock = true;
          lock_time_ns = pos 0;
          psr_valid = false;
          doppler_valid = false;
          adr_valid = false;
          observation_available = false;
          carrier_continuity_valid = false;
          reacquisition_event = is_reacquisition tracker.acquisition_context;
          reacquisition_pending = false;
          above_acquisition_threshold_active = false;
          below_tracking_threshold_active = false;
        }))

  unfoldable pub enter_tracking :
      SignalTracker F
      → SimTime
      → SignalTrackingModelConfig F
      → CodeTrackingDllRoot F
      → SignalTracker F × Option UrbanError
  enter_tracking tracker current_time config selected_root =
      elim (validity_times current_time config) [
        | none ↦ (tracker, some validity_overflow)
        | some times ↦ (tracking_entered tracker current_time times selected_root, none)
      ]

  -- The tracker whose CN0 is above the threshold, from now on if it was not before.
  unfoldable pub above_since : SignalTracker F → SimTime → SignalTracker F
  above_since tracker current_time =
      if tracker.above_acquisition_threshold_active then tracker else record tracker {
        above_acquisition_threshold_active = true;
        above_acquisition_threshold_since = current_time;
      }

  -- The tracker, and whether the acquisition is qualified; no answer is a failure.
  unfoldable pub update_acquisition_qualification :
      SignalTracker F
      → SimTime
      → UrbanSignalTrackingInput F
      → SignalTrackingModelConfig F
      → SignalTracker F × Option Bool
  update_acquisition_qualification tracker current_time input config =
      if lt input.effective_cn0_dbhz config.acquisition_cn0_threshold_dbhz
      then (record tracker { above_acquisition_threshold_active = false }, some false)
      else (
        above_since tracker current_time,
        elapsed_at_least current_time
            (above_since tracker current_time).above_acquisition_threshold_since
            config.acquisition_cn0_persistence_ns,
      )

  unfoldable pub update_tracking_validity :
      SignalTracker F → SimTime → SignalTracker F × Option UrbanError
  unfolding with_lock_time
  update_tracking_validity tracker current_time =
      elim (difference_time_ns current_time tracker.tracking_start_time) [
        | none ↦ (tracker, some lock_duration)
        | some lock_time_ns ↦
            if ltb_ℤ lock_time_ns (pos 0)
            then (tracker, some lock_duration)
            else (with_lock_time current_time lock_time_ns tracker, none)
      ]

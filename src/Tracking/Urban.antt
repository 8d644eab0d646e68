-- ===== src/Tracking/Urban.antt =====
-- src/model/urban_signal_tracking.cpp: the tracker of a signal in an urban scene. An error leaves the
-- tracker as the code has changed it by then.
pub mod Update
pub mod Step
pub mod Invariant
pub mod Coherence
pub mod Reach
pub mod Lock
pub mod Change
use gnss_data_simulator.Prelude.{
  ℕ, Bool, true, false, not, ◌&&◌, ◌||◌, Option, none, some, List, [], ◌∷◌, if◌then◌else◌,
}
use gnss_data_simulator.Prelude.Opt.{is_none, ◌>>=◌}
use gnss_data_simulator.Prelude.Int.{ℤ, pos, ltb_ℤ, leb_ℤ}
use gnss_data_simulator.Prelude.Result.{Result, ok, err}
use gnss_data_simulator.Double.{Double, nought}
use gnss_data_simulator.Time.{
  SimTime, add_time_ns, compare_sim_time, difference_time_ns, valid_normalized_time,
}
use gnss_data_simulator.Signals.{find_signal_definition}
use gnss_data_simulator.CodeTracking.{
  CodeTrackingDllRoot, CodeTrackingDllSelectionMode, select_code_tracking_dll_root,
}
use gnss_data_simulator.Tracking.Tracker.{
  SignalTrackingPhase, AcquisitionContext, reacquisition, UrbanSignalState,
  SignalTrackingLossReason, SignalTrackingModelConfig, SignalTracker,
}
use gnss_data_simulator.Tracking.Model.{config_valid}
use gnss_data_simulator.Tracking.Schedule.{is_reacquisition}
use gnss_data_simulator.Tracking.Update.{reached, with_lock_time, without_measurements}

pub record UrbanSignalTrackingInput (F : Type 0) : Type 0 where
  pub signal_available : Bool
  pub direct_line_of_sight : Bool
  pub open_cn0_dbhz : F
  pub effective_cn0_dbhz : F
  pub dll_roots : List (CodeTrackingDllRoot F)

pub data UrbanError : Type 0 where
  invalid_arguments precedes_state not_scheduled qualification_duration root_selection : UrbanError
  validity_overflow loss_duration lock_duration : UrbanError

-- Whether a tracker is locked: the test of the update.
abbrev pub is_tracking : SignalTrackingPhase → Bool
is_tracking SignalTrackingPhase.tracking = true
is_tracking _ = false

abbrev pub locked : {F : Type 0} → SignalTracker F → Bool
locked tracker = is_tracking tracker.phase && tracker.has_tracking_lock

-- `none` is a failure.
unfoldable pub elapsed_at_least : SimTime → SimTime → ℤ → Option Bool
elapsed_at_least current_time start_time required_ns =
    if ltb_ℤ required_ns (pos 0) then none else elim (difference_time_ns current_time start_time) [
      | none ↦ none
      | some elapsed_ns ↦
          if ltb_ℤ elapsed_ns (pos 0) then none else some (leb_ℤ required_ns elapsed_ns)
    ]

module _ {F : Type 0} where
  abbrev pub any_stable : List (CodeTrackingDllRoot F) → Bool
  any_stable [] = false
  any_stable (root ∷ roots) = root.stable || any_stable roots

  unfoldable pub clear_measurement_validity : SignalTracker F → SignalTracker F
  clear_measurement_validity tracker = record tracker {
    lock_time_ns = pos 0;
    psr_valid = false;
    doppler_valid = false;
    adr_valid = false;
    observation_available = false;
    carrier_continuity_valid = false;
  }

module _ {F : Type 0} ⦃d : Double F⦄ where
  open d use {sub, absolute, lt, le, is_finite, is_inf}

  unfoldable pub valid_effective_cn0 : F → Bool
  valid_effective_cn0 cn0_dbhz = is_finite cn0_dbhz || (is_inf cn0_dbhz && lt cn0_dbhz nought)

  unfoldable pub clear_dll_continuity : SignalTracker F → SignalTracker F
  clear_dll_continuity tracker = record tracker {
    previous_dll_root_valid = false;
    current_dll_root_valid = false;
    previous_dll_code_phase_sec = nought;
    previous_dll_code_phase_chips = nought;
    current_dll_code_phase_sec = nought;
    current_dll_code_phase_chips = nought;
    current_dll_prompt_power = nought;
  }

  -- The root found, if any.
  unfoldable pub select_root :
      UrbanSignalTrackingInput F
      → CodeTrackingDllSelectionMode
      → F
      → Result UrbanError (Option (CodeTrackingDllRoot F))
  select_root input mode previous_code_phase_sec =
      if not (any_stable input.dll_roots)
      then ok none
      else elim (select_code_tracking_dll_root input.dll_roots mode previous_code_phase_sec) [
        | err e ↦ err root_selection
        | ok (selected_index, root) ↦ if not root.stable then err root_selection else ok (some root)
      ]

  unfoldable pub direct_classification :
      SignalTracker F → UrbanSignalTrackingInput F → SignalTrackingModelConfig F → UrbanSignalState
  direct_classification tracker input config =
      let cn0_delta_db = absolute (sub input.effective_cn0_dbhz input.open_cn0_dbhz) in
      let code_bias_chips =
        if tracker.current_dll_root_valid
        then absolute tracker.current_dll_code_phase_chips
        else nought in
      if not input.direct_line_of_sight
      then (if locked tracker then UrbanSignalState.nlos_tracked else UrbanSignalState.blocked)
      else if le config.los_multipath_cn0_delta_db cn0_delta_db
          || le config.los_multipath_code_bias_chips code_bias_chips
      then UrbanSignalState.los_multipath
      else UrbanSignalState.los

  unfoldable pub update_direct_classification :
      SignalTracker F → UrbanSignalTrackingInput F → SignalTrackingModelConfig F → SignalTracker F
  update_direct_classification tracker input config = record tracker {
    urban_state = direct_classification tracker input config;
  }

  unfoldable pub begin_tracking_loss :
      SignalTracker F → SimTime → SignalTrackingLossReason → SignalTracker F
  unfolding clear_measurement_validity clear_dll_continuity
  begin_tracking_loss tracker current_time reason = clear_dll_continuity (
      clear_measurement_validity (record tracker {
        phase = SignalTrackingPhase.searching;
        acquisition_context = reacquisition;
        state_since = current_time;
        search_ready_time = current_time;
        scheduled = false;
        has_tracking_lock = false;
        reacquisition_pending = true;
        reacquisition_event = false;
        loss_reason = reason;
        above_acquisition_threshold_active = false;
        below_tracking_threshold_active = false;
      }))

-- ===== src/Tracking/Urban/Step.antt =====
-- src/model/urban_signal_tracking.cpp: the update of a tracker, branch by branch.
use gnss_data_simulator.Prelude.{
  Bool, true, false, not, ◌&&◌, ◌||◌, Option, none, some, if◌then◌else◌,
}
use gnss_data_simulator.Prelude.Opt.{is_none}
use gnss_data_simulator.Prelude.Int.{pos, ltb_ℤ}
use gnss_data_simulator.Prelude.Result.{ok, err}
use gnss_data_simulator.Double.{Double, nought}
use gnss_data_simulator.Time.{SimTime, compare_sim_time, valid_normalized_time}
use gnss_data_simulator.Signals.{find_signal_definition}
use gnss_data_simulator.CodeTracking.{CodeTrackingDllRoot, CodeTrackingDllSelectionMode}
use gnss_data_simulator.Tracking.Tracker.{
  SignalTrackingPhase, SignalTrackingLossReason, SignalTrackingModelConfig, SignalTracker,
}
use gnss_data_simulator.Tracking.Model.{config_valid}
use gnss_data_simulator.Tracking.Update.{reached}
use gnss_data_simulator.Tracking.Urban.{
  UrbanSignalTrackingInput, UrbanError, invalid_arguments, precedes_state, not_scheduled,
  qualification_duration, loss_duration, locked, elapsed_at_least, clear_measurement_validity,
  valid_effective_cn0, clear_dll_continuity, select_root, update_direct_classification,
  begin_tracking_loss,
}
use gnss_data_simulator.Tracking.Urban.Update.{
  with_current_root, with_previous_root, enter_tracking, update_acquisition_qualification,
  update_tracking_validity,
}

module _ {F : Type 0} ⦃d : Double F⦄ where
  open d use {sub, absolute, lt, is_finite}

  module _ (current_time : SimTime) (input : UrbanSignalTrackingInput F)
      (config : SignalTrackingModelConfig F) where
    -- The last call of every branch that succeeds.
    unfoldable pub classified : SignalTracker F → SignalTracker F × Option UrbanError
    classified tracker = (update_direct_classification tracker input config, none)

    unfoldable pub while_unavailable : SignalTracker F → SignalTracker F
    unfolding clear_measurement_validity clear_dll_continuity
    while_unavailable tracker = clear_dll_continuity (
        clear_measurement_validity (record tracker {
          phase = SignalTrackingPhase.signal_off;
          state_since = current_time;
          scheduled = false;
          has_tracking_lock = false;
          reacquisition_pending = false;
          above_acquisition_threshold_active = false;
          below_tracking_threshold_active = false;
          loss_reason =
              if locked tracker
              then SignalTrackingLossReason.signal_unavailable
              else tracker.loss_reason;
        }))

    unfoldable pub while_unscheduled : SignalTracker F → SignalTracker F × Option UrbanError
    unfolding clear_measurement_validity classified
    while_unscheduled tracker =
        if not tracker.reacquisition_pending
        then (tracker, some not_scheduled)
        else classified
            (clear_measurement_validity (record tracker { phase = SignalTrackingPhase.searching }))

    -- The call, after a step that may fail.
    unfoldable pub then_classified :
        SignalTracker F × Option UrbanError → SignalTracker F × Option UrbanError
    unfolding classified
    then_classified (tracker, none) = classified tracker
    then_classified (tracker, some error) = (tracker, some error)

    -- The acquisition once the qualification and the root are known.
    unfoldable pub conclude_acquisition :
        SignalTracker F
        → Bool
        → Option (CodeTrackingDllRoot F)
        → SignalTracker F × Option UrbanError
    conclude_acquisition tracker qualified none = classified (clear_measurement_validity tracker)
    conclude_acquisition tracker qualified (some root) =
        let current = with_current_root root tracker in
        if qualified && reached current_time tracker.acquisition_complete_time
        then then_classified (enter_tracking current current_time config root)
        else classified (clear_measurement_validity current)

    -- From the time on at which the search is ready.
    unfoldable pub while_acquiring : SignalTracker F → SignalTracker F × Option UrbanError
    while_acquiring tracker =
        let (next, qualification) =
          update_acquisition_qualification
            (record tracker { phase = SignalTrackingPhase.acquiring }) current_time input config in
        elim qualification [
          | none ↦ (next, some qualification_duration)
          | some qualified ↦
              elim (select_root input CodeTrackingDllSelectionMode.acquisition nought) [
                | err e ↦ (next, some e)
                | ok root ↦ conclude_acquisition next qualified root
              ]
        ]

    unfoldable pub while_not_locked : SignalTracker F → SignalTracker F × Option UrbanError
    while_not_locked tracker =
        if ltb_ℤ (compare_sim_time current_time tracker.search_ready_time) (pos 0)
        then classified (
            clear_measurement_validity (record tracker {
              phase = SignalTrackingPhase.searching;
              above_acquisition_threshold_active = false;
            }))
        else while_acquiring tracker

    unfoldable pub lose :
        SignalTracker F → SignalTrackingLossReason → SignalTracker F × Option UrbanError
    lose tracker reason = classified (begin_tracking_loss tracker current_time reason)

    -- The end of an update that keeps the lock.
    unfoldable pub keep_lock :
        SignalTracker F → CodeTrackingDllRoot F → SignalTracker F × Option UrbanError
    keep_lock tracker root =
        then_classified (update_tracking_validity (with_previous_root root tracker) current_time)

    -- The tracker whose CN0 is too low, from now on if it was not before.
    unfoldable pub below_since : SignalTracker F → SignalTracker F
    below_since tracker =
        if tracker.below_tracking_threshold_active then tracker else record tracker {
          below_tracking_threshold_active = true;
          below_tracking_threshold_since = current_time;
        }

    -- While the CN0 is too low.
    unfoldable pub while_weak :
        SignalTracker F → CodeTrackingDllRoot F → SignalTracker F × Option UrbanError
    while_weak tracker root =
        elim (elapsed_at_least current_time tracker.below_tracking_threshold_since
          config.tracking_loss_cn0_persistence_ns) [
            | none ↦ (tracker, some loss_duration)
            | some loss_qualified ↦
                if loss_qualified
                then lose tracker SignalTrackingLossReason.low_cn0
                else keep_lock tracker root
          ]

    abbrev pub jumps : SignalTracker F → CodeTrackingDllRoot F → Bool
    jumps tracker root =
        tracker.previous_dll_root_valid
        && lt config.dll_root_jump_threshold_chips
            (absolute (sub root.code_phase_chips tracker.previous_dll_code_phase_chips))

    -- The update of a tracker whose root has been found.
    unfoldable pub follow_root :
        SignalTracker F → CodeTrackingDllRoot F → SignalTracker F × Option UrbanError
    follow_root tracker root =
        if jumps tracker root
        then lose tracker SignalTrackingLossReason.abrupt_dll_root_switch
        else if lt input.effective_cn0_dbhz config.minimum_tracking_cn0_dbhz
        then while_weak (below_since tracker) root
        else keep_lock (record tracker { below_tracking_threshold_active = false }) root

    unfoldable pub while_locked : SignalTracker F → SignalTracker F × Option UrbanError
    while_locked tracker =
        elim (select_root input CodeTrackingDllSelectionMode.tracked
          tracker.previous_dll_code_phase_sec) [
            | err e ↦ (tracker, some e)
            | ok none ↦ lose tracker SignalTrackingLossReason.no_stable_dll_root
            | ok (some root) ↦ follow_root (with_current_root root tracker) root
          ]

    unfoldable pub urban_step : SignalTracker F → SignalTracker F × Option UrbanError
    urban_step tracker =
        if not input.signal_available
        then classified (while_unavailable tracker)
        else if not tracker.scheduled
        then while_unscheduled tracker
        else if not (locked tracker)
        then while_not_locked tracker
        else while_locked tracker

    unfoldable pub urban_refused : SignalTracker F → Bool
    urban_refused tracker =
        not (valid_normalized_time current_time)
        || not (is_finite input.open_cn0_dbhz)
        || not (valid_effective_cn0 input.effective_cn0_dbhz)
        || is_none (find_signal_definition {F = F} tracker.signal_id)
        || not (config_valid config)

    unfoldable pub started : SignalTracker F → SignalTracker F
    started tracker = record tracker {
      reacquisition_event = false;
      cn0_dbhz = input.effective_cn0_dbhz;
      current_dll_root_valid = false;
    }

    -- The tracker and the error: `none` is success.
    unfoldable pub update_urban_signal_tracker :
        SignalTracker F → SignalTracker F × Option UrbanError
    update_urban_signal_tracker tracker =
        if urban_refused tracker
        then (tracker, some invalid_arguments)
        else if ltb_ℤ (compare_sim_time current_time tracker.state_since) (pos 0)
        then (tracker, some precedes_state)
        else urban_step (started tracker)

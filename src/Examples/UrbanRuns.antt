-- ===== src/Examples/UrbanRuns.antt =====
-- The choice of a root and the urban tracker: the theorems at concrete inputs, and a run.
use gnss_data_simulator.Prelude.{ℕ, ◌*◌, ◌≡◌, refl, Bool, true, false, List, [], ◌∷◌, some}
use gnss_data_simulator.Prelude.Int.{pos, ◌+ℤ◌, ◌-ℤ◌, ◌*ℤ◌, ◌/ℤ◌, ◌%ℤ◌}
use gnss_data_simulator.Double.Milli.{Milli, num, minus_inf, milli_double, Milli-IsOrdered}
use gnss_data_simulator.Rng.{seed_rng, rng_next_u32}
use gnss_data_simulator.Time.{
  SimTime, compare_sim_time, add_time_ns, difference_time_ns, valid_normalized_time,
  normalize_sim_time, checked_week_adjustment, week_delta_overflows, sum_overflows,
}
use gnss_data_simulator.Signals.{SignalId, find_signal_definition}
use gnss_data_simulator.CodeTracking.{
  CodeTrackingDllRoot, CodeTrackingDllSelectionMode, select_code_tracking_dll_root, consider_root,
  prefer,
}
use gnss_data_simulator.CodeTracking.Best.{Selects, select_code_tracking_dll_root-Selects}
use gnss_data_simulator.Tracking.Tracker.{
  SignalTrackingLossReason, AcquisitionContext, SignalTracker, SignalTrackingModelConfig,
}
use gnss_data_simulator.Tracking.Model.{
  default_signal_tracking_model_config, validate_signal_tracking_model_config,
}
use gnss_data_simulator.Tracking.{valid_delay_distribution, sample_delay, interpolate_integer}
use gnss_data_simulator.Tracking.Schedule.{
  Cn0Estimate, reset_signal_tracker, schedule_signal_acquisition, schedule_refused,
  acquisition_distribution_for, milestones, add_delay, with_schedule,
}
use gnss_data_simulator.Tracking.Urban.{
  UrbanSignalTrackingInput, valid_effective_cn0, elapsed_at_least, select_root, begin_tracking_loss,
  update_direct_classification, direct_classification,
}
use gnss_data_simulator.Tracking.Urban.Update.{
  update_acquisition_qualification, above_since, enter_tracking, validity_times, with_current_root,
  tracking_entered,
}
use gnss_data_simulator.Tracking.Urban.Step.{
  while_unavailable, update_urban_signal_tracker, urban_refused, started, urban_step,
  while_not_locked, while_acquiring, conclude_acquisition, while_locked, lose, then_classified,
}
use gnss_data_simulator.Tracking.Urban.Invariant.{IsCoherent}
use gnss_data_simulator.Tracking.Update.{switched_off, update_signal_tracker}
use gnss_data_simulator.Tracking.Urban.Reach.{
  turned_off, Reaches, reset, schedule, update, Reaches-IsCoherent,
}

abbrev root_at : ℕ → ℕ → Bool → CodeTrackingDllRoot Milli
root_at phase power stable = record {
  code_phase_sec = num (pos phase);
  code_phase_chips = num (pos phase);
  discriminator = num (pos 0);
  discriminator_slope_per_chip = num (pos 1000);
  prompt_power = num (pos power);
  stable = stable;
}

-- The second is unstable, the third the strongest of the stable ones.
abbrev roots : List (CodeTrackingDllRoot Milli)
roots = root_at 20 500 true ∷ root_at 10 990 false ∷ root_at 5 900 true ∷ []

select_code_tracking_dll_root-Selects_example :
    Selects Milli-IsOrdered CodeTrackingDllSelectionMode.acquisition
      (num (pos 0))
      roots
      (select_code_tracking_dll_root roots CodeTrackingDllSelectionMode.acquisition (num (pos 0)))
unfolding ◌-ℤ◌
select_code_tracking_dll_root-Selects_example =
    select_code_tracking_dll_root-Selects Milli-IsOrdered CodeTrackingDllSelectionMode.acquisition
      (num (pos 0)) roots
      (
        record { phase = refl; size = refl; distance = refl; power = refl },
        (
          record { phase = refl; size = refl; distance = refl; power = refl },
          (record { phase = refl; size = refl; distance = refl; power = refl }, tt),
        ),
      )

abbrev at : ℕ → SimTime
at milliseconds = record { gps_week = pos 2300; tow_ns = pos (milliseconds * 1_000_000) }

abbrev strong : Cn0Estimate Milli
strong signal_id elevation_deg time = some (num (pos 45_000))

abbrev config : SignalTrackingModelConfig Milli
config = default_signal_tracking_model_config

abbrev clear_sky : UrbanSignalTrackingInput Milli
clear_sky = record {
  signal_available = true;
  direct_line_of_sight = true;
  open_cn0_dbhz = num (pos 45_000);
  effective_cn0_dbhz = num (pos 45_000);
  dll_roots = roots;
}

-- Behind a building.
abbrev shadowed : UrbanSignalTrackingInput Milli
shadowed = record clear_sky {
  direct_line_of_sight = false;
  effective_cn0_dbhz = minus_inf;
  dll_roots = [];
}

abbrev scheduled : SignalTracker Milli
scheduled =
    (schedule_signal_acquisition strong config (reset_signal_tracker SignalId.gps_l1_ca (at 0))
      AcquisitionContext.hot (at 0) (at 1000) (num (pos 30_000)) (seed_rng 42 54)).0

abbrev waiting : SignalTracker Milli
waiting = (update_urban_signal_tracker (at 1000) clear_sky config scheduled).0

abbrev acquired : SignalTracker Milli
acquired = (update_urban_signal_tracker (at 2000) clear_sky config waiting).0

acquired-Reaches : Reaches acquired
acquired-Reaches = update (at 2000) clear_sky config (
    update (at 1000) clear_sky config (
      schedule strong config AcquisitionContext.hot (at 0) (at 1000) (num (pos 30_000))
        (seed_rng 42 54) (reset SignalId.gps_l1_ca (at 0))))

-- The signal is switched off while it is tracked.
abbrev off : SignalTracker Milli
off = (update_signal_tracker strong acquired (at 2500) false (num (pos 0))).0

Reaches-IsCoherent_example : IsCoherent off
Reaches-IsCoherent_example =
    Reaches-IsCoherent (turned_off strong (at 2500) (num (pos 0)) acquired-Reaches)

-- One second after the search is ready the signal has the lock, and behind the building it loses it.
lock_gained :
    (acquired.has_tracking_lock ≡ true)
    × ((update_urban_signal_tracker (at 3000) shadowed config acquired).0.has_tracking_lock ≡ false)
unfolding schedule_signal_acquisition schedule_refused validate_signal_tracking_model_config
    default_signal_tracking_model_config valid_delay_distribution valid_normalized_time
    compare_sim_time find_signal_definition reset_signal_tracker acquisition_distribution_for
    sample_delay milestones add_delay add_time_ns normalize_sim_time checked_week_adjustment
    seed_rng rng_next_u32 interpolate_integer update_urban_signal_tracker urban_refused
    valid_effective_cn0 started urban_step while_not_locked while_acquiring
    update_acquisition_qualification above_since elapsed_at_least difference_time_ns select_root
    select_code_tracking_dll_root consider_root prefer conclude_acquisition enter_tracking
    validity_times while_locked lose begin_tracking_loss then_classified with_schedule
    week_delta_overflows sum_overflows with_current_root update_direct_classification
    direct_classification tracking_entered ◌+ℤ◌ ◌-ℤ◌ ◌*ℤ◌ ◌/ℤ◌ ◌%ℤ◌
lock_gained = (refl, refl)

abbrev gone : UrbanSignalTrackingInput Milli
gone = record shadowed { signal_available = false }

-- Switched off first, the tracker does not record the loss as one of the signal.
loss_not_recorded :
    ((update_urban_signal_tracker (at 2500) gone config acquired).0.loss_reason
      ≡ SignalTrackingLossReason.signal_unavailable)
    × ((update_urban_signal_tracker (at 2500) gone config off).0.loss_reason
        ≡ SignalTrackingLossReason.none)
unfolding schedule_signal_acquisition schedule_refused validate_signal_tracking_model_config
    default_signal_tracking_model_config valid_delay_distribution valid_normalized_time
    compare_sim_time find_signal_definition reset_signal_tracker acquisition_distribution_for
    sample_delay milestones add_delay add_time_ns normalize_sim_time checked_week_adjustment
    seed_rng rng_next_u32 interpolate_integer update_urban_signal_tracker urban_refused
    valid_effective_cn0 started urban_step while_not_locked while_acquiring
    update_acquisition_qualification above_since elapsed_at_least difference_time_ns select_root
    select_code_tracking_dll_root consider_root prefer conclude_acquisition enter_tracking
    validity_times while_locked lose begin_tracking_loss then_classified with_schedule
    week_delta_overflows sum_overflows with_current_root update_direct_classification
    direct_classification tracking_entered ◌+ℤ◌ ◌-ℤ◌ ◌*ℤ◌ ◌/ℤ◌ ◌%ℤ◌ update_signal_tracker
    switched_off while_unavailable
loss_not_recorded = (refl, refl)

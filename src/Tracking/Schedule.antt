-- ===== src/Tracking/Schedule.antt =====
-- src/model/signal_tracking.cpp: the reset of a tracker and the schedule of its acquisition. The
-- estimate of the CN0 is the interface of the CN0 model: `none` where the model has no value.
use gnss_data_simulator.Prelude.{Bool, true, false, not, ◌||◌, Option, none, some, if◌then◌else◌}
use gnss_data_simulator.Prelude.Opt.{◌>>=◌, ◌>>◌, guard, is_none}
use gnss_data_simulator.Prelude.Int.{ℤ, pos, ltb_ℤ, leb_ℤ}
use gnss_data_simulator.Double.{Double, nought}
use gnss_data_simulator.Rng.{DeterministicRng}
use gnss_data_simulator.Time.{SimTime, compare_sim_time, add_time_ns, valid_normalized_time}
use gnss_data_simulator.Signals.{SignalId, find_signal_definition}
use gnss_data_simulator.Tracking.{DelayDistribution, sample_delay}
use gnss_data_simulator.Tracking.Tracker.{
  SignalTrackingPhase, AcquisitionContext, reacquisition, UrbanSignalState,
  SignalTrackingLossReason, Bands, SignalTrackingModelConfig, SignalTracker, TrackingError,
  schedule_arguments, cn0_for_acquisition, schedule_overflow,
}
use gnss_data_simulator.Tracking.Model.{config_valid}

-- The CN0 in dBHz that the model gives a signal at an elevation and a time.
abbrev pub Cn0Estimate : Type 0 → Type 0
Cn0Estimate F = SignalId → F → SimTime → Option F

-- The measurements are taken back.
unfoldable pub clear_observation_state :
    {F : Type 0} ⦃d : Double F⦄ → SignalTracker F → SignalTracker F
clear_observation_state tracker = record tracker {
  cn0_dbhz = nought;
  lock_time_ns = pos 0;
  psr_valid = false;
  doppler_valid = false;
  adr_valid = false;
  observation_available = false;
  carrier_continuity_valid = false;
}

unfoldable pub reset_urban_tracking_overlay :
    {F : Type 0} ⦃d : Double F⦄ → SignalTracker F → SimTime → SignalTracker F
reset_urban_tracking_overlay tracker time = record tracker {
  urban_state = UrbanSignalState.blocked;
  loss_reason = SignalTrackingLossReason.none;
  above_acquisition_threshold_since = time;
  below_tracking_threshold_since = time;
  above_acquisition_threshold_active = false;
  below_tracking_threshold_active = false;
  has_tracking_lock = false;
  previous_dll_root_valid = false;
  current_dll_root_valid = false;
  previous_dll_code_phase_sec = nought;
  previous_dll_code_phase_chips = nought;
  current_dll_code_phase_sec = nought;
  current_dll_code_phase_chips = nought;
  current_dll_prompt_power = nought;
  reacquisition_pending = false;
  reacquisition_event = false;
  carrier_continuity_valid = false;
}

unfoldable pub add_delay : SimTime → ℤ → Option SimTime
add_delay time delay_ns = do guard (leb_ℤ (pos 0) delay_ns); add_time_ns time delay_ns

-- The times at which the acquisition and the three measurements are complete.
pub record Milestones : Type 0 where
  pub acquisition_complete : SimTime
  pub psr : SimTime
  pub doppler : SimTime
  pub adr : SimTime

abbrev pub is_reacquisition : AcquisitionContext → Bool
is_reacquisition reacquisition = true
is_reacquisition _ = false

module _ {F : Type 0} ⦃d : Double F⦄ where
  open d use {decimal, le, is_finite}

  unfoldable pub cn0_band : Bands → F → DelayDistribution
  cn0_band bands cn0_dbhz =
      if le (decimal (pos 40) 0) cn0_dbhz
      then bands.strong
      else if le (decimal (pos 35) 0) cn0_dbhz
      then bands.medium
      else if le (decimal (pos 30) 0) cn0_dbhz
      then bands.weak
      else bands.weakest

  unfoldable pub reset_signal_tracker : SignalId → SimTime → SignalTracker F
  unfolding clear_observation_state reset_urban_tracking_overlay
  reset_signal_tracker signal_id reset_time =
      reset_urban_tracking_overlay
        (clear_observation_state (record {
          signal_id = signal_id;
          phase = SignalTrackingPhase.signal_off;
          acquisition_context = AcquisitionContext.hot;
          state_since = reset_time;
          search_ready_time = reset_time;
          acquisition_complete_time = reset_time;
          tracking_start_time = reset_time;
          psr_valid_time = reset_time;
          doppler_valid_time = reset_time;
          adr_valid_time = reset_time;
          cn0_dbhz = nought;
          lock_time_ns = pos 0;
          scheduled = false;
          psr_valid = false;
          doppler_valid = false;
          adr_valid = false;
          observation_available = false;
          urban_state = UrbanSignalState.los;
          loss_reason = SignalTrackingLossReason.none;
          above_acquisition_threshold_since = record { gps_week = pos 0; tow_ns = pos 0 };
          below_tracking_threshold_since = record { gps_week = pos 0; tow_ns = pos 0 };
          above_acquisition_threshold_active = false;
          below_tracking_threshold_active = false;
          has_tracking_lock = false;
          previous_dll_root_valid = false;
          current_dll_root_valid = false;
          previous_dll_code_phase_sec = nought;
          previous_dll_code_phase_chips = nought;
          current_dll_code_phase_sec = nought;
          current_dll_code_phase_chips = nought;
          current_dll_prompt_power = nought;
          reacquisition_pending = false;
          reacquisition_event = false;
          carrier_continuity_valid = false;
        }))
        reset_time

  unfoldable pub milestones : SignalTrackingModelConfig F → SimTime → ℤ → Option Milestones
  milestones config search_ready_time acquisition_delay_ns = do
    acquisition_complete ← add_delay search_ready_time acquisition_delay_ns
    psr ← add_delay acquisition_complete config.psr_valid_delay_ns
    doppler ← add_delay acquisition_complete config.doppler_valid_delay_ns
    adr ← add_delay acquisition_complete config.adr_valid_delay_ns
    some (record {
      acquisition_complete = acquisition_complete;
      psr = psr;
      doppler = doppler;
      adr = adr;
    })

  unfoldable pub acquisition_distribution_for :
      SignalTrackingModelConfig F → AcquisitionContext → F → DelayDistribution
  unfolding cn0_band
  acquisition_distribution_for config context cn0_dbhz =
      cn0_band
        (if is_reacquisition context then config.reacquisition else config.hot_signal_acquisition)
        cn0_dbhz

  -- The tracker with its schedule.
  unfoldable pub with_schedule :
      SignalTracker F → AcquisitionContext → SimTime → SimTime → F → Milestones → SignalTracker F
  with_schedule tracker context signal_on_time search_ready_time cn0_dbhz times = record tracker {
    phase = SignalTrackingPhase.searching;
    acquisition_context = context;
    state_since = signal_on_time;
    search_ready_time = search_ready_time;
    acquisition_complete_time = times.acquisition_complete;
    tracking_start_time = times.acquisition_complete;
    psr_valid_time = times.psr;
    doppler_valid_time = times.doppler;
    adr_valid_time = times.adr;
    cn0_dbhz = cn0_dbhz;
    scheduled = true;
    lock_time_ns = pos 0;
    psr_valid = false;
    doppler_valid = false;
    adr_valid = false;
    observation_available = false;
    above_acquisition_threshold_active = false;
    below_tracking_threshold_active = false;
    has_tracking_lock = false;
    previous_dll_root_valid = false;
    current_dll_root_valid = false;
    reacquisition_pending = false;
    reacquisition_event = false;
    carrier_continuity_valid = false;
  }

  -- The test at the start.
  unfoldable pub schedule_refused :
      SignalTrackingModelConfig F → SignalTracker F → SimTime → SimTime → F → Bool
  schedule_refused config tracker signal_on_time search_ready_time elevation_deg =
      not (valid_normalized_time signal_on_time)
      || not (valid_normalized_time search_ready_time)
      || ltb_ℤ (compare_sim_time search_ready_time signal_on_time) (pos 0)
      || not (is_finite elevation_deg)
      || is_none (find_signal_definition {F = F} tracker.signal_id)
      || not (config_valid config)

  -- The tracker, the generator and the error: `none` is success.
  unfoldable pub schedule_signal_acquisition :
      Cn0Estimate F
      → SignalTrackingModelConfig F
      → SignalTracker F
      → AcquisitionContext
      → SimTime
      → SimTime
      → F
      → DeterministicRng
      → SignalTracker F × DeterministicRng × Option TrackingError
  schedule_signal_acquisition estimate config tracker context signal_on_time search_ready_time
        elevation_deg rng =
      if schedule_refused config tracker signal_on_time search_ready_time elevation_deg
      then (tracker, rng, some schedule_arguments)
      else elim (estimate tracker.signal_id elevation_deg search_ready_time) [
        | none ↦ (tracker, rng, some cn0_for_acquisition)
        | some cn0_dbhz ↦
            let distribution = acquisition_distribution_for config context cn0_dbhz in
            let (acquisition_delay_ns, rng') = sample_delay distribution rng in
            elim (milestones config search_ready_time acquisition_delay_ns) [
              | none ↦ (tracker, rng', some schedule_overflow)
              | some times ↦ (
                with_schedule tracker context signal_on_time search_ready_time cn0_dbhz times,
                rng',
                none,
              )
            ]
      ]

-- ===== src/Tracking/Tracker.antt =====
-- src/model/signal_tracking.h and src/model/signal_tracking.cpp: the data of the trackers: the
-- configuration of the model and the state of the tracker of one signal.
use gnss_data_simulator.Prelude.{Bool}
use gnss_data_simulator.Prelude.Int.{ℤ}
use gnss_data_simulator.Time.{SimTime}
use gnss_data_simulator.Signals.{SignalId}
use gnss_data_simulator.Config.{StartupMode}
use gnss_data_simulator.Tracking.{DelayDistribution}

pub data SignalTrackingPhase : Type 0 where
  signal_off searching acquiring tracking : SignalTrackingPhase

pub data AcquisitionContext : Type 0 where
  hot warm cold reacquisition : AcquisitionContext

pub data UrbanSignalState : Type 0 where
  los los_multipath nlos_tracked blocked : UrbanSignalState

pub data SignalTrackingLossReason : Type 0 where
  none signal_unavailable low_cn0 no_stable_dll_root abrupt_dll_root_switch :
      SignalTrackingLossReason

-- The arrays of four distributions, by the band of the CN0.
pub record Bands : Type 0 where
  pub strong : DelayDistribution
  pub medium : DelayDistribution
  pub weak : DelayDistribution
  pub weakest : DelayDistribution

pub record SignalTrackingModelConfig (F : Type 0) : Type 0 where
  pub hot_common_startup : DelayDistribution
  pub warm_common_startup : DelayDistribution
  pub warm_search_uncertainty : DelayDistribution
  pub hot_signal_acquisition : Bands
  pub reacquisition : Bands
  pub psr_valid_delay_ns : ℤ
  pub doppler_valid_delay_ns : ℤ
  pub adr_valid_delay_ns : ℤ
  pub minimum_tracking_cn0_dbhz : F
  pub acquisition_cn0_threshold_dbhz : F
  pub acquisition_cn0_persistence_ns : ℤ
  pub tracking_loss_cn0_persistence_ns : ℤ
  pub dll_root_jump_threshold_chips : F
  pub los_multipath_cn0_delta_db : F
  pub los_multipath_code_bias_chips : F

pub record ReceiverStartupTiming : Type 0 where
  pub startup_mode : StartupMode
  pub common_startup_delay_ns : ℤ
  pub search_uncertainty_delay_ns : ℤ
  pub total_search_ready_delay_ns : ℤ

pub record SignalTracker (F : Type 0) : Type 0 where
  pub signal_id : SignalId
  pub phase : SignalTrackingPhase
  pub acquisition_context : AcquisitionContext
  pub state_since : SimTime
  pub search_ready_time : SimTime
  pub acquisition_complete_time : SimTime
  pub tracking_start_time : SimTime
  pub psr_valid_time : SimTime
  pub doppler_valid_time : SimTime
  pub adr_valid_time : SimTime
  pub cn0_dbhz : F
  pub lock_time_ns : ℤ
  pub scheduled : Bool
  pub psr_valid : Bool
  pub doppler_valid : Bool
  pub adr_valid : Bool
  pub observation_available : Bool
  pub urban_state : UrbanSignalState
  pub loss_reason : SignalTrackingLossReason
  pub above_acquisition_threshold_since : SimTime
  pub below_tracking_threshold_since : SimTime
  pub above_acquisition_threshold_active : Bool
  pub below_tracking_threshold_active : Bool
  pub has_tracking_lock : Bool
  pub previous_dll_root_valid : Bool
  pub current_dll_root_valid : Bool
  pub previous_dll_code_phase_sec : F
  pub previous_dll_code_phase_chips : F
  pub current_dll_code_phase_sec : F
  pub current_dll_code_phase_chips : F
  pub current_dll_prompt_power : F
  pub reacquisition_pending : Bool
  pub reacquisition_event : Bool
  pub carrier_continuity_valid : Bool

pub data TrackingError : Type 0 where
  startup_distribution acquisition_distribution negative_delays thresholds : TrackingError
  schedule_arguments cn0_for_acquisition schedule_overflow : TrackingError
  update_arguments not_scheduled precedes_signal_on cn0_for_tracking lock_time : TrackingError

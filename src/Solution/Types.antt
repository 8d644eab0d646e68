-- ===== src/Solution/Types.antt =====
-- src/solution/solution_engine.h, src/model/measurement_model.h and src/gnss/rtklib_adapter.h: the
-- solutions and the observations that they are made of.
use gnss_data_simulator.Prelude.{Bool}
use gnss_data_simulator.Prelude.Int.{ℤ}
use gnss_data_simulator.Signals.{SignalId}
use Prim.Native.String.{String}

pub data ReceiverSolutionStatus : Type 0 where
  insufficient_obs sol_computed : ReceiverSolutionStatus

pub data ReceiverSolutionType : Type 0 where
  none single : ReceiverSolutionType

pub record PositionSolution (F : Type 0) : Type 0 where
  pub valid : Bool
  pub status : ReceiverSolutionStatus
  pub type : ReceiverSolutionType
  pub position_ecef_m : F × F × F
  pub latitude_deg : F
  pub longitude_deg : F
  pub height_m : F
  pub receiver_clock_bias_m : F
  pub covariance_ecef_m2 : F × F × F × F × F × F
  pub latitude_std_m : F
  pub longitude_std_m : F
  pub height_std_m : F
  pub used_satellites : ℤ
  pub diagnostic : String

pub data BroadcastCodeBiasStatus : Type 0 where
  applied no_correction unavailable_for_message_family : BroadcastCodeBiasStatus

pub data RtklibBroadcastMessageFamily : Type 0 where
  unknown legacy cnav cnav2 galileo_inav galileo_fnav : RtklibBroadcastMessageFamily
  beidou_bcnav1 beidou_bcnav2 beidou_bcnav3 glonass_fdma : RtklibBroadcastMessageFamily
  glonass_l3_oc : RtklibBroadcastMessageFamily

pub record MeasurementObservation (F : Type 0) : Type 0 where
  pub signal_id : SignalId
  pub satellite_number : ℤ
  pub glonass_fcn : ℤ
  pub wavelength_m : F
  pub geometric_range_m : F
  pub range_rate_mps : F
  pub satellite_clock_bias_m : F
  pub satellite_clock_drift_mps : F
  pub broadcast_message_family : RtklibBroadcastMessageFamily
  pub tgd_sec : F × F × F × F
  pub isc_sec : F × F × F × F × F × F
  pub glonass_dtaun_sec : F
  pub code_bias_m : F
  pub ionosphere_code_delay_m : F
  pub troposphere_delay_m : F
  pub pseudorange_m : F
  pub doppler_hz : F
  pub adr_cycles : F
  pub cn0_dbhz : F
  pub lock_time_ns : ℤ
  pub ambiguity_cycles : ℤ
  pub code_bias_status : BroadcastCodeBiasStatus
  pub observation_available : Bool
  pub pseudorange_valid : Bool
  pub doppler_valid : Bool
  pub adr_valid : Bool

pub record RtklibSolutionObservation (F : Type 0) : Type 0 where
  pub satellite_number : ℤ
  pub observation_code : ℤ
  pub message_family : RtklibBroadcastMessageFamily
  pub pseudorange_m : F
  pub code_bias_m : F
  pub doppler_hz : F
  pub wavelength_m : F
  pub cn0_dbhz : F
  pub pseudorange_valid : Bool
  pub doppler_valid : Bool

pub record SelectedObservation (F : Type 0) : Type 0 where
  pub satellite_number : ℤ
  pub priority : ℤ
  pub observation : RtklibSolutionObservation F

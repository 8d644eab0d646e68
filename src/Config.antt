-- ===== src/Config.antt =====
-- include/gnss_sim/sim_config.h and the checks of src/core/sim_config.cpp: the configuration of a run.
-- `int` and `std::int64_t` fields are integers, the seed a number below 2 ^ 64. Reading the JSON file
-- is left out.
pub mod Validate
use gnss_data_simulator.Prelude.{ℕ, Bool, List}
use gnss_data_simulator.Prelude.Int.{ℤ}
use Prim.Native.String.{String}

pub data ScenarioType : Type 0 where
  ks rea ttff : ScenarioType

pub data StartupMode : Type 0 where
  hot warm cold : StartupMode

pub data AtmosphereMode : Type 0 where
  unspecified none broadcast : AtmosphereMode

pub data NavLogFormat : Type 0 where
  novatel unicore : NavLogFormat

pub record ReceiverConfig (F : Type 0) : Type 0 where
  pub latitude_deg : F
  pub longitude_deg : F
  pub height_m : F

pub record TtffConfig : Type 0 where
  pub startup_mode : StartupMode
  pub power_on_ns : ℤ
  pub power_off_ns : ℤ

pub record ReaConfig : Type 0 where
  pub signal_on_ns : ℤ
  pub signal_off_ns : ℤ

pub record BestposRtkConfig (F : Type 0) : Type 0 where
  pub enabled : Bool
  pub stable_duration_ns : ℤ
  pub min_used_satellites : ℤ
  pub horizontal_std_m : F
  pub height_std_m : F

pub record MeasurementTransientErrorConfig (F : Type 0) : Type 0 where
  pub psr_extra_sigma_m : F
  pub doppler_extra_sigma_mps : F
  pub cn0_extra_sigma_dbhz : F
  pub decay_tau_sec : F

pub record MeasurementFadeErrorConfig (F : Type 0) : Type 0 where
  pub duration_sec : F
  pub psr_extra_sigma_m : F
  pub doppler_extra_sigma_mps : F
  pub cn0_drop_db : F

pub record MeasurementErrorConfig (F : Type 0) : Type 0 where
  pub psr_sigma_m : F
  pub doppler_sigma_mps : F
  pub adr_sigma_m : F
  pub cn0_sigma_dbhz : F
  pub psr_correlation_tau_sec : F
  pub ttff_hot : MeasurementTransientErrorConfig F
  pub ttff_warm : MeasurementTransientErrorConfig F
  pub ttff_cold : MeasurementTransientErrorConfig F
  pub rea_reacquisition : MeasurementTransientErrorConfig F
  pub rea_fade : MeasurementFadeErrorConfig F

pub record CarrierTrackingReceiverConfig (F : Type 0) : Type 0 where
  pub enabled : Bool
  pub coherent_integration_sec : F
  pub pll_noise_bandwidth_hz : F
  pub fll_noise_bandwidth_hz : F
  pub fll_pull_in_bandwidth_hz : F
  pub fll_pull_in_duration_sec : F
  pub pll_enter_cn0_dbhz : F
  pub pll_exit_cn0_dbhz : F
  pub pll_enter_persistence_sec : F
  pub pll_exit_persistence_sec : F
  pub fll_enter_cn0_dbhz : F
  pub fll_exit_cn0_dbhz : F
  pub fll_enter_persistence_sec : F
  pub fll_exit_persistence_sec : F
  pub doppler_valid_delay_sec : F
  pub adr_valid_after_pll_sec : F

pub record UrbanRfMaterialConfig (F : Type 0) : Type 0 where
  pub relative_permittivity_real : F
  pub conductivity_c_s_per_m : F
  pub conductivity_exponent : F
  pub outer_glass_thickness_m : F
  pub cavity_thickness_m : F
  pub inner_glass_thickness_m : F
  pub coating_sheet_resistance_ohm_sq : F

pub record UrbanRfPolarizationResponseConfig (F : Type 0) : Type 0 where
  pub gain_db_horizon : F
  pub gain_db_zenith : F
  pub phase_deg_horizon : F
  pub phase_deg_zenith : F

pub record UrbanRfAntennaConfig (F : Type 0) : Type 0 where
  pub rhcp : UrbanRfPolarizationResponseConfig F
  pub lhcp : UrbanRfPolarizationResponseConfig F

pub record UrbanRfSignalOverrideConfig (F : Type 0) : Type 0 where
  pub signal_name : String
  pub material : UrbanRfMaterialConfig F
  pub antenna : UrbanRfAntennaConfig F

pub record UrbanRfConfig (F : Type 0) : Type 0 where
  pub default_material : UrbanRfMaterialConfig F
  pub default_antenna : UrbanRfAntennaConfig F
  pub signal_overrides : List (UrbanRfSignalOverrideConfig F)

pub record Cn0HighBaselineConfig (F : Type 0) : Type 0 where
  pub signal_name : String
  pub cn0_dbhz : F

pub record SimConfig (F : Type 0) : Type 0 where
  pub schema_version : ℤ
  pub scenario : ScenarioType
  pub duration_ns : ℤ
  pub sampling_rate_hz : ℤ
  pub elevation_mask_deg : F
  pub solution_elevation_mask_deg : F
  pub output_eph : Bool
  pub output_ion : Bool
  pub nav_log_format : NavLogFormat
  pub measurement_noise_enabled : Bool
  pub multipath_enabled : Bool
  pub receiver_clock_bias_m : F
  pub receiver_clock_drift_mps : F
  pub atmosphere_mode : AtmosphereMode
  pub receiver : ReceiverConfig F
  pub ttff : TtffConfig
  pub rea : ReaConfig
  pub bestpos_rtk : BestposRtkConfig F
  pub measurement_error : MeasurementErrorConfig F
  pub carrier_tracking : CarrierTrackingReceiverConfig F
  pub urban_rf : UrbanRfConfig F
  pub cn0_high_dbhz : List (Cn0HighBaselineConfig F)
  pub seed : ℕ

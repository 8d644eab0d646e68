-- ===== src/Config/Validate.antt =====
-- src/core/sim_config.cpp: the checks of a configuration. Each message is a constructor.
use text.Mathlib.Text.{◌==◌ as str_eq}
use gnss_data_simulator.Prelude.{
  Bool, true, false, not, ◌&&◌, ◌||◌, Option, none, some, List, [], ◌∷◌,
}
use gnss_data_simulator.Prelude.Int.{pos, negsuc, leb_ℤ, ltb_ℤ, eq_ℤ}
use gnss_data_simulator.Prelude.Result.{Result, ok, err, require, ◌>>◌}
use gnss_data_simulator.Double.{Double, nought, eq, finite_nonnegative, positive_finite}
use gnss_data_simulator.Time.{sampling_interval_ns}
use gnss_data_simulator.Signals.{SignalDefinition, find_first, signal_definitions}
use gnss_data_simulator.Carrier.{
  CarrierTrackingConfig, CarrierError, validate_carrier_tracking_config,
}
use gnss_data_simulator.Config.{
  SimConfig, BestposRtkConfig, MeasurementErrorConfig, MeasurementTransientErrorConfig,
  MeasurementFadeErrorConfig, CarrierTrackingReceiverConfig, UrbanRfMaterialConfig, UrbanRfConfig,
  UrbanRfPolarizationResponseConfig, UrbanRfAntennaConfig, UrbanRfSignalOverrideConfig,
  Cn0HighBaselineConfig,
}
use Prim.Native.String.{String}

pub data ConfigError : Type 0 where
  schema_version duration sampling_rate elevation_mask solution_elevation_mask : ConfigError
  bestpos_rtk measurement_error urban_rf cn0_high clock_bias clock_drift : ConfigError
  latitude longitude_or_height ttff_durations rea_durations : ConfigError
  carrier_tracking : CarrierError → ConfigError

-- Whether the name is among those before it in the vector.
abbrev named_before : String → List String → Bool
named_before name [] = false
named_before name (other ∷ rest) = str_eq other name || named_before name rest

abbrev is_some : {A : Type 0} → Option A → Bool
is_some (some a) = true
is_some none = false

module _ {F : Type 0} ⦃d : Double F⦄ where
  open d use {decimal, lt, is_finite, negate}

  unfoldable pub to_carrier_tracking_config :
      CarrierTrackingReceiverConfig F → CarrierTrackingConfig F
  to_carrier_tracking_config config = record {
    coherent_integration_sec = config.coherent_integration_sec;
    pll_noise_bandwidth_hz = config.pll_noise_bandwidth_hz;
    fll_noise_bandwidth_hz = config.fll_noise_bandwidth_hz;
    fll_pull_in_bandwidth_hz = config.fll_pull_in_bandwidth_hz;
    fll_pull_in_duration_sec = config.fll_pull_in_duration_sec;
    pll_enter_cn0_dbhz = config.pll_enter_cn0_dbhz;
    pll_exit_cn0_dbhz = config.pll_exit_cn0_dbhz;
    pll_enter_persistence_sec = config.pll_enter_persistence_sec;
    pll_exit_persistence_sec = config.pll_exit_persistence_sec;
    fll_enter_cn0_dbhz = config.fll_enter_cn0_dbhz;
    fll_exit_cn0_dbhz = config.fll_exit_cn0_dbhz;
    fll_enter_persistence_sec = config.fll_enter_persistence_sec;
    fll_exit_persistence_sec = config.fll_exit_persistence_sec;
    doppler_valid_delay_sec = config.doppler_valid_delay_sec;
    adr_valid_after_pll_sec = config.adr_valid_after_pll_sec;
  }

  unfoldable pub valid_measurement_transient : MeasurementTransientErrorConfig F → Bool
  valid_measurement_transient config =
      finite_nonnegative config.psr_extra_sigma_m
      && finite_nonnegative config.doppler_extra_sigma_mps
      && finite_nonnegative config.cn0_extra_sigma_dbhz
      && positive_finite config.decay_tau_sec

  unfoldable pub valid_measurement_fade : MeasurementFadeErrorConfig F → Bool
  valid_measurement_fade config =
      finite_nonnegative config.duration_sec
      && finite_nonnegative config.psr_extra_sigma_m
      && finite_nonnegative config.doppler_extra_sigma_mps
      && finite_nonnegative config.cn0_drop_db

  unfoldable pub valid_bestpos_rtk_config : BestposRtkConfig F → Bool
  valid_bestpos_rtk_config config =
      leb_ℤ (pos 0) config.stable_duration_ns
      && leb_ℤ (pos 4) config.min_used_satellites
      && leb_ℤ config.min_used_satellites (pos 64)
      && finite_nonnegative config.horizontal_std_m
      && finite_nonnegative config.height_std_m

  unfoldable pub valid_measurement_error_config : MeasurementErrorConfig F → Bool
  unfolding valid_measurement_transient valid_measurement_fade
  valid_measurement_error_config config =
      finite_nonnegative config.psr_sigma_m
      && finite_nonnegative config.doppler_sigma_mps
      && finite_nonnegative config.adr_sigma_m
      && finite_nonnegative config.cn0_sigma_dbhz
      && positive_finite config.psr_correlation_tau_sec
      && valid_measurement_transient config.ttff_hot
      && valid_measurement_transient config.ttff_warm
      && valid_measurement_transient config.ttff_cold
      && valid_measurement_transient config.rea_reacquisition
      && valid_measurement_fade config.rea_fade

  unfoldable pub valid_urban_rf_material : UrbanRfMaterialConfig F → Bool
  valid_urban_rf_material config =
      positive_finite config.relative_permittivity_real
      && finite_nonnegative config.conductivity_c_s_per_m
      && finite_nonnegative config.conductivity_exponent
      && positive_finite config.outer_glass_thickness_m
      && positive_finite config.cavity_thickness_m
      && positive_finite config.inner_glass_thickness_m
      && positive_finite config.coating_sheet_resistance_ohm_sq

  unfoldable pub valid_urban_rf_polarization : UrbanRfPolarizationResponseConfig F → Bool
  valid_urban_rf_polarization config =
      is_finite config.gain_db_horizon
      && is_finite config.gain_db_zenith
      && is_finite config.phase_deg_horizon
      && is_finite config.phase_deg_zenith

  unfoldable pub valid_urban_rf_antenna : UrbanRfAntennaConfig F → Bool
  valid_urban_rf_antenna config =
      valid_urban_rf_polarization config.rhcp && valid_urban_rf_polarization config.lhcp

  unfoldable pub find_signal_definition_by_name : String → Option (SignalDefinition F)
  unfolding find_first signal_definitions
  find_signal_definition_by_name name =
      find_first (λ definition. str_eq definition.name name) signal_definitions

  -- The loop over the overrides, with the names before.
  unfoldable pub valid_overrides : List String → List (UrbanRfSignalOverrideConfig F) → Bool
  valid_overrides before [] = true
  valid_overrides before (config ∷ rest) =
      is_some (find_signal_definition_by_name config.signal_name)
      && valid_urban_rf_material config.material
      && valid_urban_rf_antenna config.antenna
      && not (named_before config.signal_name before)
      && valid_overrides (config.signal_name ∷ before) rest

  unfoldable pub valid_urban_rf_config : UrbanRfConfig F → Bool
  unfolding valid_overrides
  valid_urban_rf_config config =
      valid_urban_rf_material config.default_material
      && valid_urban_rf_antenna config.default_antenna
      && valid_overrides [] config.signal_overrides

  -- The loop over the baselines, with the names before.
  unfoldable pub valid_cn0_high_baselines : List String → List (Cn0HighBaselineConfig F) → Bool
  valid_cn0_high_baselines before [] = true
  valid_cn0_high_baselines before (baseline ∷ rest) =
      is_finite baseline.cn0_dbhz
      && is_some (find_signal_definition_by_name baseline.signal_name)
      && not (named_before baseline.signal_name before)
      && valid_cn0_high_baselines (baseline.signal_name ∷ before) rest

  -- Finite, not below the first bound and not above the second.
  within : F → F → F → Bool
  within low high value = is_finite value && not (lt value low) && not (lt high value)

  carrier_tracking_valid : CarrierTrackingReceiverConfig F → Result ConfigError (Unit {0})
  carrier_tracking_valid config =
      elim (validate_carrier_tracking_config (to_carrier_tracking_config config)) [
        | ok u ↦ ok tt
        | err e ↦ err (carrier_tracking e)
      ]

  -- The last two checks, which the scenarios rely on.
  unfoldable pub durations_valid : SimConfig F → Result ConfigError (Unit {0})
  durations_valid config = do
    require (ltb_ℤ (pos 0) config.ttff.power_on_ns && ltb_ℤ (pos 0) config.ttff.power_off_ns)
        ttff_durations
    require (ltb_ℤ (pos 0) config.rea.signal_on_ns && ltb_ℤ (pos 0) config.rea.signal_off_ns)
        rea_durations

  -- The checks before them.
  unfoldable pub settings_valid : SimConfig F → Result ConfigError (Unit {0})
  unfolding within carrier_tracking_valid
  settings_valid config = do
    require (eq_ℤ config.schema_version (pos 1)) schema_version
    require (ltb_ℤ (pos 0) config.duration_ns) duration
    require (is_some (sampling_interval_ns config.sampling_rate_hz)) sampling_rate
    require (within nought (decimal (pos 90) 0) config.elevation_mask_deg) elevation_mask
    require (within nought (decimal (pos 90) 0) config.solution_elevation_mask_deg)
        solution_elevation_mask
    require (valid_bestpos_rtk_config config.bestpos_rtk) bestpos_rtk
    require (valid_measurement_error_config config.measurement_error) measurement_error
    carrier_tracking_valid config.carrier_tracking
    require (valid_urban_rf_config config.urban_rf) urban_rf
    require (valid_cn0_high_baselines [] config.cn0_high_dbhz) cn0_high
    require (eq config.receiver_clock_bias_m nought) clock_bias
    require (is_finite config.receiver_clock_drift_mps) clock_drift
    require (within (decimal (negsuc 89) 0) (decimal (pos 90) 0) config.receiver.latitude_deg)
        latitude
    require
        (within (decimal (negsuc 179) 0) (decimal (pos 180) 0) config.receiver.longitude_deg
          && is_finite config.receiver.height_m)
        longitude_or_height

  unfoldable pub validate_sim_config : SimConfig F → Result ConfigError (Unit {0})
  validate_sim_config config = do settings_valid config; durations_valid config

-- ===== src/Carrier.antt =====
-- src/model/carrier_tracking.h and the first half of src/model/carrier_tracking.cpp: the
-- configuration, the state and the jitter of a carrier tracker. A function that writes a message and
-- returns `false` returns that message; null outputs have no counterpart.
pub mod Update
pub mod Machine
pub mod Invariant
pub mod Thresholds
pub mod Reports
pub mod Runtime
pub mod Segments
pub mod Apply
use gnss_data_simulator.Prelude.{ℕ, Bool, true, false, not, ◌&&◌, ◌||◌, if◌then◌else◌}
use gnss_data_simulator.Prelude.Int.{ℤ, pos}
use gnss_data_simulator.Prelude.Result.{Result, ok, err, require, ◌>>=◌, ◌>>◌}
use gnss_data_simulator.Double.{Double, nought, max, clamp, positive_finite}

pub data CarrierTrackingMode : Type 0 where
  carrier_unlocked fll_track pll_track : CarrierTrackingMode

pub data CarrierTrackingFllPhase : Type 0 where
  none pull_in steady : CarrierTrackingFllPhase

pub data CarrierError : Type 0 where
  integration_time bandwidths pull_in_bandwidth durations : CarrierError
  thresholds_finite thresholds_ordered : CarrierError
  cn0_not_finite wavelength dt gaussian jitter_not_finite error_not_finite : CarrierError

pub record CarrierTrackingConfig (F : Type 0) : Type 0 where
  pub coherent_integration_sec : F
  pub pll_noise_bandwidth_hz : F
  pub fll_noise_bandwidth_hz : F
  pub fll_pull_in_bandwidth_hz : F
  pub fll_pull_in_duration_sec : F
  pub pll_enter_cn0_dbhz : F
  pub pll_exit_cn0_dbhz : F
  pub pll_enter_persistence_sec : F
  pub pll_exit_persistence_sec : F
  pub fll_enter_cn0_dbhz : F
  pub fll_exit_cn0_dbhz : F
  pub fll_enter_persistence_sec : F
  pub fll_exit_persistence_sec : F
  pub doppler_valid_delay_sec : F
  pub adr_valid_after_pll_sec : F

-- The segment number is a `std::uint64_t`.
pub record CarrierTrackingState (F : Type 0) : Type 0 where
  pub mode : CarrierTrackingMode
  pub fll_pull_in_active : Bool
  pub mode_age_sec : F
  pub carrier_lock_age_sec : F
  pub pll_age_sec : F
  pub fll_enter_persistence_sec : F
  pub fll_exit_persistence_sec : F
  pub pll_enter_persistence_sec : F
  pub pll_exit_persistence_sec : F
  pub tracking_error_hz : F
  pub carrier_segment_id : ℕ

pub record CarrierTrackingInput (F : Type 0) : Type 0 where
  pub signal_available : Bool
  pub effective_cn0_dbhz : F
  pub wavelength_m : F
  pub dt_sec : F
  pub standard_normal_sample : F

pub record CarrierTrackingJitter (F : Type 0) : Type 0 where
  pub cn0_linear_hz : F
  pub active_bandwidth_hz : F
  pub phase_sigma_rad : F
  pub sigma_hz : F
  pub sigma_mps : F
  pub correlation_tau_sec : F
  pub correlation_alpha : F

pub record CarrierTrackingResult (F : Type 0) : Type 0 where
  pub mode : CarrierTrackingMode
  pub fll_phase : CarrierTrackingFllPhase
  pub jitter : CarrierTrackingJitter F
  pub tracking_error_hz : F
  pub tracking_error_mps : F
  pub carrier_lock_age_sec : F
  pub pll_age_sec : F
  pub carrier_segment_id : ℕ
  pub doppler_valid : Bool
  pub adr_valid : Bool
  pub mode_changed : Bool
  pub new_carrier_segment : Bool

module _ {F : Type 0} ⦃d : Double F⦄ where
  open d use {decimal, add, mul, div, negate, sqrt, exp, pow, lt, le, is_finite}

  abbrev two_pi : F
  two_pi = decimal (pos 6_283_185_307_179_586_476_925_286_766_559) 30

  abbrev minimum_cn0_linear_hz : F
  minimum_cn0_linear_hz = decimal (pos 1) 12

  abbrev maximum_cn0_linear_hz : F
  maximum_cn0_linear_hz = decimal (pos 1_000_000_000_000) 0

  unfoldable pub elapsed_reached : F → F → Bool
  elapsed_reached elapsed_sec threshold_sec =
      le threshold_sec (add elapsed_sec (decimal (pos 1) 12))

  cn0_dbhz_to_linear : F → F
  cn0_dbhz_to_linear cn0_dbhz =
      let exponent = div cn0_dbhz (decimal (pos 10) 0) in
      let value = pow (decimal (pos 10) 0) exponent in
      clamp
        (if is_finite value
          then value
          else if lt nought exponent
          then maximum_cn0_linear_hz
          else minimum_cn0_linear_hz)
        minimum_cn0_linear_hz maximum_cn0_linear_hz

  unfoldable pub default_carrier_tracking_config : CarrierTrackingConfig F
  default_carrier_tracking_config = record {
    coherent_integration_sec = decimal (pos 20) 3;
    pll_noise_bandwidth_hz = decimal (pos 5) 0;
    fll_noise_bandwidth_hz = decimal (pos 4) 0;
    fll_pull_in_bandwidth_hz = decimal (pos 8) 0;
    fll_pull_in_duration_sec = decimal (pos 5) 1;
    pll_enter_cn0_dbhz = decimal (pos 30) 0;
    pll_exit_cn0_dbhz = decimal (pos 27) 0;
    pll_enter_persistence_sec = decimal (pos 1) 0;
    pll_exit_persistence_sec = decimal (pos 3) 1;
    fll_enter_cn0_dbhz = decimal (pos 22) 0;
    fll_exit_cn0_dbhz = decimal (pos 18) 0;
    fll_enter_persistence_sec = decimal (pos 2) 1;
    fll_exit_persistence_sec = decimal (pos 5) 1;
    doppler_valid_delay_sec = decimal (pos 2) 1;
    adr_valid_after_pll_sec = decimal (pos 1) 0;
  }

  unfoldable pub validate_carrier_tracking_config :
      CarrierTrackingConfig F → Result CarrierError (Unit {0})
  validate_carrier_tracking_config config = do
    require (positive_finite config.coherent_integration_sec) integration_time
    require
        (positive_finite config.pll_noise_bandwidth_hz
          && positive_finite config.fll_noise_bandwidth_hz
          && positive_finite config.fll_pull_in_bandwidth_hz)
        bandwidths
    require (not (lt config.fll_pull_in_bandwidth_hz config.fll_noise_bandwidth_hz))
        pull_in_bandwidth
    require
        (positive_finite config.fll_pull_in_duration_sec
          && positive_finite config.pll_enter_persistence_sec
          && positive_finite config.pll_exit_persistence_sec
          && positive_finite config.fll_enter_persistence_sec
          && positive_finite config.fll_exit_persistence_sec
          && positive_finite config.doppler_valid_delay_sec
          && positive_finite config.adr_valid_after_pll_sec)
        durations
    require
        (is_finite config.pll_enter_cn0_dbhz
          && is_finite config.pll_exit_cn0_dbhz
          && is_finite config.fll_enter_cn0_dbhz
          && is_finite config.fll_exit_cn0_dbhz)
        thresholds_finite
    require
        (lt config.pll_exit_cn0_dbhz config.pll_enter_cn0_dbhz
          && lt config.fll_enter_cn0_dbhz config.pll_exit_cn0_dbhz
          && lt config.fll_exit_cn0_dbhz config.fll_enter_cn0_dbhz)
        thresholds_ordered

  unfoldable pub reset_carrier_tracking_state : CarrierTrackingState F
  reset_carrier_tracking_state = record {
    mode = carrier_unlocked;
    fll_pull_in_active = false;
    mode_age_sec = nought;
    carrier_lock_age_sec = nought;
    pll_age_sec = nought;
    fll_enter_persistence_sec = nought;
    fll_exit_persistence_sec = nought;
    pll_enter_persistence_sec = nought;
    pll_exit_persistence_sec = nought;
    tracking_error_hz = nought;
    carrier_segment_id = 0;
  }

  abbrev pub no_jitter : CarrierTrackingJitter F
  no_jitter = record {
    cn0_linear_hz = nought;
    active_bandwidth_hz = nought;
    phase_sigma_rad = nought;
    sigma_hz = nought;
    sigma_mps = nought;
    correlation_tau_sec = nought;
    correlation_alpha = nought;
  }

  -- The end of the computation, with the bandwidth and the two scales of the mode.
  jitter_of : F → F → F → F → F → F → Result CarrierError (CarrierTrackingJitter F)
  jitter_of wavelength_m dt_sec cn0_linear_hz bandwidth_hz phase_sigma_rad sigma_hz =
      let tau_sec = div (decimal (pos 1) 0) (mul two_pi bandwidth_hz) in
      let alpha = exp (div (negate dt_sec) tau_sec) in
      let sigma_mps = mul wavelength_m sigma_hz in
      do
        require
            (is_finite phase_sigma_rad
              && is_finite sigma_hz
              && is_finite sigma_mps
              && is_finite tau_sec
              && is_finite alpha)
            jitter_not_finite
        ok (record {
          cn0_linear_hz = cn0_linear_hz;
          active_bandwidth_hz = bandwidth_hz;
          phase_sigma_rad = phase_sigma_rad;
          sigma_hz = sigma_hz;
          sigma_mps = sigma_mps;
          correlation_tau_sec = tau_sec;
          correlation_alpha = alpha;
        })

  -- The computation in each mode, after the checks.
  jitter_in_mode :
      CarrierTrackingConfig F
      → CarrierTrackingMode
      → Bool
      → F
      → F
      → F
      → Result CarrierError (CarrierTrackingJitter F)
  unfolding jitter_of cn0_dbhz_to_linear
  jitter_in_mode config carrier_unlocked fll_pull_in_active effective_cn0_dbhz wavelength_m dt_sec =
      ok no_jitter
  jitter_in_mode config fll_track fll_pull_in_active effective_cn0_dbhz wavelength_m dt_sec =
      let one = decimal (pos 1) 0 in
      let cn0_linear_hz = cn0_dbhz_to_linear effective_cn0_dbhz in
      let integration_sec = config.coherent_integration_sec in
      let bandwidth_hz =
        if fll_pull_in_active
        then config.fll_pull_in_bandwidth_hz
        else config.fll_noise_bandwidth_hz in
      let correction = add one (div one (mul integration_sec cn0_linear_hz)) in
      let variance_term =
        mul (div (mul (mul (decimal (pos 4) 0) one) bandwidth_hz) cn0_linear_hz) correction in
      let sigma_hz = div (sqrt variance_term) (mul two_pi integration_sec) in
      jitter_of wavelength_m dt_sec cn0_linear_hz bandwidth_hz nought sigma_hz
  jitter_in_mode config pll_track fll_pull_in_active effective_cn0_dbhz wavelength_m dt_sec =
      let one = decimal (pos 1) 0 in
      let cn0_linear_hz = cn0_dbhz_to_linear effective_cn0_dbhz in
      let integration_sec = config.coherent_integration_sec in
      let bandwidth_hz = config.pll_noise_bandwidth_hz in
      let correction =
        add one (div one (mul (mul (decimal (pos 2) 0) integration_sec) cn0_linear_hz)) in
      let phase_variance_rad2 = mul (div bandwidth_hz cn0_linear_hz) correction in
      let phase_sigma_rad = sqrt phase_variance_rad2 in
      let sigma_hz = div phase_sigma_rad (mul two_pi integration_sec) in
      jitter_of wavelength_m dt_sec cn0_linear_hz bandwidth_hz phase_sigma_rad sigma_hz

  unfoldable pub compute_carrier_tracking_jitter :
      CarrierTrackingConfig F
      → CarrierTrackingMode
      → Bool
      → F
      → F
      → F
      → Result CarrierError (CarrierTrackingJitter F)
  unfolding jitter_in_mode
  compute_carrier_tracking_jitter config mode fll_pull_in_active effective_cn0_dbhz wavelength_m
        dt_sec =
      do
        validate_carrier_tracking_config config
        require (is_finite effective_cn0_dbhz) cn0_not_finite
        require (positive_finite wavelength_m) wavelength
        require (positive_finite dt_sec) dt
        jitter_in_mode config mode fll_pull_in_active effective_cn0_dbhz wavelength_m dt_sec

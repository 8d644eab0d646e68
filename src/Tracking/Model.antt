-- ===== src/Tracking/Model.antt =====
-- src/model/signal_tracking.cpp: the default configuration, its checks, and the timing of the
-- receiver's start.
use gnss_data_simulator.Prelude.{ℕ, Bool, true, false, not, ◌&&◌, Option, none, some, if◌then◌else◌}
use gnss_data_simulator.Prelude.Int.{ℤ, pos, ◌+ℤ◌, ◌*ℤ◌, leb_ℤ}
use gnss_data_simulator.Prelude.Result.{Result, ok, err, require, ◌>>◌}
use gnss_data_simulator.Double.{Double, nought}
use gnss_data_simulator.Rng.{DeterministicRng}
use gnss_data_simulator.Time.{nanoseconds_per_second}
use gnss_data_simulator.Config.{StartupMode}
use gnss_data_simulator.Tracking.{DelayDistribution, valid_delay_distribution, sample_delay}
use gnss_data_simulator.Tracking.Tracker.{
  Bands, SignalTrackingModelConfig, ReceiverStartupTiming, TrackingError, startup_distribution,
  acquisition_distribution, negative_delays, thresholds,
}

abbrev is_warm : StartupMode → Bool
is_warm StartupMode.warm = true
is_warm _ = false

abbrev milliseconds : ℤ → ℤ
milliseconds value = value *ℤ pos 1_000_000

abbrev seconds : ℤ → ℤ
seconds value = value *ℤ nanoseconds_per_second

abbrev make_delay_ms : ℕ → ℕ → ℕ → ℕ → DelayDistribution
make_delay_ms minimum_ms p50_ms p95_ms maximum_ms = record {
  minimum_ns = milliseconds (pos minimum_ms);
  p50_ns = milliseconds (pos p50_ms);
  p95_ns = milliseconds (pos p95_ms);
  maximum_ns = milliseconds (pos maximum_ms);
}

abbrev valid_bands : Bands → Bands → Bool
valid_bands acquisition again =
    valid_delay_distribution acquisition.strong
    && valid_delay_distribution again.strong
    && valid_delay_distribution acquisition.medium
    && valid_delay_distribution again.medium
    && valid_delay_distribution acquisition.weak
    && valid_delay_distribution again.weak
    && valid_delay_distribution acquisition.weakest
    && valid_delay_distribution again.weakest

module _ {F : Type 0} ⦃d : Double F⦄ where
  open d use {decimal, lt, le, is_finite}

  unfoldable pub default_signal_tracking_model_config : SignalTrackingModelConfig F
  default_signal_tracking_model_config = record {
    hot_common_startup = make_delay_ms 400 800 1500 2000;
    warm_common_startup = make_delay_ms 400 800 1500 2000;
    warm_search_uncertainty = record {
      minimum_ns = seconds (pos 2);
      p50_ns = seconds (pos 5);
      p95_ns = seconds (pos 15);
      maximum_ns = seconds (pos 25);
    };
    hot_signal_acquisition = record {
      strong = make_delay_ms 200 350 550 700;
      medium = make_delay_ms 300 600 950 1200;
      weak = make_delay_ms 600 1100 1900 2400;
      weakest = make_delay_ms 1000 2200 3600 4000;
    };
    reacquisition = record {
      strong = make_delay_ms 80 300 800 1100;
      medium = make_delay_ms 100 500 1100 1500;
      weak = make_delay_ms 200 850 1600 2000;
      weakest = make_delay_ms 500 1300 2200 3000;
    };
    psr_valid_delay_ns = milliseconds (pos 100);
    doppler_valid_delay_ns = milliseconds (pos 150);
    adr_valid_delay_ns = milliseconds (pos 500);
    minimum_tracking_cn0_dbhz = decimal (pos 10) 0;
    acquisition_cn0_threshold_dbhz = decimal (pos 18) 0;
    acquisition_cn0_persistence_ns = milliseconds (pos 200);
    tracking_loss_cn0_persistence_ns = milliseconds (pos 500);
    dll_root_jump_threshold_chips = decimal (pos 25) 2;
    los_multipath_cn0_delta_db = decimal (pos 5) 1;
    los_multipath_code_bias_chips = decimal (pos 2) 2;
  }

  unfoldable pub validate_signal_tracking_model_config :
      SignalTrackingModelConfig F → Result TrackingError (Unit {0})
  validate_signal_tracking_model_config config = do
    require
        (valid_delay_distribution config.hot_common_startup
          && valid_delay_distribution config.warm_common_startup
          && valid_delay_distribution config.warm_search_uncertainty)
        startup_distribution
    require (valid_bands config.hot_signal_acquisition config.reacquisition)
        acquisition_distribution
    require
        (leb_ℤ (pos 0) config.psr_valid_delay_ns
          && leb_ℤ (pos 0) config.doppler_valid_delay_ns
          && leb_ℤ (pos 0) config.adr_valid_delay_ns)
        negative_delays
    require
        (is_finite config.minimum_tracking_cn0_dbhz
          && is_finite config.acquisition_cn0_threshold_dbhz
          && lt config.minimum_tracking_cn0_dbhz config.acquisition_cn0_threshold_dbhz
          && leb_ℤ (pos 0) config.acquisition_cn0_persistence_ns
          && leb_ℤ (pos 0) config.tracking_loss_cn0_persistence_ns
          && is_finite config.dll_root_jump_threshold_chips
          && lt nought config.dll_root_jump_threshold_chips
          && is_finite config.los_multipath_cn0_delta_db
          && le nought config.los_multipath_cn0_delta_db
          && is_finite config.los_multipath_code_bias_chips
          && le nought config.los_multipath_code_bias_chips)
        thresholds

  -- Whether the checks pass, where the code gives them no place for a message.
  abbrev pub config_valid : SignalTrackingModelConfig F → Bool
  config_valid config = elim (validate_signal_tracking_model_config config) [
    | ok u ↦ true
    | err e ↦ false
  ]

  -- `none` is refusal, and draws nothing.
  unfoldable pub sample_receiver_startup_timing :
      StartupMode
      → SignalTrackingModelConfig F
      → DeterministicRng
      → Option (ReceiverStartupTiming × DeterministicRng)
  sample_receiver_startup_timing startup_mode config rng =
      if not (config_valid config)
      then none
      else if is_warm startup_mode
      then (let (common, rng') = sample_delay config.warm_common_startup rng in
          let (search, rng'') = sample_delay config.warm_search_uncertainty rng' in
          some (
            record {
              startup_mode = startup_mode;
              common_startup_delay_ns = common;
              search_uncertainty_delay_ns = search;
              total_search_ready_delay_ns = common +ℤ search;
            },
            rng'',
          ))
      else (let (common, rng') = sample_delay config.hot_common_startup rng in
          some (
            record {
              startup_mode = startup_mode;
              common_startup_delay_ns = common;
              search_uncertainty_delay_ns = pos 0;
              total_search_ready_delay_ns = common +ℤ pos 0;
            },
            rng',
          ))

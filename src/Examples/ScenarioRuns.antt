-- ===== src/Examples/ScenarioRuns.antt =====
-- The scenario engine: the theorems at concrete inputs, and runs.
use gnss_data_simulator.Prelude.{◌≡◌, refl, true, false, some, [], arith}
use gnss_data_simulator.Prelude.Int.{ℤ, pos, ◌+ℤ◌, ◌-ℤ◌, ◌*ℤ◌, ◌/ℤ◌, ◌%ℤ◌, ◌≤ℤ◌, int_laws}
use gnss_data_simulator.Prelude.Result.{ok}
use gnss_data_simulator.Double.{positive_finite, finite_nonnegative}
use gnss_data_simulator.Double.Milli.{Milli, num, milli_double}
use gnss_data_simulator.Time.{
  SimTime, compare_sim_time, difference_time_ns, valid_normalized_time, week_delta_overflows,
  sum_overflows, sampling_interval_ns,
}
use gnss_data_simulator.Time.Total.{IsNormal, total_ns}
use gnss_data_simulator.Carrier.{validate_carrier_tracking_config}
use gnss_data_simulator.Config.{
  SimConfig, rea, StartupMode, AtmosphereMode, NavLogFormat, MeasurementTransientErrorConfig,
  UrbanRfPolarizationResponseConfig,
}
use gnss_data_simulator.Config.Validate.{
  validate_sim_config, settings_valid, durations_valid, valid_bestpos_rtk_config,
  valid_measurement_error_config, valid_measurement_transient, valid_measurement_fade,
  to_carrier_tracking_config, valid_urban_rf_config, valid_overrides, valid_urban_rf_material,
  valid_urban_rf_antenna, valid_urban_rf_polarization, valid_cn0_high_baselines,
}
use gnss_data_simulator.Scenario.{
  ScenarioEpochState, ScenarioEngine, valid_time, initialize_scenario_engine, state_in,
  compute_state, update_refused, update_scenario_engine, after_epoch, with_transitions,
}
use gnss_data_simulator.Scenario.Cycle.{FitsPeriods, InScenario, compute_state-InScenario}
use gnss_data_simulator.Scenario.Engine.{
  IsEngine, Edges, initialize_scenario_engine-IsEngine, update_scenario_engine-Edges,
  update_scenario_engine-IsEngine,
}

abbrev transient : MeasurementTransientErrorConfig Milli
transient = record {
  psr_extra_sigma_m = num (pos 400);
  doppler_extra_sigma_mps = num (pos 100);
  cn0_extra_sigma_dbhz = num (pos 1500);
  decay_tau_sec = num (pos 1000);
}

abbrev flat : UrbanRfPolarizationResponseConfig Milli
flat = record {
  gain_db_horizon = num (pos 0);
  gain_db_zenith = num (pos 0);
  phase_deg_horizon = num (pos 0);
  phase_deg_zenith = num (pos 0);
}

-- The default configuration, in the scenario of a signal that comes and goes.
abbrev config : SimConfig Milli
config = record {
  schema_version = pos 1;
  scenario = rea;
  duration_ns = pos 28_800_000_000_000;
  sampling_rate_hz = pos 10;
  elevation_mask_deg = num (pos 3000);
  solution_elevation_mask_deg = num (pos 5000);
  output_eph = true;
  output_ion = true;
  nav_log_format = NavLogFormat.novatel;
  measurement_noise_enabled = false;
  multipath_enabled = false;
  receiver_clock_bias_m = num (pos 0);
  receiver_clock_drift_mps = num (pos 0);
  atmosphere_mode = AtmosphereMode.unspecified;
  receiver = record {
    latitude_deg = num (pos 20000);
    longitude_deg = num (pos 120000);
    height_m = num (pos 100000);
  };
  ttff = record {
    startup_mode = StartupMode.hot;
    power_on_ns = pos 300_000_000_000;
    power_off_ns = pos 30_000_000_000;
  };
  rea = record { signal_on_ns = pos 300_000_000_000; signal_off_ns = pos 10_000_000_000 };
  bestpos_rtk = record {
    enabled = true;
    stable_duration_ns = pos 5_000_000_000;
    min_used_satellites = pos 6;
    horizontal_std_m = num (pos 10);
    height_std_m = num (pos 20);
  };
  measurement_error = record {
    psr_sigma_m = num (pos 80);
    doppler_sigma_mps = num (pos 30);
    adr_sigma_m = num (pos 1);
    cn0_sigma_dbhz = num (pos 500);
    psr_correlation_tau_sec = num (pos 1500);
    ttff_hot = transient;
    ttff_warm = transient;
    ttff_cold = transient;
    rea_reacquisition = transient;
    rea_fade = record {
      duration_sec = num (pos 250);
      psr_extra_sigma_m = num (pos 800);
      doppler_extra_sigma_mps = num (pos 200);
      cn0_drop_db = num (pos 4500);
    };
  };
  carrier_tracking = record {
    enabled = false;
    coherent_integration_sec = num (pos 20);
    pll_noise_bandwidth_hz = num (pos 5000);
    fll_noise_bandwidth_hz = num (pos 4000);
    fll_pull_in_bandwidth_hz = num (pos 8000);
    fll_pull_in_duration_sec = num (pos 500);
    pll_enter_cn0_dbhz = num (pos 30000);
    pll_exit_cn0_dbhz = num (pos 27000);
    pll_enter_persistence_sec = num (pos 1000);
    pll_exit_persistence_sec = num (pos 300);
    fll_enter_cn0_dbhz = num (pos 22000);
    fll_exit_cn0_dbhz = num (pos 18000);
    fll_enter_persistence_sec = num (pos 200);
    fll_exit_persistence_sec = num (pos 500);
    doppler_valid_delay_sec = num (pos 200);
    adr_valid_after_pll_sec = num (pos 1000);
  };
  urban_rf = record {
    default_material = record {
      relative_permittivity_real = num (pos 6270);
      conductivity_c_s_per_m = num (pos 4);
      conductivity_exponent = num (pos 1192);
      outer_glass_thickness_m = num (pos 6);
      cavity_thickness_m = num (pos 12);
      inner_glass_thickness_m = num (pos 6);
      coating_sheet_resistance_ohm_sq = num (pos 5000);
    };
    default_antenna = record { rhcp = flat; lhcp = flat };
    signal_overrides = [];
  };
  cn0_high_dbhz = [];
  seed = 1;
}

abbrev at : ℤ → SimTime
at tow = record { gps_week = pos 2300; tow_ns = tow }

abbrev fresh : ScenarioEngine Milli
fresh = record {
  config = config;
  start_time = at (pos 0);
  last_time = at (pos 0);
  initialized = true;
  have_last_state = false;
  last_receiver_powered = false;
  last_signal_available = false;
}

initialize_lem : initialize_scenario_engine config (at (pos 0)) ≡ ok fresh
unfolding initialize_scenario_engine valid_time validate_sim_config settings_valid durations_valid
    sampling_interval_ns valid_bestpos_rtk_config valid_measurement_error_config
    valid_measurement_transient valid_measurement_fade to_carrier_tracking_config
    validate_carrier_tracking_config positive_finite finite_nonnegative valid_urban_rf_config
    valid_overrides valid_urban_rf_material valid_urban_rf_antenna valid_urban_rf_polarization
    valid_cn0_high_baselines ◌*ℤ◌ ◌/ℤ◌
initialize_lem = refl

initialize_scenario_engine-IsEngine_example : IsEngine fresh
initialize_scenario_engine-IsEngine_example =
    initialize_scenario_engine-IsEngine config (at (pos 0)) fresh (omega arith) initialize_lem

fresh-IsEngine : IsEngine fresh
fresh-IsEngine =
    initialize_scenario_engine-IsEngine config (at (pos 0)) fresh (omega arith) initialize_lem

-- In the second cycle, two seconds into it.
abbrev now : SimTime
now = at (pos 312_000_000_000)

abbrev seen : ScenarioEpochState
seen = record {
  time = now;
  receiver_powered = true;
  signal_available = true;
  power_on_transition = true;
  power_off_transition = false;
  signal_on_transition = true;
  signal_off_transition = false;
  cycle_index = 1;
  phase_elapsed_ns = pos 2_000_000_000;
}

abbrev updated : ScenarioEngine Milli
updated = record fresh {
  last_time = now;
  have_last_state = true;
  last_receiver_powered = true;
  last_signal_available = true;
}

update_lem : update_scenario_engine fresh now ≡ ok (updated, seen)
unfolding update_scenario_engine update_refused valid_time compare_sim_time compute_state
    difference_time_ns valid_normalized_time week_delta_overflows sum_overflows state_in after_epoch
    with_transitions ◌+ℤ◌ ◌-ℤ◌ ◌*ℤ◌ ◌/ℤ◌ ◌%ℤ◌
update_lem = refl

update_scenario_engine-Edges_example :
    Edges fresh seen × (true ≡ true) × (true ≡ true) × (true ≡ true)
update_scenario_engine-Edges_example =
    update_scenario_engine-Edges fresh updated now seen update_lem

update_scenario_engine-IsEngine_example :
    IsEngine updated × (now ≡ now) × (total_ns (at (pos 0)) ≤ℤ total_ns now)
update_scenario_engine-IsEngine_example =
    update_scenario_engine-IsEngine fresh updated now seen fresh-IsEngine (omega arith) update_lem

now-IsNormal : IsNormal now
now-IsNormal = record {
  week_ge = omega arith;
  week_le = omega arith;
  tow_ge = omega arith;
  tow_lt = omega arith;
}

config-FitsPeriods : FitsPeriods config
config-FitsPeriods = record {
  ttff_period = (omega int_laws, omega int_laws);
  rea_period = (omega int_laws, omega int_laws);
}

compute_state-InScenario_example :
    (s : ScenarioEpochState) × (compute_state fresh now ≡ some s)
    × (s.time ≡ now)
    × InScenario config rea (total_ns now -ℤ total_ns (at (pos 0))) s
compute_state-InScenario_example =
    compute_state-InScenario fresh now fresh-IsEngine.cycles config-FitsPeriods fresh-IsEngine.start
      now-IsNormal (omega int_laws) (omega int_laws, omega int_laws) (omega int_laws)

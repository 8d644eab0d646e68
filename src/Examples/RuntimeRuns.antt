-- ===== src/Examples/RuntimeRuns.antt =====
-- The carrier tracker over time: the theorems at concrete inputs, and runs.
use gnss_data_simulator.Prelude.{ℕ, ◌*◌, ◌≡◌, refl, true, false, arith}
use gnss_data_simulator.Prelude.Int.{pos, negsuc, ◌+ℤ◌, ◌-ℤ◌, ◌*ℤ◌, ◌/ℤ◌}
use gnss_data_simulator.Prelude.Result.{ok}
use gnss_data_simulator.Double.Milli.{Milli, num, milli_double}
use gnss_data_simulator.Time.{SimTime}
use gnss_data_simulator.Signals.{SignalId}
use gnss_data_simulator.Config.{CarrierTrackingReceiverConfig}
use gnss_data_simulator.Solution.{
  MeasurementObservation, RtklibBroadcastMessageFamily, BroadcastCodeBiasStatus,
}
use gnss_data_simulator.Carrier.{pll_track, CarrierTrackingFllPhase, no_jitter}
use gnss_data_simulator.Carrier.Runtime.{
  mix64, segment_cycle_offset, CarrierTrackingRuntimeState, CarrierTrackingRuntimeResult,
  initialize_carrier_tracking_runtime_state, update_carrier_tracking_runtime,
  reset_carrier_tracking_runtime_state,
}
use gnss_data_simulator.Carrier.Segments.{
  initial, reset, update, ambiguity_of, IsOffset, Reaches-IsSegmented,
}
use gnss_data_simulator.Carrier.Apply.{
  offset_overflows, with_errors, with_offset, without_observation, not_applicable,
  apply_carrier_tracking_runtime_result, IsApplied, apply_carrier_tracking_runtime_result-IsApplied,
}

abbrev at : ℕ → SimTime
at milliseconds = record { gps_week = pos 2300; tow_ns = pos (milliseconds * 1_000_000) }

abbrev config : CarrierTrackingReceiverConfig Milli
config = record {
  enabled = true;
  coherent_integration_sec = num (pos 20);
  pll_noise_bandwidth_hz = num (pos 5000);
  fll_noise_bandwidth_hz = num (pos 4000);
  fll_pull_in_bandwidth_hz = num (pos 8000);
  fll_pull_in_duration_sec = num (pos 500);
  pll_enter_cn0_dbhz = num (pos 30000);
  pll_exit_cn0_dbhz = num (pos 27000);
  pll_enter_persistence_sec = num (pos 1000);
  pll_exit_persistence_sec = num (pos 300);
  fll_enter_cn0_dbhz = num (pos 22000);
  fll_exit_cn0_dbhz = num (pos 18000);
  fll_enter_persistence_sec = num (pos 200);
  fll_exit_persistence_sec = num (pos 500);
  doppler_valid_delay_sec = num (pos 200);
  adr_valid_after_pll_sec = num (pos 1000);
}

abbrev advanced : ℕ → CarrierTrackingRuntimeState Milli → CarrierTrackingRuntimeState Milli
advanced milliseconds s =
    (update_carrier_tracking_runtime 100 config (at milliseconds) true (num (pos 40000))
      (num (pos 190)) s).0

-- Two updates, a reset and another update of signal L1 C/A of satellite 7.
abbrev after_reset : CarrierTrackingRuntimeState Milli
after_reset = advanced 80 (
    reset_carrier_tracking_runtime_state (
      advanced 40
        (advanced 0 (initialize_carrier_tracking_runtime_state 42 (pos 7) SignalId.gps_l1_ca))))

Reaches-IsSegmented_example :
    (after_reset.adr_cycle_offset_cycles
      ≡ segment_cycle_offset
          (ambiguity_of 42 (pos 7) SignalId.gps_l1_ca)
          after_reset.phase_segment_id)
    × IsOffset after_reset.phase_segment_id after_reset.adr_cycle_offset_cycles
Reaches-IsSegmented_example = Reaches-IsSegmented 42 (pos 7) SignalId.gps_l1_ca after_reset (
    update 100 config (at 80) true (num (pos 40000)) (num (pos 190)) (
      reset (
        update 100 config (at 40) true (num (pos 40000)) (num (pos 190))
          (update 100 config (at 0) true (num (pos 40000)) (num (pos 190)) initial))))

mixed : mix64 0 ≡ 16_294_208_416_658_607_535
unfolding mix64
mixed = refl

offset_of_the_second_segment : segment_cycle_offset 42 2 ≡ negsuc 62_943
unfolding segment_cycle_offset mix64 ◌-ℤ◌
offset_of_the_second_segment = refl

abbrev observation : MeasurementObservation Milli
observation = record {
  signal_id = SignalId.gps_l1_ca;
  satellite_number = pos 7;
  glonass_fcn = pos 0;
  wavelength_m = num (pos 190);
  geometric_range_m = num (pos 21_000_000_000);
  range_rate_mps = num (pos 3000);
  satellite_clock_bias_m = num (pos 0);
  satellite_clock_drift_mps = num (pos 0);
  broadcast_message_family = RtklibBroadcastMessageFamily.legacy;
  tgd_sec = (num (pos 0), num (pos 0), num (pos 0), num (pos 0));
  isc_sec = (num (pos 0), num (pos 0), num (pos 0), num (pos 0), num (pos 0), num (pos 0));
  glonass_dtaun_sec = num (pos 0);
  code_bias_m = num (pos 0);
  ionosphere_code_delay_m = num (pos 0);
  troposphere_delay_m = num (pos 0);
  pseudorange_m = num (pos 21_000_000_000);
  doppler_hz = num (pos 15_000);
  adr_cycles = num (pos 800_000);
  cn0_dbhz = num (pos 40_000);
  lock_time_ns = pos 0;
  ambiguity_cycles = pos 500;
  code_bias_status = BroadcastCodeBiasStatus.applied;
  observation_available = true;
  pseudorange_valid = true;
  doppler_valid = true;
  adr_valid = true;
}

-- A tracker in its second segment, after a slip by 300 cycles.
abbrev slipped_result : CarrierTrackingRuntimeResult Milli
slipped_result = record {
  tracking = record {
    mode = pll_track;
    fll_phase = CarrierTrackingFllPhase.none;
    jitter = no_jitter;
    tracking_error_hz = num (pos 100);
    tracking_error_mps = num (pos 19);
    carrier_lock_age_sec = num (pos 5000);
    pll_age_sec = num (pos 2000);
    carrier_segment_id = 1;
    doppler_valid = true;
    adr_valid = true;
    mode_changed = false;
    new_carrier_segment = false;
  };
  phase_segment_id = 1;
  adr_cycle_offset_cycles = negsuc 299;
  cycle_slip_event = false;
}

abbrev applied : MeasurementObservation Milli
applied = record observation {
  doppler_hz = num (pos 15_100);
  range_rate_mps = num (pos 2_981);
  adr_cycles = num (pos 500_000);
  ambiguity_cycles = pos 200;
}

applies : apply_carrier_tracking_runtime_result slipped_result observation ≡ ok applied
unfolding apply_carrier_tracking_runtime_result not_applicable offset_overflows with_errors
    with_offset without_observation ◌+ℤ◌ ◌-ℤ◌ ◌*ℤ◌ ◌/ℤ◌
applies = refl

apply_carrier_tracking_runtime_result-IsApplied_example :
    IsApplied slipped_result observation applied
apply_carrier_tracking_runtime_result-IsApplied_example =
    apply_carrier_tracking_runtime_result-IsApplied slipped_result observation applied
      (ground arith, ground arith) (ground arith, ground arith) applies

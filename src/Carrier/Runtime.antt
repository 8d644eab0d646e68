-- ===== src/Carrier/Runtime.antt =====
-- src/model/carrier_tracking_runtime.cpp: the carrier tracker of one signal over time: its own stream
-- of random numbers, the steps of an interval, and the cycle slips. The loop over the steps of an
-- interval has fuel; without any left its answer is an error of its own.
use Prim.Native.Nat.{bit_xor}
use gnss_data_simulator.Prelude.{
  ℕ, zero, suc, ◌+◌, ◌*◌, ◌/◌, ◌-◌, ◌%◌, ◌^◌, ◌==◌, Bool, true, false, not, ◌&&◌, ◌||◌, none, some,
  if◌then◌else◌,
}
use gnss_data_simulator.Prelude.Int.{ℤ, pos, negsuc, ◌-ℤ◌, leb_ℤ, eq_ℤ}
use gnss_data_simulator.Prelude.Result.{Result, ok, err}
use gnss_data_simulator.Double.{Double, nought, max}
use gnss_data_simulator.Rng.{DeterministicRng, seed_rng, rng_uniform_01}
use gnss_data_simulator.Time.{SimTime, difference_time_ns}
use gnss_data_simulator.Signals.{SignalId, signal_id_value}
use gnss_data_simulator.Config.{CarrierTrackingReceiverConfig}
use gnss_data_simulator.Carrier.{
  carrier_unlocked, pll_track, CarrierTrackingMode, CarrierTrackingFllPhase, CarrierTrackingConfig,
  CarrierTrackingState, CarrierTrackingInput, CarrierTrackingResult, CarrierError,
  validate_carrier_tracking_config, reset_carrier_tracking_state, no_jitter,
}
use gnss_data_simulator.Carrier.Update.{eq_mode, update_carrier_tracking}

abbrev satellite_salt : ℕ
satellite_salt = 0x9E3779B97F4A7C15

abbrev signal_salt : ℕ
signal_salt = 0xBF58476D1CE4E5B9

abbrev sequence_salt : ℕ
sequence_salt = 0x94D049BB133111EB

abbrev pub ambiguity_salt : ℕ
ambiguity_salt = 0xD6E8FEB86659FD93

unfoldable pub mix64 : ℕ → ℕ
mix64 value =
    let first = (value + 0x9E3779B97F4A7C15) % 2 ^ 64 in
    let second = (bit_xor first (first / 2 ^ 30) * 0xBF58476D1CE4E5B9) % 2 ^ 64 in
    let third = (bit_xor second (second / 2 ^ 27) * 0x94D049BB133111EB) % 2 ^ 64 in
    bit_xor third (third / 2 ^ 31)

-- An `int` as a word of 32 bits.
abbrev word_of : ℤ → ℕ
word_of (pos n) = n % 2 ^ 32
word_of (negsuc n) = (2 ^ 32 - suc n % 2 ^ 32) % 2 ^ 32

-- The satellite is a signed number of 32 bits.
unfoldable pub signal_key : ℕ → ℤ → SignalId → ℕ
unfolding mix64
signal_key simulator_seed satellite_number signal_id =
    let satellite = word_of satellite_number in
    let signal = signal_id_value signal_id in
    mix64 (
      bit_xor (bit_xor simulator_seed (mix64 ((satellite + satellite_salt) % 2 ^ 64)))
        (mix64 ((signal + signal_salt) % 2 ^ 64)))

unfoldable pub segment_cycle_offset : ℕ → ℕ → ℤ
segment_cycle_offset ambiguity_key segment_id =
    let mixed = mix64 (bit_xor ambiguity_key (mix64 ((segment_id + ambiguity_salt) % 2 ^ 64))) in
    let offset = pos (mixed % 200_001) -ℤ pos 100_000 in
    if segment_id == 0 then pos 0 else if eq_ℤ offset (pos 0) then pos 1 else offset

pub record CarrierTrackingRuntimeState (F : Type 0) : Type 0 where
  pub tracking : CarrierTrackingState F
  pub rng : DeterministicRng
  pub last_update_time : SimTime
  pub ambiguity_key : ℕ
  pub phase_segment_id : ℕ
  pub adr_cycle_offset_cycles : ℤ
  pub initialized : Bool
  pub time_initialized : Bool

pub record CarrierTrackingRuntimeResult (F : Type 0) : Type 0 where
  pub tracking : CarrierTrackingResult F
  pub phase_segment_id : ℕ
  pub adr_cycle_offset_cycles : ℤ
  pub cycle_slip_event : Bool

pub data RuntimeError : Type 0 where
  invalid_state invalid_config invalid_wavelength invalid_cn0 not_monotonic : RuntimeError
  update_failed out_of_fuel invalid_arguments offset_overflow : RuntimeError

abbrev no_time : SimTime
no_time = record { gps_week = pos 0; tow_ns = pos 0 }

module _ {F : Type 0} ⦃d : Double F⦄ where
  open d use {decimal, add, sub, mul, div, sqrt, log, cos, lt, le, is_finite, is_inf}

  unfoldable pub standard_normal_sample : DeterministicRng → F × DeterministicRng
  unfolding rng_uniform_01
  standard_normal_sample rng =
      let (u, rng') = rng_uniform_01 rng in
      let (u2, rng'') = rng_uniform_01 rng' in
      let u1 = max u (div (decimal (pos 1) 0) (decimal (pos 9_007_199_254_740_992) 0)) in
      let two_pi = decimal (pos 6_283_185_307_179_586_476_925_286_766_559) 30 in
      (mul (sqrt (mul (decimal (negsuc 1) 0) (log u1))) (cos (mul two_pi u2)), rng'')

  unfoldable pub fill_runtime_result :
      CarrierTrackingRuntimeState F
      → CarrierTrackingResult F
      → Bool
      → CarrierTrackingRuntimeResult F
  fill_runtime_result state tracking cycle_slip_event = record {
    tracking = tracking;
    phase_segment_id = state.phase_segment_id;
    adr_cycle_offset_cycles = state.adr_cycle_offset_cycles;
    cycle_slip_event = cycle_slip_event;
  }

  unfoldable pub unlocked_result : CarrierTrackingRuntimeState F → CarrierTrackingResult F
  unlocked_result state = record {
    mode = carrier_unlocked;
    fll_phase = CarrierTrackingFllPhase.none;
    jitter = no_jitter;
    tracking_error_hz = nought;
    tracking_error_mps = nought;
    carrier_lock_age_sec = nought;
    pll_age_sec = nought;
    carrier_segment_id = state.tracking.carrier_segment_id;
    doppler_valid = false;
    adr_valid = false;
    mode_changed = false;
    new_carrier_segment = false;
  }

  unfoldable pub normalized_cn0 : F → F
  normalized_cn0 effective_cn0_dbhz =
      if is_inf effective_cn0_dbhz && lt effective_cn0_dbhz nought
      then decimal (negsuc 119) 0
      else effective_cn0_dbhz

  unfoldable pub carrier_tracking_core_config :
      CarrierTrackingReceiverConfig F → CarrierTrackingConfig F
  carrier_tracking_core_config config = record {
    coherent_integration_sec = config.coherent_integration_sec;
    pll_noise_bandwidth_hz = config.pll_noise_bandwidth_hz;
    fll_noise_bandwidth_hz = config.fll_noise_bandwidth_hz;
    fll_pull_in_bandwidth_hz = config.fll_pull_in_bandwidth_hz;
    fll_pull_in_duration_sec = config.fll_pull_in_duration_sec;
    pll_enter_cn0_dbhz = config.pll_enter_cn0_dbhz;
    pll_exit_cn0_dbhz = config.pll_exit_cn0_dbhz;
    pll_enter_persistence_sec = config.pll_enter_persistence_sec;
    pll_exit_persistence_sec = config.pll_exit_persistence_sec;
    fll_enter_cn0_dbhz = config.fll_enter_cn0_dbhz;
    fll_exit_cn0_dbhz = config.fll_exit_cn0_dbhz;
    fll_enter_persistence_sec = config.fll_enter_persistence_sec;
    fll_exit_persistence_sec = config.fll_exit_persistence_sec;
    doppler_valid_delay_sec = config.doppler_valid_delay_sec;
    adr_valid_after_pll_sec = config.adr_valid_after_pll_sec;
  }

  unfoldable pub initialize_carrier_tracking_runtime_state :
      ℕ → ℤ → SignalId → CarrierTrackingRuntimeState F
  initialize_carrier_tracking_runtime_state simulator_seed satellite_number signal_id =
      let key = signal_key simulator_seed satellite_number signal_id in
      record {
        tracking = reset_carrier_tracking_state;
        rng = seed_rng key (mix64 (bit_xor key sequence_salt));
        last_update_time = no_time;
        ambiguity_key = mix64 (bit_xor key ambiguity_salt);
        phase_segment_id = 0;
        adr_cycle_offset_cycles = pos 0;
        initialized = true;
        time_initialized = false;
      }

  unfoldable pub reset_carrier_tracking_runtime_state :
      CarrierTrackingRuntimeState F → CarrierTrackingRuntimeState F
  reset_carrier_tracking_runtime_state state =
      if not state.initialized then state else record state {
        tracking = reset_carrier_tracking_state;
        last_update_time = no_time;
        phase_segment_id = 0;
        adr_cycle_offset_cycles = pos 0;
        time_initialized = false;
      }

  -- A cycle slip begins a new segment of the phase.
  unfoldable pub slipped : CarrierTrackingRuntimeState F → CarrierTrackingRuntimeState F
  slipped state =
      let phase_segment_id = (state.phase_segment_id + 1) % 2 ^ 64 in
      record state {
        phase_segment_id = phase_segment_id;
        adr_cycle_offset_cycles = segment_cycle_offset state.ambiguity_key phase_segment_id;
      }

  -- What is left of an interval after a step.
  unfoldable pub remaining_after : F → F → F
  remaining_after remaining_sec dt_sec =
      let left = sub remaining_sec dt_sec in
      if lt left (div (decimal (pos 1) 0) (decimal (pos 4_503_599_627_370_496) 0))
      then nought
      else left

  -- The end of a step, given what the carrier tracker answered.
  unfoldable pub conclude_step :
      CarrierTrackingMode
      → CarrierTrackingRuntimeState F
      → Result CarrierError (CarrierTrackingResult F)
      → CarrierTrackingRuntimeState F × Result RuntimeError (CarrierTrackingResult F × Bool)
  conclude_step previous_mode state (err e) = (state, err update_failed)
  conclude_step previous_mode state (ok result) =
      if eq_mode previous_mode pll_track && not (eq_mode result.mode pll_track)
      then (slipped state, ok (result, true))
      else (state, ok (result, false))

  -- A step of the loop: the state, and the result with whether the cycle has slipped.
  unfoldable pub runtime_step :
      CarrierTrackingConfig F
      → F
      → F
      → F
      → CarrierTrackingRuntimeState F
      → CarrierTrackingRuntimeState F × Result RuntimeError (CarrierTrackingResult F × Bool)
  runtime_step core_config cn0_dbhz wavelength_m dt_sec state =
      let (sample, rng) = standard_normal_sample state.rng in
      let input : CarrierTrackingInput F = record {
        signal_available = true;
        effective_cn0_dbhz = cn0_dbhz;
        wavelength_m = wavelength_m;
        dt_sec = dt_sec;
        standard_normal_sample = sample;
      } in
      let (tracking, outcome) = update_carrier_tracking core_config input state.tracking in
      conclude_step state.tracking.mode (record state { tracking = tracking; rng = rng }) outcome

  -- The loop. The result so far is given, and answered once nothing remains.
  unfoldable pub runtime_loop :
      ℕ
      → CarrierTrackingConfig F
      → F
      → F
      → F
      → CarrierTrackingRuntimeState F
      → CarrierTrackingResult F
      → Bool
      → CarrierTrackingRuntimeState F × Result RuntimeError (CarrierTrackingResult F × Bool)
  runtime_loop zero core_config cn0_dbhz wavelength_m remaining_sec state tracking slip =
      (state, err out_of_fuel)
  runtime_loop (suc fuel) core_config cn0_dbhz wavelength_m remaining_sec state tracking slip =
      elim (lt nought remaining_sec) [
        | false ↦ (state, ok (tracking, slip))
        | true ↦
            let integration_sec = core_config.coherent_integration_sec in
            let dt_sec =
              if lt integration_sec remaining_sec then integration_sec else remaining_sec in
            let (next, outcome) = runtime_step core_config cn0_dbhz wavelength_m dt_sec state in
            elim outcome [
              | err e ↦ (next, err e)
              | ok (tracking', slip') ↦
                  runtime_loop fuel core_config cn0_dbhz wavelength_m
                    (remaining_after remaining_sec dt_sec) next tracking' (slip || slip')
            ]
      ]

  -- The end of an update, after the loop.
  unfoldable pub conclude_update :
      SimTime
      → CarrierTrackingRuntimeState F × Result RuntimeError (CarrierTrackingResult F × Bool)
      → CarrierTrackingRuntimeState F × Result RuntimeError (CarrierTrackingRuntimeResult F)
  conclude_update current_time (state, err e) = (state, err e)
  conclude_update current_time (state, ok (tracking, slip)) =
      let final = record state { last_update_time = current_time } in
      (final, ok (fill_runtime_result final tracking slip))

  -- The state, and the result or the error.
  unfoldable pub update_carrier_tracking_runtime :
      ℕ
      → CarrierTrackingReceiverConfig F
      → SimTime
      → Bool
      → F
      → F
      → CarrierTrackingRuntimeState F
      → CarrierTrackingRuntimeState F × Result RuntimeError (CarrierTrackingRuntimeResult F)
  update_carrier_tracking_runtime fuel config current_time code_tracking effective_cn0_dbhz
        wavelength_m state =
      let core_config = carrier_tracking_core_config config in
      let cn0_dbhz = normalized_cn0 effective_cn0_dbhz in
      if not state.initialized
      then (state, err invalid_state)
      else elim (validate_carrier_tracking_config core_config) [
        | err e ↦ (state, err invalid_config)
        | ok checked ↦
            if not (is_finite wavelength_m) || le wavelength_m nought
            then (state, err invalid_wavelength)
            else if not (is_finite cn0_dbhz)
            then (state, err invalid_cn0)
            else if not code_tracking
            then (let next = reset_carrier_tracking_runtime_state state in
                (next, ok (fill_runtime_result next (unlocked_result next) false)))
            else if not state.time_initialized
            then (let next = record state {
              last_update_time = current_time;
              time_initialized = true;
            } in
                (next, ok (fill_runtime_result next (unlocked_result next) false)))
            else elim (difference_time_ns current_time state.last_update_time) [
              | none ↦ (state, err not_monotonic)
              | some elapsed_ns ↦
                  if leb_ℤ elapsed_ns (pos 0)
                  then (state, err not_monotonic)
                  else conclude_update current_time (
                      runtime_loop fuel core_config cn0_dbhz wavelength_m
                        (div (decimal elapsed_ns 0) (decimal (pos 1_000_000_000) 0)) state
                        (unlocked_result state) false)
            ]
      ]

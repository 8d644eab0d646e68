-- ===== src/Carrier/Update.antt =====
-- The second half of src/model/carrier_tracking.cpp: one step of a carrier tracker. The tracker is
-- passed on also where the step fails, since a failure after the transition leaves the new state.
use gnss_data_simulator.Prelude.{◌+◌, ◌%◌, ◌^◌, Bool, true, false, not, ◌&&◌, if◌then◌else◌}
use gnss_data_simulator.Prelude.Int.{pos}
use gnss_data_simulator.Prelude.Result.{Result, ok, err, require, ◌>>◌}
use gnss_data_simulator.Double.{Double, nought, max, positive_finite}
use gnss_data_simulator.Carrier.{
  CarrierTrackingMode, carrier_unlocked, fll_track, pll_track, CarrierTrackingFllPhase, pull_in,
  steady, CarrierError, cn0_not_finite, wavelength, dt, gaussian, error_not_finite,
  CarrierTrackingConfig, CarrierTrackingState, CarrierTrackingInput, CarrierTrackingJitter,
  CarrierTrackingResult, elapsed_reached, validate_carrier_tracking_config, no_jitter,
  compute_carrier_tracking_jitter,
}

abbrev pub eq_mode : CarrierTrackingMode → CarrierTrackingMode → Bool
eq_mode carrier_unlocked carrier_unlocked = true
eq_mode fll_track fll_track = true
eq_mode pll_track pll_track = true
eq_mode _ _ = false

unfoldable pub fll_phase_of_mode : CarrierTrackingMode → Bool → CarrierTrackingFllPhase
fll_phase_of_mode fll_track fll_pull_in_active = if fll_pull_in_active then pull_in else steady
fll_phase_of_mode _ fll_pull_in_active = CarrierTrackingFllPhase.none

module _ {F : Type 0} ⦃d : Double F⦄ where
  open d use {decimal, add, sub, mul, sqrt, lt, le, is_finite}

  unfoldable pub clear_persistence : CarrierTrackingState F → CarrierTrackingState F
  clear_persistence state = record state {
    fll_enter_persistence_sec = nought;
    fll_exit_persistence_sec = nought;
    pll_enter_persistence_sec = nought;
    pll_exit_persistence_sec = nought;
  }

  unfoldable pub enter_unlocked : CarrierTrackingState F → CarrierTrackingState F
  unfolding clear_persistence
  enter_unlocked state = clear_persistence (record state {
    mode = carrier_unlocked;
    fll_pull_in_active = false;
    mode_age_sec = nought;
    carrier_lock_age_sec = nought;
    pll_age_sec = nought;
    tracking_error_hz = nought;
  })

  unfoldable pub enter_fll_from_unlocked : CarrierTrackingState F → CarrierTrackingState F
  unfolding clear_persistence
  enter_fll_from_unlocked state = clear_persistence (record state {
    mode = fll_track;
    fll_pull_in_active = true;
    mode_age_sec = nought;
    carrier_lock_age_sec = nought;
    pll_age_sec = nought;
    tracking_error_hz = nought;
    carrier_segment_id = (state.carrier_segment_id + 1) % 2 ^ 64;
  })

  unfoldable pub enter_fll_from_pll : CarrierTrackingState F → CarrierTrackingState F
  unfolding clear_persistence
  enter_fll_from_pll state = clear_persistence (record state {
    mode = fll_track;
    fll_pull_in_active = false;
    mode_age_sec = nought;
    pll_age_sec = nought;
  })

  unfoldable pub enter_pll : CarrierTrackingState F → CarrierTrackingState F
  unfolding clear_persistence
  enter_pll state = clear_persistence (record state {
    mode = pll_track;
    fll_pull_in_active = false;
    mode_age_sec = nought;
    pll_age_sec = nought;
  })

  unfoldable pub fill_unlocked_result : CarrierTrackingState F → Bool → CarrierTrackingResult F
  fill_unlocked_result state mode_changed = record {
    mode = state.mode;
    fll_phase = CarrierTrackingFllPhase.none;
    jitter = no_jitter;
    tracking_error_hz = nought;
    tracking_error_mps = nought;
    carrier_lock_age_sec = nought;
    pll_age_sec = nought;
    carrier_segment_id = state.carrier_segment_id;
    doppler_valid = false;
    adr_valid = false;
    mode_changed = mode_changed;
    new_carrier_segment = false;
  }

  -- A persistence counter: it grows while the condition holds and starts again otherwise.
  abbrev pub counted : Bool → F → F → F
  counted holds elapsed dt_sec = if holds then add elapsed dt_sec else nought

  -- The three cases of the switch, and whether a new segment begins.
  unfoldable pub step_unlocked :
      CarrierTrackingConfig F
      → CarrierTrackingInput F
      → CarrierTrackingState F
      → CarrierTrackingState F × Bool
  step_unlocked config input state =
      let fll_enter =
        counted (le config.fll_enter_cn0_dbhz input.effective_cn0_dbhz)
          state.fll_enter_persistence_sec input.dt_sec in
      let state = record state { fll_enter_persistence_sec = fll_enter } in
      if elapsed_reached fll_enter config.fll_enter_persistence_sec
      then (enter_fll_from_unlocked state, true)
      else (state, false)

  unfoldable pub step_fll :
      CarrierTrackingConfig F
      → CarrierTrackingInput F
      → CarrierTrackingState F
      → CarrierTrackingState F
  step_fll config input state =
      let mode_age = add state.mode_age_sec input.dt_sec in
      let fll_exit =
        counted (lt input.effective_cn0_dbhz config.fll_exit_cn0_dbhz)
          state.fll_exit_persistence_sec input.dt_sec in
      let pll_enter =
        counted (le config.pll_enter_cn0_dbhz input.effective_cn0_dbhz)
          state.pll_enter_persistence_sec input.dt_sec in
      let aged = record state {
        mode_age_sec = mode_age;
        carrier_lock_age_sec = add state.carrier_lock_age_sec input.dt_sec;
        fll_pull_in_active =
            state.fll_pull_in_active
            && not (elapsed_reached mode_age config.fll_pull_in_duration_sec);
        fll_exit_persistence_sec = fll_exit;
      } in
      let lasting = record aged { pll_enter_persistence_sec = pll_enter } in
      if elapsed_reached fll_exit config.fll_exit_persistence_sec
      then enter_unlocked aged
      else if elapsed_reached pll_enter config.pll_enter_persistence_sec
      then enter_pll lasting
      else lasting

  unfoldable pub step_pll :
      CarrierTrackingConfig F
      → CarrierTrackingInput F
      → CarrierTrackingState F
      → CarrierTrackingState F
  step_pll config input state =
      let pll_exit =
        counted (lt input.effective_cn0_dbhz config.pll_exit_cn0_dbhz)
          state.pll_exit_persistence_sec input.dt_sec in
      let aged = record state {
        mode_age_sec = add state.mode_age_sec input.dt_sec;
        carrier_lock_age_sec = add state.carrier_lock_age_sec input.dt_sec;
        pll_age_sec = add state.pll_age_sec input.dt_sec;
        pll_exit_persistence_sec = pll_exit;
      } in
      if elapsed_reached pll_exit config.pll_exit_persistence_sec
      then enter_fll_from_pll aged
      else aged

  unfoldable pub step_in_mode :
      CarrierTrackingConfig F
      → CarrierTrackingInput F
      → CarrierTrackingMode
      → CarrierTrackingState F
      → CarrierTrackingState F × Bool
  step_in_mode config input carrier_unlocked state = step_unlocked config input state
  step_in_mode config input fll_track state = (step_fll config input state, false)
  step_in_mode config input pll_track state = (step_pll config input state, false)

  -- The error after the first-order filter.
  abbrev pub filtered :
      CarrierTrackingInput F → CarrierTrackingState F → CarrierTrackingJitter F → F
  filtered input state jitter =
      let alpha = jitter.correlation_alpha in
      let innovation_scale = sqrt (max nought (sub (decimal (pos 1) 0) (mul alpha alpha))) in
      add (mul alpha state.tracking_error_hz)
        (mul (mul jitter.sigma_hz innovation_scale) input.standard_normal_sample)

  -- The result of a tracker that is not unlocked, with the filtered error in its state.
  abbrev pub fill_result :
      CarrierTrackingConfig F
      → CarrierTrackingInput F
      → CarrierTrackingMode
      → Bool
      → CarrierTrackingState F
      → CarrierTrackingJitter F
      → CarrierTrackingResult F
  fill_result config input previous_mode new_carrier_segment state jitter = record {
    mode = state.mode;
    fll_phase = fll_phase_of_mode state.mode state.fll_pull_in_active;
    jitter = jitter;
    tracking_error_hz = state.tracking_error_hz;
    tracking_error_mps = mul input.wavelength_m state.tracking_error_hz;
    carrier_lock_age_sec = state.carrier_lock_age_sec;
    pll_age_sec = state.pll_age_sec;
    carrier_segment_id = state.carrier_segment_id;
    doppler_valid = elapsed_reached state.carrier_lock_age_sec config.doppler_valid_delay_sec;
    adr_valid =
        eq_mode state.mode pll_track
        && elapsed_reached state.pll_age_sec config.adr_valid_after_pll_sec;
    mode_changed = not (eq_mode previous_mode state.mode);
    new_carrier_segment = new_carrier_segment;
  }

  unfoldable pub filter_error :
      CarrierTrackingConfig F
      → CarrierTrackingInput F
      → CarrierTrackingMode
      → Bool
      → CarrierTrackingState F
      → CarrierTrackingState F × Result CarrierError (CarrierTrackingResult F)
  filter_error config input previous_mode new_carrier_segment state =
      elim (compute_carrier_tracking_jitter config state.mode state.fll_pull_in_active
        input.effective_cn0_dbhz input.wavelength_m input.dt_sec) [
          | err e ↦ (state, err e)
          | ok jitter ↦
              let next = record state { tracking_error_hz = filtered input state jitter } in
              (
                next,
                (if is_finite next.tracking_error_hz
                    then ok (fill_result config input previous_mode new_carrier_segment next jitter)
                    else err error_not_finite),
              )
        ]

  unfoldable pub finish :
      CarrierTrackingConfig F
      → CarrierTrackingInput F
      → CarrierTrackingMode
      → Bool
      → CarrierTrackingState F
      → CarrierTrackingState F × Result CarrierError (CarrierTrackingResult F)
  finish config input previous_mode new_carrier_segment state =
      let changed = not (eq_mode previous_mode state.mode) in
      if eq_mode state.mode carrier_unlocked
      then (state, ok (fill_unlocked_result state changed))
      else filter_error config input previous_mode new_carrier_segment state

  -- The checks at the start.
  unfoldable pub check_input :
      CarrierTrackingConfig F → CarrierTrackingInput F → Result CarrierError (Unit {0})
  check_input config input = do
    validate_carrier_tracking_config config
    require (is_finite input.effective_cn0_dbhz) cn0_not_finite
    require (positive_finite input.wavelength_m) wavelength
    require (positive_finite input.dt_sec) dt
    require (is_finite input.standard_normal_sample) gaussian

  -- The state after the transition, and whether a new segment begins.
  unfoldable pub advance :
      CarrierTrackingConfig F
      → CarrierTrackingInput F
      → CarrierTrackingState F
      → CarrierTrackingState F × Bool
  advance config input state =
      if input.signal_available
      then step_in_mode config input state.mode state
      else (enter_unlocked state, false)

  unfoldable pub update_carrier_tracking :
      CarrierTrackingConfig F
      → CarrierTrackingInput F
      → CarrierTrackingState F
      → CarrierTrackingState F × Result CarrierError (CarrierTrackingResult F)
  update_carrier_tracking config input state = elim (check_input config input) [
    | err e ↦ (state, err e)
    | ok checked ↦
        let (next, new_carrier_segment) = advance config input state in
        finish config input state.mode new_carrier_segment next
  ]

-- ===== src/Examples/CarrierRuns.antt =====
-- The carrier tracker: the theorems at concrete inputs, and runs.
use gnss_data_simulator.Prelude.{◌≡◌, refl, ap, true, false, ◌&&◌, ◌⊎◌, arith}
use gnss_data_simulator.Prelude.Int.{pos, negsuc, ◌+ℤ◌, ◌-ℤ◌, ◌*ℤ◌, ◌/ℤ◌}
use gnss_data_simulator.Prelude.Result.{ok, err}
use gnss_data_simulator.Double.{positive_finite, clamp, max}
use gnss_data_simulator.Double.Milli.{Milli, num, milli_double, Milli-IsOrdered}
use gnss_data_simulator.Carrier.{
  carrier_unlocked, fll_track, CarrierTrackingFllPhase, CarrierTrackingConfig, CarrierTrackingState,
  CarrierTrackingInput, CarrierTrackingResult, CarrierError, elapsed_reached,
  validate_carrier_tracking_config, reset_carrier_tracking_state, default_carrier_tracking_config,
  compute_carrier_tracking_jitter,
}
use gnss_data_simulator.Carrier.Update.{
  step_unlocked, step_in_mode, filter_error, finish, check_input, advance, update_carrier_tracking,
  enter_fll_from_unlocked, clear_persistence, fll_phase_of_mode,
}
use gnss_data_simulator.Carrier.Machine.{IsDurable, Moves, update_carrier_tracking-Moves}
use gnss_data_simulator.Carrier.Invariant.{IsTracker, update_carrier_tracking-IsTracker}
use gnss_data_simulator.Carrier.Reports.{Reports, update_carrier_tracking-Reports}
use gnss_data_simulator.Carrier.Thresholds.{
  IsHysteresis, validate_carrier_tracking_config-Separates,
}

abbrev config : CarrierTrackingConfig Milli
config = record {
  coherent_integration_sec = num (pos 20);
  pll_noise_bandwidth_hz = num (pos 5000);
  fll_noise_bandwidth_hz = num (pos 4000);
  fll_pull_in_bandwidth_hz = num (pos 8000);
  fll_pull_in_duration_sec = num (pos 500);
  pll_enter_cn0_dbhz = num (pos 30000);
  pll_exit_cn0_dbhz = num (pos 27000);
  pll_enter_persistence_sec = num (pos 1000);
  pll_exit_persistence_sec = num (pos 300);
  fll_enter_cn0_dbhz = num (pos 22000);
  fll_exit_cn0_dbhz = num (pos 18000);
  fll_enter_persistence_sec = num (pos 200);
  fll_exit_persistence_sec = num (pos 500);
  doppler_valid_delay_sec = num (pos 200);
  adr_valid_after_pll_sec = num (pos 1000);
}

config_lem : default_carrier_tracking_config ≡ config
unfolding default_carrier_tracking_config ◌*ℤ◌ ◌/ℤ◌
config_lem = refl

-- A tracker that has waited for a tenth of a second, and a strong signal for another.
abbrev waiting : CarrierTrackingState Milli
waiting = record {
  mode = carrier_unlocked;
  fll_pull_in_active = false;
  mode_age_sec = num (pos 0);
  carrier_lock_age_sec = num (pos 0);
  pll_age_sec = num (pos 0);
  fll_enter_persistence_sec = num (pos 100);
  fll_exit_persistence_sec = num (pos 0);
  pll_enter_persistence_sec = num (pos 0);
  pll_exit_persistence_sec = num (pos 0);
  tracking_error_hz = num (pos 0);
  carrier_segment_id = 4;
}

abbrev strong : CarrierTrackingInput Milli
strong = record {
  signal_available = true;
  effective_cn0_dbhz = num (pos 25000);
  wavelength_m = num (pos 190);
  dt_sec = num (pos 100);
  standard_normal_sample = num (pos 1000);
}

waiting-IsTracker : IsTracker waiting
unfolding ◌*ℤ◌ ◌/ℤ◌
waiting-IsTracker = record {
  lock_age = λ h. refl;
  mode_age = λ h. refl;
  error = λ h. refl;
  pll_age = λ h. refl;
  pull_in = λ h. absurd (ground arith);
}

config-IsDurable : IsDurable config
unfolding elapsed_reached ◌+ℤ◌ ◌*ℤ◌ ◌/ℤ◌
config-IsDurable = record { fll_enter = refl; fll_exit = refl; pll_enter = refl; pll_exit = refl }

abbrev locked : CarrierTrackingState Milli
locked = record waiting {
  mode = fll_track;
  fll_pull_in_active = true;
  fll_enter_persistence_sec = num (pos 0);
  carrier_segment_id = 5;
}

abbrev told : CarrierTrackingResult Milli
told = record {
  mode = fll_track;
  fll_phase = CarrierTrackingFllPhase.pull_in;
  jitter = record {
    cn0_linear_hz = num (pos 10000);
    active_bandwidth_hz = num (pos 8000);
    phase_sigma_rad = num (pos 0);
    sigma_hz = num (pos 153600);
    sigma_mps = num (pos 29184);
    correlation_tau_sec = num (pos 19);
    correlation_alpha = num (negsuc 4262);
  };
  tracking_error_hz = num (pos 0);
  tracking_error_mps = num (pos 0);
  carrier_lock_age_sec = num (pos 0);
  pll_age_sec = num (pos 0);
  carrier_segment_id = 5;
  doppler_valid = false;
  adr_valid = false;
  mode_changed = true;
  new_carrier_segment = true;
}

-- The signal locks the tracker, in a new segment.
update_lem : update_carrier_tracking config strong waiting ≡ (locked, ok told)
unfolding update_carrier_tracking check_input validate_carrier_tracking_config advance step_in_mode
    step_unlocked enter_fll_from_unlocked clear_persistence finish filter_error elapsed_reached
    compute_carrier_tracking_jitter positive_finite clamp max fll_phase_of_mode ◌+ℤ◌ ◌-ℤ◌ ◌*ℤ◌ ◌/ℤ◌
update_lem = refl

update_carrier_tracking-Moves_example :
    ((check_input config strong ≡ ok tt)
      × Moves config strong waiting ((update_carrier_tracking config strong waiting).0))
    ⊎ ((e : CarrierError) × (check_input config strong ≡ err e)
        × (update_carrier_tracking config strong waiting ≡ (waiting, err e)))
update_carrier_tracking-Moves_example =
    update_carrier_tracking-Moves config strong config-IsDurable waiting

update_carrier_tracking-IsTracker_example :
    IsTracker (reset_carrier_tracking_state {F = Milli})
    × IsTracker ((update_carrier_tracking config strong waiting).0)
update_carrier_tracking-IsTracker_example =
    update_carrier_tracking-IsTracker config strong waiting waiting-IsTracker

update_carrier_tracking-Reports_example :
    Reports config carrier_unlocked ((update_carrier_tracking config strong waiting).0) told
update_carrier_tracking-Reports_example =
    update_carrier_tracking-Reports config strong waiting told waiting-IsTracker
      (ap (λ p. p.1) update_lem)

valid_lem : validate_carrier_tracking_config config ≡ ok tt
unfolding validate_carrier_tracking_config positive_finite ◌*ℤ◌ ◌/ℤ◌
valid_lem = refl

validate_carrier_tracking_config-Separates_example :
    IsHysteresis config.fll_enter_cn0_dbhz config.fll_exit_cn0_dbhz
    × IsHysteresis config.pll_enter_cn0_dbhz config.pll_exit_cn0_dbhz
    × ((x : Milli) × (milli_double.is_finite x ≡ true)
        × (milli_double.le config.fll_enter_cn0_dbhz x ≡ true)
        × (milli_double.lt x config.pll_exit_cn0_dbhz ≡ true))
    × ((x : Milli)
        → (milli_double.le config.pll_enter_cn0_dbhz x
            && milli_double.lt x config.fll_exit_cn0_dbhz)
          ≡ false)
validate_carrier_tracking_config-Separates_example =
    validate_carrier_tracking_config-Separates Milli-IsOrdered config valid_lem

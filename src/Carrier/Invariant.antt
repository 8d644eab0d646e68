-- ===== src/Carrier/Invariant.antt =====
-- What an update of src/model/carrier_tracking.cpp keeps of a tracker.
use gnss_data_simulator.Prelude.{
  if-split, ◌≡◌, ◌≢◌, refl, sym, ◌∙◌, Bool, true, false, inl, inr, arith,
}
use gnss_data_simulator.Prelude.Result.{Result, Result-cases}
use gnss_data_simulator.Double.{Double, nought}
use gnss_data_simulator.Carrier.{
  CarrierTrackingMode, carrier_unlocked, fll_track, pll_track, CarrierTrackingConfig,
  CarrierTrackingState, CarrierTrackingInput, CarrierTrackingResult, elapsed_reached,
  reset_carrier_tracking_state, CarrierError,
}
use gnss_data_simulator.Carrier.Update.{
  eq_mode, step_unlocked, step_fll, step_pll, step_in_mode, finish, check_input, advance,
  update_carrier_tracking, enter_unlocked, enter_fll_from_unlocked, enter_fll_from_pll, enter_pll,
  clear_persistence, counted,
}
use gnss_data_simulator.Carrier.Machine.{
  filter_error_state, update_carrier_tracking-checked, update_carrier_tracking-refused,
}

not_unlocked : (m : CarrierTrackingMode) → eq_mode m carrier_unlocked ≡ false → m ≢ carrier_unlocked
not_unlocked carrier_unlocked h k = ground arith
not_unlocked fll_track h k = ground arith
not_unlocked pll_track h k = ground arith

fll_unlocked : fll_track ≢ carrier_unlocked
fll_unlocked e = ground arith

pll_unlocked : pll_track ≢ carrier_unlocked
pll_unlocked e = ground arith

module _ {F : Type 0} ⦃d : Double F⦄ where
  open d use {lt, le}

  -- An unlocked tracker has no age, no filtered error and no pull-in, a tracker that is not in PLL mode
  -- has no PLL age, and pull-in is part of FLL mode.
  pub record IsTracker (s : CarrierTrackingState F) : Type 0 where
    pub lock_age : s.mode ≡ carrier_unlocked → s.carrier_lock_age_sec ≡ nought
    pub mode_age : s.mode ≡ carrier_unlocked → s.mode_age_sec ≡ nought
    pub error : s.mode ≡ carrier_unlocked → s.tracking_error_hz ≡ nought
    pub pll_age : s.mode ≢ pll_track → s.pll_age_sec ≡ nought
    pub pull_in : s.fll_pull_in_active ≡ true → s.mode ≡ fll_track

  reset-IsTracker : IsTracker reset_carrier_tracking_state
  unfolding reset_carrier_tracking_state
  reset-IsTracker = record {
    lock_age = λ h. refl;
    mode_age = λ h. refl;
    error = λ h. refl;
    pll_age = λ h. refl;
    pull_in = λ h. absurd (ground arith);
  }

  enter_unlocked-IsTracker : (s : CarrierTrackingState F) → IsTracker (enter_unlocked s)
  unfolding enter_unlocked clear_persistence
  enter_unlocked-IsTracker s = record {
    lock_age = λ h. refl;
    mode_age = λ h. refl;
    error = λ h. refl;
    pll_age = λ h. refl;
    pull_in = λ h. absurd (ground arith);
  }

  enter_fll_from_unlocked-IsTracker :
      (s : CarrierTrackingState F) → IsTracker (enter_fll_from_unlocked s)
  unfolding enter_fll_from_unlocked clear_persistence
  enter_fll_from_unlocked-IsTracker s = record {
    lock_age = λ h. refl;
    mode_age = λ h. refl;
    error = λ h. refl;
    pll_age = λ h. refl;
    pull_in = λ h. refl;
  }

  enter_fll_from_pll-IsTracker : (s : CarrierTrackingState F) → IsTracker (enter_fll_from_pll s)
  unfolding enter_fll_from_pll clear_persistence
  enter_fll_from_pll-IsTracker s = record {
    lock_age = λ h. absurd (ground arith);
    mode_age = λ h. refl;
    error = λ h. absurd (ground arith);
    pll_age = λ h. refl;
    pull_in = λ h. refl;
  }

  enter_pll-IsTracker : (s : CarrierTrackingState F) → IsTracker (enter_pll s)
  unfolding enter_pll clear_persistence
  enter_pll-IsTracker s = record {
    lock_age = λ h. absurd (ground arith);
    mode_age = λ h. refl;
    error = λ h. absurd (ground arith);
    pll_age = λ h. refl;
    pull_in = λ h. absurd (ground arith);
  }

  -- A tracker that stays in its mode keeps what the invariant says of the mode.
  step_in_mode-IsTracker :
      (config : CarrierTrackingConfig F) (input : CarrierTrackingInput F) (m : CarrierTrackingMode)
      (s : CarrierTrackingState F)
      → s.mode ≡ m
      → IsTracker s
      → IsTracker ((step_in_mode config input m s).0)
  unfolding step_in_mode step_unlocked step_fll step_pll
  step_in_mode-IsTracker config input carrier_unlocked s e i =
      let test =
        counted (le config.fll_enter_cn0_dbhz input.effective_cn0_dbhz) s.fll_enter_persistence_sec
          input.dt_sec in
      if-split {A = CarrierTrackingState F × Bool} (λ r. IsTracker r.0)
        (elapsed_reached test config.fll_enter_persistence_sec)
        (λ h. enter_fll_from_unlocked-IsTracker _)
        (λ h. record {
          lock_age = i.lock_age;
          mode_age = i.mode_age;
          error = i.error;
          pll_age = i.pll_age;
          pull_in = i.pull_in;
        })
  step_in_mode-IsTracker config input fll_track s e i =
      let exits =
        counted (lt input.effective_cn0_dbhz config.fll_exit_cn0_dbhz) s.fll_exit_persistence_sec
          input.dt_sec in
      let enters =
        counted (le config.pll_enter_cn0_dbhz input.effective_cn0_dbhz) s.pll_enter_persistence_sec
          input.dt_sec in
      if-split IsTracker (elapsed_reached exits config.fll_exit_persistence_sec)
        (λ h. enter_unlocked-IsTracker _)
        (λ h.
          if-split IsTracker (elapsed_reached enters config.pll_enter_persistence_sec)
            (λ k. enter_pll-IsTracker _)
            (λ k. record {
              lock_age = λ u. absurd (fll_unlocked (sym e ∙ u));
              mode_age = λ u. absurd (fll_unlocked (sym e ∙ u));
              error = λ u. absurd (fll_unlocked (sym e ∙ u));
              pll_age = i.pll_age;
              pull_in = λ u. e;
            }))
  step_in_mode-IsTracker config input pll_track s e i =
      let test =
        counted (lt input.effective_cn0_dbhz config.pll_exit_cn0_dbhz) s.pll_exit_persistence_sec
          input.dt_sec in
      if-split IsTracker (elapsed_reached test config.pll_exit_persistence_sec)
        (λ h. enter_fll_from_pll-IsTracker _)
        (λ h. record {
          lock_age = λ u. absurd (pll_unlocked (sym e ∙ u));
          mode_age = λ u. absurd (pll_unlocked (sym e ∙ u));
          error = λ u. absurd (pll_unlocked (sym e ∙ u));
          pll_age = λ u. absurd (u e);
          pull_in = i.pull_in;
        })

  pub advance-IsTracker :
      (config : CarrierTrackingConfig F) (input : CarrierTrackingInput F)
      (s : CarrierTrackingState F)
      → IsTracker s
      → IsTracker ((advance config input s).0)
  unfolding advance
  advance-IsTracker config input s i =
      if-split {A = CarrierTrackingState F × Bool} (λ r. IsTracker r.0) input.signal_available
        (λ on. step_in_mode-IsTracker config input s.mode s refl i)
        (λ off. enter_unlocked-IsTracker s)

  finish-IsTracker :
      (config : CarrierTrackingConfig F) (input : CarrierTrackingInput F) (m : CarrierTrackingMode)
      (b : Bool) (t : CarrierTrackingState F)
      → IsTracker t
      → IsTracker ((finish config input m b t).0)
  unfolding finish
  finish-IsTracker config input m b t i =
      if-split {A = CarrierTrackingState F × Result CarrierError (CarrierTrackingResult F)}
        (λ r. IsTracker r.0) (eq_mode t.mode carrier_unlocked) (λ u. i)
        (λ u. rw (filter_error_state config input m b t) (record {
          lock_age = i.lock_age;
          mode_age = i.mode_age;
          error = λ e. absurd (not_unlocked _ u e);
          pll_age = i.pll_age;
          pull_in = i.pull_in;
        }))

  -- The invariant of trackers holds after a reset, and an update keeps it on every branch, a failure
  -- after the transition included.
  pub update_carrier_tracking-IsTracker :
      (config : CarrierTrackingConfig F) (input : CarrierTrackingInput F)
      (s : CarrierTrackingState F)
      → IsTracker s
      → IsTracker reset_carrier_tracking_state
        × IsTracker ((update_carrier_tracking config input s).0)
  update_carrier_tracking-IsTracker config input s i = (
    reset-IsTracker,
    elim (Result-cases (check_input config input)) [
      | inl (e, h) ↦ rw (update_carrier_tracking-refused config input s e h) i
      | inr (u, h) ↦
          rw (update_carrier_tracking-checked config input s u h)
            (finish-IsTracker config input s.mode _ _ (advance-IsTracker config input s i))
    ],
  )

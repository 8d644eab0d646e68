-- ===== src/Carrier/Machine.antt =====
-- The state machine of src/model/carrier_tracking.cpp as a relation, the invariant of its states and
-- what a result reports.
use gnss_data_simulator.Prelude.{
  ℕ, ◌+◌, ◌%◌, ◌^◌, ◌≡◌, refl, Bool, true, false, if-split, Bool-cases, ◌⊎◌, inl, inr, arith,
}
use gnss_data_simulator.Prelude.Result.{Result, ok, err, Result-cases}
use gnss_data_simulator.Double.{Double, nought}
use gnss_data_simulator.Carrier.{
  CarrierTrackingMode, carrier_unlocked, fll_track, pll_track, CarrierError, CarrierTrackingConfig,
  CarrierTrackingState, CarrierTrackingInput, CarrierTrackingResult, elapsed_reached,
  compute_carrier_tracking_jitter,
}
use gnss_data_simulator.Carrier.Update.{
  eq_mode, step_unlocked, step_fll, step_pll, step_in_mode, filter_error, finish, check_input,
  advance, update_carrier_tracking, enter_unlocked, enter_fll_from_unlocked, enter_fll_from_pll,
  enter_pll, clear_persistence, counted,
}

module _ {F : Type 0} ⦃d : Double F⦄ where
  open d use {lt, le, is_finite}

  -- No waiting time is so short that an empty counter reaches it.
  pub record IsDurable (config : CarrierTrackingConfig F) : Type 0 where
    pub fll_enter : elapsed_reached nought config.fll_enter_persistence_sec ≡ false
    pub fll_exit : elapsed_reached nought config.fll_exit_persistence_sec ≡ false
    pub pll_enter : elapsed_reached nought config.pll_enter_persistence_sec ≡ false
    pub pll_exit : elapsed_reached nought config.pll_exit_persistence_sec ≡ false

  -- One step from a mode and a segment number to a mode and a segment number.
  pub data Transition (config : CarrierTrackingConfig F) (input : CarrierTrackingInput F)
      : CarrierTrackingMode → ℕ → CarrierTrackingMode → ℕ → Type 0 where
    switched_off :
        {m : CarrierTrackingMode} {n : ℕ}
        → input.signal_available ≡ false
        → Transition config input m n carrier_unlocked n
    stays :
        {m : CarrierTrackingMode} {n : ℕ}
        → input.signal_available ≡ true
        → Transition config input m n m n
    acquires :
        {n : ℕ}
        → input.signal_available ≡ true
        → le config.fll_enter_cn0_dbhz input.effective_cn0_dbhz ≡ true
        → Transition config input carrier_unlocked n fll_track ((n + 1) % 2 ^ 64)
    locks :
        {n : ℕ}
        → input.signal_available ≡ true
        → le config.pll_enter_cn0_dbhz input.effective_cn0_dbhz ≡ true
        → Transition config input fll_track n pll_track n
    drops :
        {n : ℕ}
        → input.signal_available ≡ true
        → lt input.effective_cn0_dbhz config.pll_exit_cn0_dbhz ≡ true
        → Transition config input pll_track n fll_track n
    loses :
        {n : ℕ}
        → input.signal_available ≡ true
        → lt input.effective_cn0_dbhz config.fll_exit_cn0_dbhz ≡ true
        → Transition config input fll_track n carrier_unlocked n

  abbrev pub Moves :
      CarrierTrackingConfig F
      → CarrierTrackingInput F
      → CarrierTrackingState F
      → CarrierTrackingState F
      → Type 0
  Moves config input s t =
      Transition config input s.mode s.carrier_segment_id t.mode t.carrier_segment_id

  -- A counter that reaches a lasting threshold has just grown.
  counted-true :
      (holds : Bool) (elapsed dt threshold : F)
      → elapsed_reached nought threshold ≡ false
      → elapsed_reached (counted holds elapsed dt) threshold ≡ true
      → holds ≡ true
  counted-true true elapsed dt threshold h k = refl
  counted-true false elapsed dt threshold h k = ground arith

  module _ (config : CarrierTrackingConfig F) (input : CarrierTrackingInput F)
      (durable : IsDurable config) (on : input.signal_available ≡ true) where
    step_unlocked-Moves :
        (s : CarrierTrackingState F)
        → s.mode ≡ carrier_unlocked
        → Moves config input s ((step_unlocked config input s).0)
    unfolding step_unlocked enter_fll_from_unlocked clear_persistence
    step_unlocked-Moves s e =
        let test =
          counted (le config.fll_enter_cn0_dbhz input.effective_cn0_dbhz)
            s.fll_enter_persistence_sec input.dt_sec in
        elim (Bool-cases (elapsed_reached test config.fll_enter_persistence_sec)) [
          | inl h ↦ rw (h, e) (acquires on (counted-true _ _ _ _ durable.fll_enter h))
          | inr h ↦ rw h (stays on)
        ]

    step_fll-Moves :
        (s : CarrierTrackingState F)
        → s.mode ≡ fll_track
        → Moves config input s (step_fll config input s)
    unfolding step_fll enter_unlocked enter_pll clear_persistence
    step_fll-Moves s e =
        let exits =
          counted (lt input.effective_cn0_dbhz config.fll_exit_cn0_dbhz) s.fll_exit_persistence_sec
            input.dt_sec in
        let enters =
          counted (le config.pll_enter_cn0_dbhz input.effective_cn0_dbhz)
            s.pll_enter_persistence_sec input.dt_sec in
        elim (Bool-cases (elapsed_reached exits config.fll_exit_persistence_sec)) [
          | inl h ↦ rw (h, e) (loses on (counted-true _ _ _ _ durable.fll_exit h))
          | inr h ↦ elim (Bool-cases (elapsed_reached enters config.pll_enter_persistence_sec)) [
            | inl k ↦ rw (h, k, e) (locks on (counted-true _ _ _ _ durable.pll_enter k))
            | inr k ↦ rw (h, k) (stays on)
          ]
        ]

    step_pll-Moves :
        (s : CarrierTrackingState F)
        → s.mode ≡ pll_track
        → Moves config input s (step_pll config input s)
    unfolding step_pll enter_fll_from_pll clear_persistence
    step_pll-Moves s e =
        let test =
          counted (lt input.effective_cn0_dbhz config.pll_exit_cn0_dbhz) s.pll_exit_persistence_sec
            input.dt_sec in
        elim (Bool-cases (elapsed_reached test config.pll_exit_persistence_sec)) [
          | inl h ↦ rw (h, e) (drops on (counted-true _ _ _ _ durable.pll_exit h))
          | inr h ↦ rw h (stays on)
        ]

    step_in_mode-Moves :
        (m : CarrierTrackingMode) (s : CarrierTrackingState F)
        → s.mode ≡ m
        → Moves config input s ((step_in_mode config input m s).0)
    unfolding step_in_mode
    step_in_mode-Moves carrier_unlocked s e = step_unlocked-Moves s e
    step_in_mode-Moves fll_track s e = step_fll-Moves s e
    step_in_mode-Moves pll_track s e = step_pll-Moves s e

  advance-Moves :
      (config : CarrierTrackingConfig F) (input : CarrierTrackingInput F)
      → IsDurable config
      → (s : CarrierTrackingState F) → Moves config input s ((advance config input s).0)
  unfolding advance enter_unlocked clear_persistence
  advance-Moves config input durable s =
      if-split {A = CarrierTrackingState F × Bool} (λ r. Moves config input s r.0)
        input.signal_available (λ on. step_in_mode-Moves config input durable on s.mode s refl)
        (λ off. switched_off off)

  -- The rest of the update changes the filtered error alone.
  pub filter_error_state :
      (config : CarrierTrackingConfig F) (input : CarrierTrackingInput F) (m : CarrierTrackingMode)
      (b : Bool) (s : CarrierTrackingState F)
      → (filter_error config input m b s).0
        ≡ record s { tracking_error_hz = (filter_error config input m b s).0.tracking_error_hz }
  unfolding filter_error
  filter_error_state config input m b s =
      let jitter =
        compute_carrier_tracking_jitter config s.mode s.fll_pull_in_active input.effective_cn0_dbhz
          input.wavelength_m input.dt_sec in
      elim (Result-cases jitter) [
        | inl (e, h) ↦ rw (h, filter_error) refl
        | inr (j, h) ↦ rw (h, filter_error) refl
      ]

  finish-Moves :
      (config : CarrierTrackingConfig F) (input : CarrierTrackingInput F) (m : CarrierTrackingMode)
      (b : Bool) (s t : CarrierTrackingState F)
      → Moves config input s t
      → Moves config input s ((finish config input m b t).0)
  unfolding finish
  finish-Moves config input m b s t h =
      if-split {A = CarrierTrackingState F × Result CarrierError (CarrierTrackingResult F)}
        (λ r. Moves config input s r.0) (eq_mode t.mode carrier_unlocked) (λ u. h)
        (λ u. rw (filter_error_state config input m b t) h)

  pub update_carrier_tracking-refused :
      (config : CarrierTrackingConfig F) (input : CarrierTrackingInput F)
      (s : CarrierTrackingState F) (e : CarrierError)
      → check_input config input ≡ err e
      → update_carrier_tracking config input s ≡ (s, err e)
  unfolding update_carrier_tracking
  update_carrier_tracking-refused config input s e h = rw (h, update_carrier_tracking) refl

  pub update_carrier_tracking-checked :
      (config : CarrierTrackingConfig F) (input : CarrierTrackingInput F)
      (s : CarrierTrackingState F) (u : Unit {0})
      → check_input config input ≡ ok u
      → update_carrier_tracking config input s
        ≡ finish config input s.mode ((advance config input s).1) ((advance config input s).0)
  unfolding update_carrier_tracking
  update_carrier_tracking-checked config input s u h = rw (h, update_carrier_tracking) refl

  -- Where no waiting time is so short that an empty counter reaches it, an update whose arguments pass
  -- the checks is one step of the state machine, with or without an error after the transition, and
  -- only gaining a lock begins a new segment; an update that the checks refuse changes nothing and
  -- returns their error.
  pub update_carrier_tracking-Moves :
      (config : CarrierTrackingConfig F) (input : CarrierTrackingInput F)
      → IsDurable config
      → (s : CarrierTrackingState F)
      → ((check_input config input ≡ ok tt)
          × Moves config input s ((update_carrier_tracking config input s).0))
        ⊎ ((e : CarrierError) × (check_input config input ≡ err e)
            × (update_carrier_tracking config input s ≡ (s, err e)))
  update_carrier_tracking-Moves config input durable s =
      elim (Result-cases (check_input config input)) [
        | inl (e, h) ↦ inr (e, h, update_carrier_tracking-refused config input s e h)
        | inr (tt, h) ↦ inl (
          h,
          rw (update_carrier_tracking-checked config input s tt h)
              (finish-Moves config input s.mode _ s _ (advance-Moves config input durable s)),
        )
      ]

-- ===== src/Carrier/Reports.antt =====
-- What the result of an update of src/model/carrier_tracking.cpp reports of the tracker.
use gnss_data_simulator.Prelude.{
  if-split, ◌≡◌, ◌≢◌, refl, sym, subst, ◌∙◌, Bool, true, false, not, ◌&&◌, Bool-cases, inl, inr,
  arith,
}
use gnss_data_simulator.Prelude.Result.{Result, ok, Result-cases, ok-injective, err-ne-ok}
use gnss_data_simulator.Double.{Double}
use gnss_data_simulator.Carrier.{
  CarrierTrackingMode, carrier_unlocked, fll_track, pll_track, CarrierTrackingConfig,
  CarrierTrackingState, CarrierTrackingInput, CarrierTrackingResult, CarrierTrackingJitter,
  elapsed_reached, CarrierError, compute_carrier_tracking_jitter,
}
use gnss_data_simulator.Carrier.Update.{
  eq_mode, step_unlocked, step_in_mode, fill_result, filtered, filter_error, finish, check_input,
  advance, update_carrier_tracking, enter_unlocked, enter_fll_from_unlocked, clear_persistence,
  counted, fill_unlocked_result,
}
use gnss_data_simulator.Carrier.Machine.{
  update_carrier_tracking-checked, update_carrier_tracking-refused,
}
use gnss_data_simulator.Carrier.Invariant.{IsTracker, advance-IsTracker}

pll_unlocked : pll_track ≢ carrier_unlocked
pll_unlocked e = ground arith

eq_mode_sound : (m n : CarrierTrackingMode) → eq_mode m n ≡ true → m ≡ n
eq_mode_sound carrier_unlocked n h = ground arith
eq_mode_sound fll_track n h = ground arith
eq_mode_sound pll_track n h = ground arith

module _ {F : Type 0} ⦃d : Double F⦄ where
  open d use {le, is_finite}

  -- The result describes the state `t` after the update, and the change from the mode `m` before it.
  pub record Reports (config : CarrierTrackingConfig F) (m : CarrierTrackingMode)
      (t : CarrierTrackingState F) (r : CarrierTrackingResult F) : Type 0 where
    pub mode : r.mode ≡ t.mode
    pub segment : r.carrier_segment_id ≡ t.carrier_segment_id
    pub error : r.tracking_error_hz ≡ t.tracking_error_hz
    pub lock_age : r.carrier_lock_age_sec ≡ t.carrier_lock_age_sec
    pub pll_age : r.pll_age_sec ≡ t.pll_age_sec
    pub changed : r.mode_changed ≡ not (eq_mode m t.mode)
    pub started : r.new_carrier_segment ≡ (eq_mode m carrier_unlocked && eq_mode t.mode fll_track)
    pub doppler : r.doppler_valid ≡ (
        not (eq_mode t.mode carrier_unlocked)
        && elapsed_reached t.carrier_lock_age_sec config.doppler_valid_delay_sec)
    pub adr :
        r.adr_valid
        ≡ (eq_mode t.mode pll_track && elapsed_reached t.pll_age_sec config.adr_valid_after_pll_sec)

  Told :
      CarrierTrackingConfig F
      → CarrierTrackingMode
      → CarrierTrackingState F × Result CarrierError (CarrierTrackingResult F)
      → Type 0
  Told config m p = (r : CarrierTrackingResult F) → p.1 ≡ ok r → Reports config m p.0 r

  fill_result-Reports :
      (config : CarrierTrackingConfig F) (input : CarrierTrackingInput F) (m : CarrierTrackingMode)
      (b : Bool) (t : CarrierTrackingState F) (j : CarrierTrackingJitter F)
      → b ≡ (eq_mode m carrier_unlocked && eq_mode t.mode fll_track)
      → eq_mode t.mode carrier_unlocked ≡ false
      → Reports config m t (fill_result config input m b t j)
  fill_result-Reports config input m b t j starts locked = record {
    mode = refl;
    segment = refl;
    error = refl;
    lock_age = refl;
    pll_age = refl;
    changed = refl;
    started = starts;
    doppler = rw locked refl;
    adr = refl;
  }

  filter_error-Reports :
      (config : CarrierTrackingConfig F) (input : CarrierTrackingInput F) (m : CarrierTrackingMode)
      (b : Bool) (t : CarrierTrackingState F)
      → b ≡ (eq_mode m carrier_unlocked && eq_mode t.mode fll_track)
      → eq_mode t.mode carrier_unlocked ≡ false
      → Told config m (filter_error config input m b t)
  unfolding filter_error Told
  filter_error-Reports config input m b t starts locked =
      let jitter =
        compute_carrier_tracking_jitter config t.mode t.fll_pull_in_active input.effective_cn0_dbhz
          input.wavelength_m input.dt_sec in
      elim (Result-cases jitter) [
        | inl (e, h) ↦ rw (h, filter_error) (λ r k. absurd (err-ne-ok k))
        | inr (j, h) ↦
            rw (h, filter_error)
              (λ r k. elim (Bool-cases (is_finite (filtered input t j))) [
                | inl f ↦
                    subst (Reports config m (record t { tracking_error_hz = filtered input t j }))
                      (ok-injective (rw f at k))
                      (fill_result-Reports config input m b _ j starts locked)
                | inr f ↦ absurd (err-ne-ok (rw f at k))
              ])
      ]

  unlocked-Reports :
      (config : CarrierTrackingConfig F) (m : CarrierTrackingMode) (t : CarrierTrackingState F)
      → IsTracker t
      → t.mode ≡ carrier_unlocked
      → Reports config m t (fill_unlocked_result t (not (eq_mode m t.mode)))
  unfolding fill_unlocked_result
  unlocked-Reports config m t i e = record {
    mode = refl;
    segment = refl;
    error = sym (i.error e);
    lock_age = sym (i.lock_age e);
    pll_age = sym (i.pll_age (λ u. absurd (pll_unlocked (sym u ∙ e))));
    changed = refl;
    started = rw e (ground arith);
    doppler = rw e refl;
    adr = rw e refl;
  }

  step_in_mode_starts :
      (config : CarrierTrackingConfig F) (input : CarrierTrackingInput F) (m : CarrierTrackingMode)
      (s : CarrierTrackingState F)
      → s.mode ≡ m
      → (step_in_mode config input m s).1
        ≡ (eq_mode m carrier_unlocked && eq_mode (step_in_mode config input m s).0.mode fll_track)
  unfolding step_in_mode step_unlocked enter_fll_from_unlocked clear_persistence
  step_in_mode_starts config input carrier_unlocked s e =
      let test =
        counted (le config.fll_enter_cn0_dbhz input.effective_cn0_dbhz) s.fll_enter_persistence_sec
          input.dt_sec in
      if-split {A = CarrierTrackingState F × Bool} (λ r. r.1 ≡ (true && eq_mode r.0.mode fll_track))
        (elapsed_reached test config.fll_enter_persistence_sec) (λ h. refl) (λ h. rw e refl)
  step_in_mode_starts config input fll_track s e = refl
  step_in_mode_starts config input pll_track s e = refl

  advance_starts :
      (config : CarrierTrackingConfig F) (input : CarrierTrackingInput F)
      (s : CarrierTrackingState F)
      → (advance config input s).1
        ≡ (eq_mode s.mode carrier_unlocked && eq_mode (advance config input s).0.mode fll_track)
  unfolding advance enter_unlocked clear_persistence
  advance_starts config input s =
      if-split {A = CarrierTrackingState F × Bool}
        (λ r. r.1 ≡ (eq_mode s.mode carrier_unlocked && eq_mode r.0.mode fll_track))
        input.signal_available (λ on. step_in_mode_starts config input s.mode s refl)
        (λ off. ground arith)

  finish-Told :
      (config : CarrierTrackingConfig F) (input : CarrierTrackingInput F) (m : CarrierTrackingMode)
      (b : Bool) (t : CarrierTrackingState F)
      → b ≡ (eq_mode m carrier_unlocked && eq_mode t.mode fll_track)
      → IsTracker t
      → Told config m (finish config input m b t)
  unfolding finish Told
  finish-Told config input m b t starts i =
      if-split {A = CarrierTrackingState F × Result CarrierError (CarrierTrackingResult F)}
        (Told config m) (eq_mode t.mode carrier_unlocked)
        (λ u r h.
          subst (Reports config m t) (ok-injective h)
            (unlocked-Reports config m t i (eq_mode_sound _ _ u)))
        (λ u. filter_error-Reports config input m b t starts u)

  -- The result of an update of a tracker in order describes the state after the update: Doppler is
  -- valid exactly in a locked mode that has lasted long enough, the carrier phase exactly in a PLL
  -- mode that has, and a segment is new exactly where an unlocked tracker gained a lock.
  pub update_carrier_tracking-Reports :
      (config : CarrierTrackingConfig F) (input : CarrierTrackingInput F)
      (s : CarrierTrackingState F) (r : CarrierTrackingResult F)
      → IsTracker s
      → (update_carrier_tracking config input s).1 ≡ ok r
      → Reports config s.mode ((update_carrier_tracking config input s).0) r
  unfolding Told
  update_carrier_tracking-Reports config input s r i h =
      elim (Result-cases (check_input config input)) [
        | inl (e, k) ↦
            absurd (err-ne-ok (rw (update_carrier_tracking-refused config input s e k) at h))
        | inr (u, k) ↦
            subst (Told config s.mode) (sym (update_carrier_tracking-checked config input s u k))
              (finish-Told config input s.mode _ _ (advance_starts config input s)
                (advance-IsTracker config input s i))
              r h
      ]

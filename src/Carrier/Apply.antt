-- ===== src/Carrier/Apply.antt =====
-- src/model/carrier_tracking_runtime.cpp: the result of a carrier tracker is applied to the
-- observation of the signal.
use gnss_data_simulator.Prelude.{
  Bool, true, false, not, ◌&&◌, ◌||◌, ◌≡◌, ◌∙◌, refl, sym, ap, subst, if◌then◌else◌, if-split,
  arith,
}
use gnss_data_simulator.Prelude.Int.{
  ℤ, pos, ◌+ℤ◌, ◌-ℤ◌, ltb_ℤ, int64_max, int64_min, IsInt64, +ℤ_parts, -ℤ_parts,
}
use gnss_data_simulator.Prelude.Result.{Result, ok, err, err-ne-ok, ok-injective}
use gnss_data_simulator.Double.{Double, nought}
use gnss_data_simulator.Solution.{MeasurementObservation}
use gnss_data_simulator.Carrier.{carrier_unlocked}
use gnss_data_simulator.Carrier.Update.{eq_mode}
use gnss_data_simulator.Carrier.Runtime.{CarrierTrackingRuntimeResult, RuntimeError}

-- The sum of the two would leave the 64 bits.
unfoldable pub offset_overflows : ℤ → ℤ → Bool
offset_overflows ambiguity offset =
    ltb_ℤ (pos 0) offset && ltb_ℤ (int64_max -ℤ offset) ambiguity
    || ltb_ℤ offset (pos 0) && ltb_ℤ ambiguity (int64_min -ℤ offset)

offset_overflows-IsInt64 :
    (ambiguity offset : ℤ)
    → IsInt64 ambiguity
    → IsInt64 offset
    → offset_overflows ambiguity offset ≡ false
    → IsInt64 (ambiguity +ℤ offset)
unfolding offset_overflows
offset_overflows-IsInt64 a b h k n =
    ground (arith, -ℤ_parts int64_max b, -ℤ_parts int64_min b, +ℤ_parts a b)

module _ {F : Type 0} ⦃d : Double F⦄ where
  open d use {decimal, add, sub, le, is_finite}

  unfoldable pub with_errors :
      CarrierTrackingRuntimeResult F → MeasurementObservation F → MeasurementObservation F
  with_errors carrier observation =
      let tracking = carrier.tracking in
      let moved =
        if eq_mode tracking.mode carrier_unlocked then observation else record observation {
          doppler_hz = add observation.doppler_hz tracking.tracking_error_hz;
          range_rate_mps = sub observation.range_rate_mps tracking.tracking_error_mps;
        } in
      record moved {
        doppler_valid = observation.doppler_valid && tracking.doppler_valid;
        adr_valid = observation.adr_valid && tracking.adr_valid;
      }

  -- The carrier cycles of the segment.
  unfoldable pub with_offset : ℤ → MeasurementObservation F → MeasurementObservation F
  with_offset offset output = record output {
    ambiguity_cycles = output.ambiguity_cycles +ℤ offset;
    adr_cycles = add output.adr_cycles (decimal offset 0);
  }

  unfoldable pub without_observation : MeasurementObservation F → MeasurementObservation F
  without_observation output =
      if not output.observation_available
      then record output { pseudorange_valid = false; doppler_valid = false; adr_valid = false }
      else output

  -- A number that the application uses is not finite, or the wavelength is not positive.
  unfoldable pub not_applicable : CarrierTrackingRuntimeResult F → MeasurementObservation F → Bool
  not_applicable carrier observation =
      not (is_finite observation.wavelength_m)
      || le observation.wavelength_m nought
      || not (is_finite observation.range_rate_mps)
      || not (is_finite observation.doppler_hz)
      || not (is_finite observation.adr_cycles)
      || not (is_finite carrier.tracking.tracking_error_hz)
      || not (is_finite carrier.tracking.tracking_error_mps)

  unfoldable pub apply_carrier_tracking_runtime_result :
      CarrierTrackingRuntimeResult F
      → MeasurementObservation F
      → Result RuntimeError (MeasurementObservation F)
  apply_carrier_tracking_runtime_result carrier observation =
      let output = with_errors carrier observation in
      if not_applicable carrier observation
      then err RuntimeError.invalid_arguments
      else if output.adr_valid
      then (if offset_overflows output.ambiguity_cycles carrier.adr_cycle_offset_cycles
          then err RuntimeError.offset_overflow
          else ok (without_observation (with_offset carrier.adr_cycle_offset_cycles output)))
      else ok (without_observation output)

  -- What an observation becomes: its cycles move by the offset where they stay valid.
  pub record IsApplied (carrier : CarrierTrackingRuntimeResult F)
      (before after : MeasurementObservation F) : Type 0 where
    pub in_range : IsInt64 after.ambiguity_cycles
    pub moved :
        (before.adr_valid && carrier.tracking.adr_valid) ≡ true
        → after.ambiguity_cycles ≡ before.ambiguity_cycles +ℤ carrier.adr_cycle_offset_cycles
    pub unmoved :
        (before.adr_valid && carrier.tracking.adr_valid) ≡ false
        → after.ambiguity_cycles ≡ before.ambiguity_cycles
    pub valid :
        after.adr_valid ≡ true
        → (before.adr_valid ≡ true)
          × (carrier.tracking.adr_valid ≡ true)
          × (before.observation_available ≡ true)

  with_errors_keeps :
      (carrier : CarrierTrackingRuntimeResult F) (o : MeasurementObservation F)
      → ((with_errors carrier o).ambiguity_cycles ≡ o.ambiguity_cycles)
        × ((with_errors carrier o).observation_available ≡ o.observation_available)
  unfolding with_errors
  with_errors_keeps carrier o =
      if-split {A = MeasurementObservation F}
        (λ r.
          (r.ambiguity_cycles ≡ o.ambiguity_cycles)
          × (r.observation_available ≡ o.observation_available))
        (eq_mode carrier.tracking.mode carrier_unlocked) (λ u. (refl, refl)) (λ u. (refl, refl))

  with_errors_valid :
      (carrier : CarrierTrackingRuntimeResult F) (o : MeasurementObservation F)
      → (with_errors carrier o).adr_valid ≡ (o.adr_valid && carrier.tracking.adr_valid)
  unfolding with_errors
  with_errors_valid carrier o = refl

  without_observation_lem :
      (o : MeasurementObservation F)
      → ((without_observation o).ambiguity_cycles ≡ o.ambiguity_cycles)
        × ((without_observation o).adr_valid ≡ true
            → (o.adr_valid ≡ true) × (o.observation_available ≡ true))
  unfolding without_observation
  without_observation_lem o =
      if-split {A = MeasurementObservation F}
        (λ r.
          (r.ambiguity_cycles ≡ o.ambiguity_cycles)
          × (r.adr_valid ≡ true → (o.adr_valid ≡ true) × (o.observation_available ≡ true)))
        (not o.observation_available) (λ u. (refl, λ h. ground arith))
        (λ u. (refl, λ h. (h, ground arith)))

  offset-IsApplied :
      (carrier : CarrierTrackingRuntimeResult F) (o : MeasurementObservation F)
      → IsInt64 o.ambiguity_cycles
      → IsInt64 carrier.adr_cycle_offset_cycles
      → (o.adr_valid && carrier.tracking.adr_valid) ≡ true
      → offset_overflows (with_errors carrier o).ambiguity_cycles carrier.adr_cycle_offset_cycles
        ≡ false
      → IsApplied carrier o (
          without_observation (with_offset carrier.adr_cycle_offset_cycles (with_errors carrier o)))
  unfolding with_offset
  offset-IsApplied carrier o h k v w =
      let (same, available) = with_errors_keeps carrier o in
      let offset = carrier.adr_cycle_offset_cycles in
      let (kept, valid) = without_observation_lem (with_offset offset (with_errors carrier o)) in
      let sum = kept ∙ ap (λ a. a +ℤ offset) same in
      record {
        in_range = subst IsInt64 (sym sum) (
            offset_overflows-IsInt64 o.ambiguity_cycles offset h k
              (subst (λ a. offset_overflows a offset ≡ false) same w));
        moved = λ u. sum;
        unmoved = λ u. absurd (ground arith);
        valid = λ u. (ground arith, ground arith, sym available ∙ (valid u).1);
      }

  plain-IsApplied :
      (carrier : CarrierTrackingRuntimeResult F) (o : MeasurementObservation F)
      → IsInt64 o.ambiguity_cycles
      → (o.adr_valid && carrier.tracking.adr_valid) ≡ false
      → IsApplied carrier o (without_observation (with_errors carrier o))
  plain-IsApplied carrier o h v =
      let (same, available) = with_errors_keeps carrier o in
      let (kept, valid) = without_observation_lem (with_errors carrier o) in
      record {
        in_range = subst IsInt64 (sym (kept ∙ same)) h;
        moved = λ u. absurd (ground arith);
        unmoved = λ u. kept ∙ same;
        valid = λ u. absurd (ground (arith, sym (valid u).0 ∙ with_errors_valid carrier o ∙ v));
      }

  -- Whenever a result is applied to an observation, where the ambiguity and the offset are numbers
  -- of 64 bits: the ambiguity stays a number of 64 bits; it moves by the offset if the cycles are
  -- valid in both and stays the same otherwise; and cycles that are valid afterwards were valid in
  -- both, in an observation that is available.
  pub apply_carrier_tracking_runtime_result-IsApplied :
      (carrier : CarrierTrackingRuntimeResult F) (observation after : MeasurementObservation F)
      → IsInt64 observation.ambiguity_cycles
      → IsInt64 carrier.adr_cycle_offset_cycles
      → apply_carrier_tracking_runtime_result carrier observation ≡ ok after
      → IsApplied carrier observation after
  unfolding apply_carrier_tracking_runtime_result
  apply_carrier_tracking_runtime_result-IsApplied carrier observation after h k =
      let P : Result RuntimeError (MeasurementObservation F) → Type 0 =
        λ r. r ≡ ok after → IsApplied carrier observation after in
      let output = with_errors carrier observation in
      if-split P (not_applicable carrier observation) (λ u e. absurd (err-ne-ok e))
        (λ u.
          if-split P output.adr_valid
            (λ v.
              if-split P (offset_overflows output.ambiguity_cycles carrier.adr_cycle_offset_cycles)
                (λ w e. absurd (err-ne-ok e))
                (λ w e. subst (IsApplied carrier observation) (ok-injective e) (
                  offset-IsApplied carrier observation h k
                    (sym (with_errors_valid carrier observation) ∙ v) w)))
            (λ v e. subst (IsApplied carrier observation) (ok-injective e) (
              plain-IsApplied carrier observation h
                (sym (with_errors_valid carrier observation) ∙ v))))

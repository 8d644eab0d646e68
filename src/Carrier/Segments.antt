-- ===== src/Carrier/Segments.antt =====
-- The segments of the phase in src/model/carrier_tracking_runtime.cpp: the offset of the carrier
-- cycles that a tracker reports belongs to its segment, whatever has been done to it.
use Prim.Native.Nat.{bit_xor}
use gnss_data_simulator.Prelude.{
  sym, subst, if◌then◌else◌, ◌+◌, ◌%◌, ◌^◌, ℕ, zero, suc, ◌≡◌, refl, inl, inr, Bool, false, ◌||◌,
  ◌&&◌, not, ◌==◌, if-split, Option-cases, Bool-cases, arith, ◌≤◌,
}
use gnss_data_simulator.Prelude.Int.{ℤ, pos, negsuc, ◌≤ℤ◌, ◌-ℤ◌, leb_ℤ, eq_ℤ}
use gnss_data_simulator.Prelude.Result.{Result, Result-cases, ok, err}
use gnss_data_simulator.Double.{Double, nought}
use gnss_data_simulator.Time.{SimTime, difference_time_ns}
use gnss_data_simulator.Signals.{SignalId}
use gnss_data_simulator.Config.{CarrierTrackingReceiverConfig}
use gnss_data_simulator.Carrier.{
  CarrierTrackingMode, pll_track, CarrierError, CarrierTrackingConfig, CarrierTrackingResult,
  validate_carrier_tracking_config,
}
use gnss_data_simulator.Carrier.Update.{eq_mode}
use gnss_data_simulator.Carrier.Runtime.{
  mix64, signal_key, ambiguity_salt, segment_cycle_offset, CarrierTrackingRuntimeState,
  CarrierTrackingRuntimeResult, RuntimeError, initialize_carrier_tracking_runtime_state,
  reset_carrier_tracking_runtime_state, slipped, runtime_step, runtime_loop, remaining_after,
  conclude_step, conclude_update, update_carrier_tracking_runtime, carrier_tracking_core_config,
  normalized_cn0, unlocked_result,
}

-- An offset of a segment: none in the first, and a small one, never 0, in the others.
pub record IsOffset (segment_id : ℕ) (offset : ℤ) : Type 0 where
  pub small : (negsuc 99_999 ≤ℤ offset) × (offset ≤ℤ pos 100_000)
  pub first : segment_id ≡ 0 → offset ≡ pos 0
  pub later : offset ≡ pos 0 → segment_id ≡ 0

offset_lem :
    (id m : ℕ)
    → m ≤ 200_000
    → 1 ≤ id
    → IsOffset id (if eq_ℤ (pos m -ℤ pos 100_000) (pos 0) then pos 1 else pos m -ℤ pos 100_000)
unfolding ◌-ℤ◌
offset_lem id m h k = record {
  small = ground arith;
  first = λ z. ground arith;
  later = λ z. ground arith;
}

segment_cycle_offset-IsOffset : (key id : ℕ) → IsOffset id (segment_cycle_offset key id)
unfolding segment_cycle_offset
segment_cycle_offset-IsOffset key id =
    if-split (IsOffset id) (id == 0)
      (λ u. record { small = ground arith; first = λ h. refl; later = λ h. ground arith })
      (λ u.
        offset_lem id (mix64 (bit_xor key (mix64 ((id + ambiguity_salt) % 2 ^ 64))) % 200_001)
          (ground arith) (ground arith))

-- The key of the offsets of a signal.
abbrev pub ambiguity_of : ℕ → ℤ → SignalId → ℕ
ambiguity_of simulator_seed satellite_number signal_id =
    mix64 (bit_xor (signal_key simulator_seed satellite_number signal_id) ambiguity_salt)

module _ {F : Type 0} ⦃d : Double F⦄ where
  -- The key is as given, and the offset is the one of the segment.
  pub record IsPhased (key : ℕ) (s : CarrierTrackingRuntimeState F) : Type 0 where
    pub key_kept : s.ambiguity_key ≡ key
    pub offset : s.adr_cycle_offset_cycles ≡ segment_cycle_offset key s.phase_segment_id

  slipped-IsPhased :
      (key : ℕ) (s : CarrierTrackingRuntimeState F) → IsPhased key s → IsPhased key (slipped s)
  unfolding slipped
  slipped-IsPhased key s p = ground arith

  reset-IsPhased :
      (key : ℕ) (s : CarrierTrackingRuntimeState F)
      → IsPhased key s
      → IsPhased key (reset_carrier_tracking_runtime_state s)
  unfolding reset_carrier_tracking_runtime_state segment_cycle_offset
  reset-IsPhased key s p =
      if-split {A = CarrierTrackingRuntimeState F} (IsPhased key) (not s.initialized) (λ u. p)
        (λ u. record { key_kept = p.key_kept; offset = refl })

  conclude_step-IsPhased :
      (key : ℕ) (previous_mode : CarrierTrackingMode) (s : CarrierTrackingRuntimeState F)
      (outcome : Result CarrierError (CarrierTrackingResult F))
      → IsPhased key s
      → IsPhased key (conclude_step previous_mode s outcome).0
  unfolding conclude_step
  conclude_step-IsPhased key previous_mode s (err e) p = p
  conclude_step-IsPhased key previous_mode s (ok result) p =
      if-split
        {A = CarrierTrackingRuntimeState F × Result RuntimeError (CarrierTrackingResult F × Bool)}
        (λ r. IsPhased key r.0)
        (eq_mode previous_mode pll_track && not (eq_mode result.mode pll_track))
        (λ u. slipped-IsPhased key s p) (λ u. p)

  conclude_update-IsPhased :
      (key : ℕ) (now : SimTime)
      (r : CarrierTrackingRuntimeState F × Result RuntimeError (CarrierTrackingResult F × Bool))
      → IsPhased key r.0
      → IsPhased key (conclude_update now r).0
  unfolding conclude_update
  conclude_update-IsPhased key now (s, err e) p = p
  conclude_update-IsPhased key now (s, ok (tracking, slip)) p = record {
    key_kept = p.key_kept;
    offset = p.offset;
  }

  module _ (config : CarrierTrackingConfig F) (cn0_dbhz wavelength_m : F) (key : ℕ) where
    runtime_step-IsPhased :
        (dt_sec : F) (s : CarrierTrackingRuntimeState F)
        → IsPhased key s
        → IsPhased key (runtime_step config cn0_dbhz wavelength_m dt_sec s).0
    unfolding runtime_step
    runtime_step-IsPhased dt_sec s p =
        conclude_step-IsPhased key s.tracking.mode _ _
          (record { key_kept = p.key_kept; offset = p.offset })

    runtime_loop-IsPhased :
        (fuel : ℕ) (remaining_sec : F) (s : CarrierTrackingRuntimeState F)
        (tracking : CarrierTrackingResult F) (slip : Bool)
        → IsPhased key s
        → IsPhased key
            (runtime_loop fuel config cn0_dbhz wavelength_m remaining_sec s tracking slip).0
    unfolding runtime_loop
    runtime_loop-IsPhased zero remaining_sec s tracking slip p = p
    runtime_loop-IsPhased (suc fuel) remaining_sec s tracking slip p =
        elim (Bool-cases (d.lt nought remaining_sec)) [
          | inr stop ↦ rw (stop, runtime_loop) p
          | inl go ↦
              let dt_sec =
                if d.lt config.coherent_integration_sec remaining_sec
                then config.coherent_integration_sec
                else remaining_sec in
              let next = runtime_step-IsPhased dt_sec s p in
              elim (Result-cases (runtime_step config cn0_dbhz wavelength_m dt_sec s).1) [
                | inl (e, f) ↦ rw (go, f, runtime_loop) next
                | inr ((tracking', slip'), f) ↦
                    rw (go, f, runtime_loop)
                      (runtime_loop-IsPhased fuel (remaining_after remaining_sec dt_sec) _ tracking'
                        (slip || slip') next)
              ]
        ]

  module _ (key fuel : ℕ) (config : CarrierTrackingReceiverConfig F) (now : SimTime)
      (code_tracking : Bool) (cn0_dbhz wavelength_m : F) where
    abbrev Phased :
        CarrierTrackingRuntimeState F × Result RuntimeError (CarrierTrackingRuntimeResult F)
        → Type 0
    Phased r = IsPhased key r.0

    update-IsPhased :
        (s : CarrierTrackingRuntimeState F)
        → IsPhased key s
        → Phased
            (update_carrier_tracking_runtime fuel config now code_tracking cn0_dbhz wavelength_m s)
    unfolding update_carrier_tracking_runtime
    update-IsPhased s p =
        if-split Phased (not s.initialized) (λ u. p)
          (λ u.
            elim (Result-cases
              (validate_carrier_tracking_config (carrier_tracking_core_config config))) [
                | inl (e, f) ↦ rw f p
                | inr (checked, f) ↦ rw f (
                    if-split Phased (not (d.is_finite wavelength_m) || d.le wavelength_m nought)
                      (λ v. p)
                      (λ v.
                        if-split Phased (not (d.is_finite (normalized_cn0 cn0_dbhz))) (λ v. p)
                          (λ v.
                            if-split Phased (not code_tracking) (λ v. reset-IsPhased key s p)
                              (λ v.
                                if-split Phased (not s.time_initialized)
                                  (λ v. record { key_kept = p.key_kept; offset = p.offset })
                                  (λ v.
                                    elim (Option-cases
                                      (difference_time_ns now s.last_update_time)) [
                                        | inl g ↦ rw g p
                                        | inr (elapsed_ns, g) ↦ rw g (
                                            if-split Phased (leb_ℤ elapsed_ns (pos 0)) (λ v. p)
                                              (λ v. conclude_update-IsPhased key now _ (
                                                runtime_loop-IsPhased
                                                  (carrier_tracking_core_config config)
                                                  (normalized_cn0 cn0_dbhz) wavelength_m key fuel _
                                                  s (unlocked_result s) false p)))
                                      ])))))
              ])

  -- The states of one signal that can be: the initial one, and what a reset or an update makes of
  -- one, whatever the update is given and whether it fails or not.
  pub data Reaches (simulator_seed : ℕ) (satellite_number : ℤ) (signal_id : SignalId)
      : CarrierTrackingRuntimeState F → Type 0 where
    initial :
        Reaches simulator_seed satellite_number signal_id
          (initialize_carrier_tracking_runtime_state simulator_seed satellite_number signal_id)
    reset :
        {s : CarrierTrackingRuntimeState F}
        → Reaches simulator_seed satellite_number signal_id s
        → Reaches simulator_seed satellite_number signal_id (reset_carrier_tracking_runtime_state s)
    update :
        (fuel : ℕ) (config : CarrierTrackingReceiverConfig F) (now : SimTime) (code_tracking : Bool)
        (cn0_dbhz wavelength_m : F) {s : CarrierTrackingRuntimeState F}
        → Reaches simulator_seed satellite_number signal_id s
        → Reaches simulator_seed satellite_number signal_id
            (update_carrier_tracking_runtime fuel config now code_tracking cn0_dbhz wavelength_m
              s).0

  Reaches-IsPhased :
      (simulator_seed : ℕ) (satellite_number : ℤ) (signal_id : SignalId)
      {s : CarrierTrackingRuntimeState F}
      → Reaches simulator_seed satellite_number signal_id s
      → IsPhased (ambiguity_of simulator_seed satellite_number signal_id) s
  unfolding initialize_carrier_tracking_runtime_state segment_cycle_offset
  Reaches-IsPhased seed satellite id initial = record { key_kept = refl; offset = refl }
  Reaches-IsPhased seed satellite id (reset r) =
      reset-IsPhased _ _ (Reaches-IsPhased seed satellite id r)
  Reaches-IsPhased seed satellite id (update fuel config now code_tracking cn0 wavelength r) =
      update-IsPhased _ fuel config now code_tracking cn0 wavelength _
        (Reaches-IsPhased seed satellite id r)

  -- After any sequence of resets and updates of a signal, failed updates included and whatever the
  -- fuel: the offset of the carrier cycles is the one that the seed, the satellite, the signal and
  -- the segment of the phase determine; it is between -100000 and 100000, and 0 in the segment 0 only.
  pub Reaches-IsSegmented :
      (simulator_seed : ℕ) (satellite_number : ℤ) (signal_id : SignalId)
      (s : CarrierTrackingRuntimeState F)
      → Reaches simulator_seed satellite_number signal_id s
      → (s.adr_cycle_offset_cycles
          ≡ segment_cycle_offset
              (ambiguity_of simulator_seed satellite_number signal_id)
              s.phase_segment_id)
        × IsOffset s.phase_segment_id s.adr_cycle_offset_cycles
  Reaches-IsSegmented seed satellite id s r =
      let p = Reaches-IsPhased seed satellite id r in
      (
        p.offset,
        subst (IsOffset s.phase_segment_id) (sym p.offset)
            (segment_cycle_offset-IsOffset (ambiguity_of seed satellite id) s.phase_segment_id),
      )

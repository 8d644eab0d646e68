-- ===== src/Signals/Lookup.antt =====
-- The signal table is consistent: each of its rows is found by its identifier, by its RINEX code and
-- by its OEM7 signal type.
use gnss_data_simulator.Prelude.{◌≡◌, refl, ◌↔◌, ◌≢◌, none, some, All, arith}
use gnss_data_simulator.Prelude.Int.{ℤ, pos, negsuc, ◌≤ℤ◌}
use gnss_data_simulator.Double.{Double}
use gnss_data_simulator.Signals.{
  SignalId, SignalDefinition, CarrierFrequencyModel, signal_definitions, find_signal_definition,
  find_signal_definition_by_rinex, find_signal_definition_by_oem7, signal_carrier_frequency_hz,
  carrier_frequency_of, is_valid_glonass_fcn,
}

module _ {F : Type 0} ⦃d : Double F⦄ where
  -- Every signal has a definition, and it is the signal's own.
  pub find_signal_definition_total :
      (id : SignalId)
      → (s : SignalDefinition F) × (find_signal_definition id ≡ some s) × (s.signal_id ≡ id)
  unfolding find_signal_definition
  find_signal_definition_total SignalId.gps_l1_ca = (_, refl, refl)
  find_signal_definition_total _ = (_, refl, refl)

  none_cases :
      (m : CarrierFrequencyModel) (s : SignalDefinition F) (fcn : ℤ)
      → carrier_frequency_of m s fcn ≡ none
      → (m ≢ CarrierFrequencyModel.fixed) × ¬ ((negsuc 6 ≤ℤ fcn) × (fcn ≤ℤ pos 6))
  unfolding carrier_frequency_of is_valid_glonass_fcn
  none_cases CarrierFrequencyModel.fixed s fcn e = ground arith
  none_cases CarrierFrequencyModel.glonass_fdma_g1 s fcn e = ground arith
  none_cases CarrierFrequencyModel.glonass_fdma_g2 s fcn e = ground arith

  none_of :
      (m : CarrierFrequencyModel) (s : SignalDefinition F) (fcn : ℤ)
      → m ≢ CarrierFrequencyModel.fixed
      → ¬ ((negsuc 6 ≤ℤ fcn) × (fcn ≤ℤ pos 6))
      → carrier_frequency_of m s fcn ≡ none
  unfolding carrier_frequency_of is_valid_glonass_fcn
  none_of CarrierFrequencyModel.fixed s fcn n h = absurd (n refl)
  none_of CarrierFrequencyModel.glonass_fdma_g1 s fcn n h = ground arith
  none_of CarrierFrequencyModel.glonass_fdma_g2 s fcn n h = ground arith

  abbrev pub IsFound : SignalDefinition F → Type 0
  IsFound s =
      (find_signal_definition s.signal_id ≡ some s)
      × (find_signal_definition_by_rinex s.constellation s.rinex_signal_code ≡ some s)
      × (find_signal_definition_by_oem7 s.constellation s.novatel_oem7_signal_type ≡ some s)

  -- The carrier frequency is undefined exactly for an FDMA signal whose channel is not in -7 .. 6.
  pub carrier_frequency-none_iff :
      (s : SignalDefinition F) (fcn : ℤ)
      → (signal_carrier_frequency_hz s fcn ≡ none)
        ↔ ((s.carrier_model ≢ CarrierFrequencyModel.fixed) × ¬ ((negsuc 6 ≤ℤ fcn) × (fcn ≤ℤ pos 6)))
  unfolding signal_carrier_frequency_hz
  carrier_frequency-none_iff s fcn =
      (none_cases s.carrier_model s fcn, λ (n, h). none_of s.carrier_model s fcn n h)

-- Each row of the table is what its identifier, its constellation with its RINEX code, and its
-- constellation with its OEM7 signal type find.
pub signal_definitions-IsFound :
    (F : Type 0) ⦃d : Double F⦄ → All IsFound (signal_definitions {F = F})
unfolding signal_definitions find_signal_definition find_signal_definition_by_rinex
    find_signal_definition_by_oem7
signal_definitions-IsFound F = (
  (refl, refl, refl),
  (
    (refl, refl, refl),
    (
      (refl, refl, refl),
      (
        (refl, refl, refl),
        (
          (refl, refl, refl),
          (
            (refl, refl, refl),
            (
              (refl, refl, refl),
              (
                (refl, refl, refl),
                (
                  (refl, refl, refl),
                  (
                    (refl, refl, refl),
                    (
                      (refl, refl, refl),
                      (
                        (refl, refl, refl),
                        (
                          (refl, refl, refl),
                          (
                            (refl, refl, refl),
                            (
                              (refl, refl, refl),
                              (
                                (refl, refl, refl),
                                (
                                  (refl, refl, refl),
                                  (
                                    (refl, refl, refl),
                                    (
                                      (refl, refl, refl),
                                      ((refl, refl, refl), ((refl, refl, refl), tt)),
                                    ),
                                  ),
                                ),
                              ),
                            ),
                          ),
                        ),
                      ),
                    ),
                  ),
                ),
              ),
            ),
          ),
        ),
      ),
    ),
  ),
)

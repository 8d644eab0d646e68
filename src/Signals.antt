-- ===== src/Signals.antt =====
-- src/gnss/signal_definitions.cpp: look-ups, checks and derived quantities of the signal table. A
-- pointer that is null on failure, and an output that is filled on success, is an `Option`; the
-- error messages of `validate_code_correlation_profile` are the constructors of `ProfileError`.
mod Types
mod Table
pub mod Lookup
pub use Types.*
unfoldable pub use Table.*
use text.Mathlib.Text.{◌==◌ as str_eq}
use gnss_data_simulator.Prelude.{
  Bool, true, false, not, ◌&&◌, ◌||◌, ◌==◌, Option, none, some, List, [], ◌∷◌, if◌then◌else◌,
}
use gnss_data_simulator.Prelude.Int.{ℤ, pos, negsuc, leb_ℤ, eq_ℤ}
use gnss_data_simulator.Double.{Double, nought, eq, finite_nonnegative}
use Prim.Native.String.{String}

abbrev eq_phase : CompositeSubcarrierPhase → CompositeSubcarrierPhase → Bool
eq_phase a b = phase_value a == phase_value b

pub data ProfileError : Type 0 where
  non_finite_or_negative guessed_parameters bpsk_inconsistent : ProfileError
  tmboc_inconsistent cboc_inconsistent qmboc_inconsistent : ProfileError

-- `none` is success.
abbrev fails_if : Bool → ProfileError → Option ProfileError
fails_if true e = some e
fails_if false e = none

unfoldable pub is_valid_glonass_fcn : ℤ → Bool
is_valid_glonass_fcn glonass_fcn = leb_ℤ (negsuc 6) glonass_fcn && leb_ℤ glonass_fcn (pos 6)

module _ {F : Type 0} ⦃d : Double F⦄ where
  open d use {decimal, add, mul, div, lt, le, is_finite}

  -- The loop over the table.
  unfoldable pub find_first :
      (SignalDefinition F → Bool) → List (SignalDefinition F) → Option (SignalDefinition F)
  find_first test [] = none
  find_first test (definition ∷ rest) =
      if test definition then some definition else find_first test rest

  unfoldable pub find_signal_definition : SignalId → Option (SignalDefinition F)
  unfolding find_first signal_definitions
  find_signal_definition id =
      find_first (λ definition. eq_signal_id definition.signal_id id) signal_definitions

  unfoldable pub find_signal_definition_by_rinex :
      GnssConstellation → String → Option (SignalDefinition F)
  unfolding find_first signal_definitions
  find_signal_definition_by_rinex constellation code =
      find_first
        (λ definition.
          eq_constellation definition.constellation constellation
          && str_eq definition.rinex_signal_code code)
        signal_definitions

  -- The signal types 4 and 6 of BeiDou are B1I and B3I in D2 mode.
  unfoldable pub find_signal_definition_by_oem7 :
      GnssConstellation → ℤ → Option (SignalDefinition F)
  unfolding find_first signal_definitions find_signal_definition
  find_signal_definition_by_oem7 constellation signal_type =
      let beidou = eq_constellation constellation GnssConstellation.beidou in
      if beidou && eq_ℤ signal_type (pos 4)
      then find_signal_definition SignalId.beidou_b1i
      else if beidou && eq_ℤ signal_type (pos 6)
      then find_signal_definition SignalId.beidou_b3i
      else find_first
          (λ definition.
            eq_constellation definition.constellation constellation
            && eq_ℤ definition.novatel_oem7_signal_type signal_type)
          signal_definitions

  unfoldable pub composite_rates_valid : CodeCorrelationProfile F → Bool
  composite_rates_valid profile =
      is_finite profile.chip_rate_hz
      && lt nought profile.chip_rate_hz
      && is_finite profile.primary_subcarrier_rate_hz
      && lt nought profile.primary_subcarrier_rate_hz
      && is_finite profile.secondary_subcarrier_rate_hz
      && lt profile.primary_subcarrier_rate_hz profile.secondary_subcarrier_rate_hz
      && is_finite profile.secondary_power_fraction
      && lt nought profile.secondary_power_fraction
      && lt profile.secondary_power_fraction (decimal (pos 1) 0)

  -- The switch of `validate_code_correlation_profile`.
  unfoldable pub validate_model :
      CodeCorrelationModel → CodeCorrelationProfile F → Option ProfileError
  validate_model CodeCorrelationModel.unsupported profile =
      fails_if
        (not (eq profile.chip_rate_hz nought)
          || not (eq profile.primary_subcarrier_rate_hz nought)
          || not (eq profile.secondary_subcarrier_rate_hz nought)
          || not (eq profile.secondary_power_fraction nought)
          || not (eq_phase profile.secondary_phase CompositeSubcarrierPhase.not_applicable))
        ProfileError.guessed_parameters
  validate_model CodeCorrelationModel.bpsk profile =
      fails_if
        (le profile.chip_rate_hz nought
          || not (eq profile.primary_subcarrier_rate_hz nought)
          || not (eq profile.secondary_subcarrier_rate_hz nought)
          || not (eq profile.secondary_power_fraction nought)
          || not (eq_phase profile.secondary_phase CompositeSubcarrierPhase.not_applicable))
        ProfileError.bpsk_inconsistent
  validate_model CodeCorrelationModel.tmboc profile =
      fails_if
        (not (composite_rates_valid profile)
          || not (eq_phase profile.secondary_phase CompositeSubcarrierPhase.not_applicable))
        ProfileError.tmboc_inconsistent
  validate_model CodeCorrelationModel.cboc profile =
      fails_if
        (not (composite_rates_valid profile)
          || not (eq_phase profile.secondary_phase CompositeSubcarrierPhase.in_phase)
            && not (eq_phase profile.secondary_phase CompositeSubcarrierPhase.anti_phase))
        ProfileError.cboc_inconsistent
  validate_model CodeCorrelationModel.qmboc profile =
      fails_if
        (not (composite_rates_valid profile)
          || not (eq_phase profile.secondary_phase CompositeSubcarrierPhase.positive_quadrature)
            && not (eq_phase profile.secondary_phase CompositeSubcarrierPhase.negative_quadrature))
        ProfileError.qmboc_inconsistent

  unfoldable pub validate_code_correlation_profile : CodeCorrelationProfile F → Option ProfileError
  unfolding finite_nonnegative
  validate_code_correlation_profile profile =
      if not (finite_nonnegative profile.chip_rate_hz)
        || not (finite_nonnegative profile.primary_subcarrier_rate_hz)
        || not (finite_nonnegative profile.secondary_subcarrier_rate_hz)
        || not (finite_nonnegative profile.secondary_power_fraction)
      then some ProfileError.non_finite_or_negative
      else validate_model profile.model profile

  unfoldable pub signal_has_supported_code_correlation : SignalDefinition F → Bool
  signal_has_supported_code_correlation definition = elim definition.code_correlation.model [
    | CodeCorrelationModel.unsupported ↦ false
    | _ ↦ elim (validate_code_correlation_profile definition.code_correlation) [
      | none ↦ true
      | some e ↦ false
    ]
  ]

  abbrev fdma : F → F → ℤ → Option F
  fdma base step fcn =
      if is_valid_glonass_fcn fcn then some (add base (mul (decimal fcn 0) step)) else none

  unfoldable pub carrier_frequency_of : CarrierFrequencyModel → SignalDefinition F → ℤ → Option F
  carrier_frequency_of CarrierFrequencyModel.fixed definition fcn =
      some definition.nominal_frequency_hz
  carrier_frequency_of CarrierFrequencyModel.glonass_fdma_g1 definition fcn =
      fdma (decimal (pos 1_602_000_000) 0) (decimal (pos 562_500) 0) fcn
  carrier_frequency_of CarrierFrequencyModel.glonass_fdma_g2 definition fcn =
      fdma (decimal (pos 1_246_000_000) 0) (decimal (pos 437_500) 0) fcn

  unfoldable pub signal_carrier_frequency_hz : SignalDefinition F → ℤ → Option F
  unfolding carrier_frequency_of
  signal_carrier_frequency_hz definition fcn =
      carrier_frequency_of definition.carrier_model definition fcn

  unfoldable pub signal_wavelength_m : SignalDefinition F → ℤ → Option F
  signal_wavelength_m definition fcn = elim (signal_carrier_frequency_hz definition fcn) [
    | none ↦ none
    | some frequency ↦
        if not (is_finite frequency) || le frequency nought
        then none
        else some (div (decimal (pos 299_792_458) 0) frequency)
  ]

-- Lower is preferred; negative is never the primary observation.
unfoldable pub signal_single_point_priority : SignalId → ℤ
signal_single_point_priority SignalId.gps_l1_ca = pos 0
signal_single_point_priority SignalId.qzss_l1_ca = pos 0
signal_single_point_priority SignalId.glonass_g1 = pos 0
signal_single_point_priority SignalId.galileo_e1 = pos 0
signal_single_point_priority SignalId.beidou_b1i = pos 0
signal_single_point_priority SignalId.gps_l1c = pos 1
signal_single_point_priority SignalId.qzss_l1c = pos 1
signal_single_point_priority _ = negsuc 0

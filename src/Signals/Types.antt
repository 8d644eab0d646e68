-- ===== src/Signals/Types.antt =====
-- src/gnss/signal_definitions.h: the enumerations and records of the signal table.
use gnss_data_simulator.Prelude.{ℕ, Bool, ◌==◌}
use gnss_data_simulator.Prelude.Int.{ℤ}
use Prim.Native.String.{String}

pub data GnssConstellation : Type 0 where
  gps glonass galileo beidou qzss : GnssConstellation

pub data SignalId : Type 0 where
  gps_l1_ca gps_l1c gps_l2p gps_l2c gps_l5q qzss_l1_ca qzss_l1c qzss_l2c qzss_l5q : SignalId
  glonass_g1 glonass_g2 glonass_g3 galileo_e1 galileo_e5a galileo_e5b galileo_e6 : SignalId
  beidou_b1i beidou_b3i beidou_b1c beidou_b2a beidou_b2b : SignalId

pub data CarrierFrequencyModel : Type 0 where
  fixed glonass_fdma_g1 glonass_fdma_g2 : CarrierFrequencyModel

pub data NavMessageFamily : Type 0 where
  gps_lnav gps_cnav gps_cnav2 qzss_lnav qzss_cnav qzss_cnav2 glonass_fdma : NavMessageFamily
  glonass_l3_oc galileo_inav galileo_fnav galileo_cnav beidou_d1d2 : NavMessageFamily
  beidou_bcnav1 beidou_bcnav2 beidou_bcnav3 : NavMessageFamily

pub data CodeBiasModel : Type 0 where
  gps_l1_ca gps_l1c gps_l2p gps_l2c gps_l5q qzss_l1_ca qzss_l1c qzss_l2c : CodeBiasModel
  qzss_l5q glonass_g1 glonass_g2 glonass_g3 galileo_e1 galileo_e5a galileo_e5b : CodeBiasModel
  galileo_e6 beidou_b1i beidou_b3i beidou_b1c beidou_b2a beidou_b2b : CodeBiasModel

pub data CodeCorrelationModel : Type 0 where
  unsupported bpsk tmboc cboc qmboc : CodeCorrelationModel

pub data CompositeSubcarrierPhase : Type 0 where
  not_applicable in_phase anti_phase positive_quadrature : CompositeSubcarrierPhase
  negative_quadrature : CompositeSubcarrierPhase

-- The underlying value of the enumeration, by which it is compared.
abbrev pub signal_id_value : SignalId → ℕ
signal_id_value SignalId.gps_l1_ca = 0
signal_id_value SignalId.gps_l1c = 1
signal_id_value SignalId.gps_l2p = 2
signal_id_value SignalId.gps_l2c = 3
signal_id_value SignalId.gps_l5q = 4
signal_id_value SignalId.qzss_l1_ca = 5
signal_id_value SignalId.qzss_l1c = 6
signal_id_value SignalId.qzss_l2c = 7
signal_id_value SignalId.qzss_l5q = 8
signal_id_value SignalId.glonass_g1 = 9
signal_id_value SignalId.glonass_g2 = 10
signal_id_value SignalId.glonass_g3 = 11
signal_id_value SignalId.galileo_e1 = 12
signal_id_value SignalId.galileo_e5a = 13
signal_id_value SignalId.galileo_e5b = 14
signal_id_value SignalId.galileo_e6 = 15
signal_id_value SignalId.beidou_b1i = 16
signal_id_value SignalId.beidou_b3i = 17
signal_id_value SignalId.beidou_b1c = 18
signal_id_value SignalId.beidou_b2a = 19
signal_id_value SignalId.beidou_b2b = 20

-- The underlying value of the enumeration, by which it is compared.
abbrev pub constellation_value : GnssConstellation → ℕ
constellation_value gps = 0
constellation_value glonass = 1
constellation_value galileo = 2
constellation_value beidou = 3
constellation_value qzss = 4

-- The underlying value of the enumeration, by which it is compared.
abbrev pub phase_value : CompositeSubcarrierPhase → ℕ
phase_value not_applicable = 0
phase_value in_phase = 1
phase_value anti_phase = 2
phase_value positive_quadrature = 3
phase_value negative_quadrature = 4

abbrev pub eq_signal_id : SignalId → SignalId → Bool
eq_signal_id a b = signal_id_value a == signal_id_value b

abbrev pub eq_constellation : GnssConstellation → GnssConstellation → Bool
eq_constellation a b = constellation_value a == constellation_value b

-- `F` stands for `double`.
pub record CodeCorrelationProfile (F : Type 0) : Type 0 where
  pub model : CodeCorrelationModel
  pub chip_rate_hz : F
  pub primary_subcarrier_rate_hz : F
  pub secondary_subcarrier_rate_hz : F
  pub secondary_power_fraction : F
  pub secondary_phase : CompositeSubcarrierPhase

pub record SignalDefinition (F : Type 0) : Type 0 where
  pub constellation : GnssConstellation
  pub signal_id : SignalId
  pub name : String
  pub rinex_signal_code : String
  pub carrier_model : CarrierFrequencyModel
  pub nominal_frequency_hz : F
  pub nav_message_family : NavMessageFamily
  pub code_bias_model : CodeBiasModel
  pub novatel_oem7_signal_type : ℤ
  pub code_correlation : CodeCorrelationProfile F

-- ===== src/Signals/Table.antt =====
-- The table of src/gnss/signal_definitions.cpp.
use gnss_data_simulator.Prelude.{List, [], ◌∷◌}
use gnss_data_simulator.Prelude.Int.{ℤ, pos}
use gnss_data_simulator.Double.{Double, nought}
use gnss_data_simulator.Signals.Types.{
  GnssConstellation, SignalId, CarrierFrequencyModel, NavMessageFamily, CodeBiasModel,
  CodeCorrelationModel, CompositeSubcarrierPhase, CodeCorrelationProfile, SignalDefinition,
}
use Prim.Native.String.{String}

module _ {F : Type 0} ⦃d : Double F⦄ where
  open d use {decimal, div}

  abbrev profile :
      CodeCorrelationModel → F → F → F → F → CompositeSubcarrierPhase → CodeCorrelationProfile F
  profile model chip primary secondary fraction phase = record {
    model = model;
    chip_rate_hz = chip;
    primary_subcarrier_rate_hz = primary;
    secondary_subcarrier_rate_hz = secondary;
    secondary_power_fraction = fraction;
    secondary_phase = phase;
  }

  unfoldable pub unsupported_correlation : CodeCorrelationProfile F
  unsupported_correlation =
      profile CodeCorrelationModel.unsupported nought nought nought nought
        CompositeSubcarrierPhase.not_applicable

  unfoldable pub bpsk_correlation : F → CodeCorrelationProfile F
  bpsk_correlation chip_rate_hz =
      profile CodeCorrelationModel.bpsk chip_rate_hz nought nought nought
        CompositeSubcarrierPhase.not_applicable

  unfoldable pub tmboc_correlation : F → F → F → F → CodeCorrelationProfile F
  tmboc_correlation chip primary secondary fraction =
      profile CodeCorrelationModel.tmboc chip primary secondary fraction
        CompositeSubcarrierPhase.not_applicable

  unfoldable pub cboc_correlation :
      F → F → F → F → CompositeSubcarrierPhase → CodeCorrelationProfile F
  cboc_correlation = profile CodeCorrelationModel.cboc

  unfoldable pub qmboc_correlation :
      F → F → F → F → CompositeSubcarrierPhase → CodeCorrelationProfile F
  qmboc_correlation = profile CodeCorrelationModel.qmboc

  -- One row of the table.
  abbrev row :
      GnssConstellation
      → SignalId
      → String
      → String
      → CarrierFrequencyModel
      → F
      → NavMessageFamily
      → CodeBiasModel
      → ℤ
      → CodeCorrelationProfile F
      → SignalDefinition F
  row constellation id name code carrier frequency family bias oem7 correlation = record {
    constellation = constellation;
    signal_id = id;
    name = name;
    rinex_signal_code = code;
    carrier_model = carrier;
    nominal_frequency_hz = frequency;
    nav_message_family = family;
    code_bias_model = bias;
    novatel_oem7_signal_type = oem7;
    code_correlation = correlation;
  }

  unfoldable pub signal_definitions : List (SignalDefinition F)
  unfolding unsupported_correlation bpsk_correlation tmboc_correlation cboc_correlation
      qmboc_correlation
  signal_definitions =
      row GnssConstellation.gps SignalId.gps_l1_ca "GPS L1 C/A" "1C" CarrierFrequencyModel.fixed
        (decimal (pos 1575420000) 0) NavMessageFamily.gps_lnav CodeBiasModel.gps_l1_ca (pos 0)
        (bpsk_correlation (decimal (pos 1023000) 0))
      ∷ row GnssConstellation.gps SignalId.gps_l1c "GPS L1C" "1L" CarrierFrequencyModel.fixed
          (decimal (pos 1575420000) 0) NavMessageFamily.gps_cnav2 CodeBiasModel.gps_l1c (pos 16)
          (tmboc_correlation (decimal (pos 1023000) 0) (decimal (pos 1023000) 0)
            (decimal (pos 6138000) 0) (div (decimal (pos 4) 0) (decimal (pos 33) 0)))
      ∷ row GnssConstellation.gps SignalId.gps_l2p "GPS L2P" "2P" CarrierFrequencyModel.fixed
          (decimal (pos 1227600000) 0) NavMessageFamily.gps_lnav CodeBiasModel.gps_l2p (pos 5)
          (bpsk_correlation (decimal (pos 10230000) 0))
      ∷ row GnssConstellation.gps SignalId.gps_l2c "GPS L2C" "2S" CarrierFrequencyModel.fixed
          (decimal (pos 1227600000) 0) NavMessageFamily.gps_cnav CodeBiasModel.gps_l2c (pos 17)
          unsupported_correlation
      ∷ row GnssConstellation.gps SignalId.gps_l5q "GPS L5Q" "5Q" CarrierFrequencyModel.fixed
          (decimal (pos 1176450000) 0) NavMessageFamily.gps_cnav CodeBiasModel.gps_l5q (pos 14)
          (bpsk_correlation (decimal (pos 10230000) 0))
      ∷ row GnssConstellation.qzss SignalId.qzss_l1_ca "QZSS L1 C/A" "1C"
          CarrierFrequencyModel.fixed (decimal (pos 1575420000) 0) NavMessageFamily.qzss_lnav
          CodeBiasModel.qzss_l1_ca (pos 0) (bpsk_correlation (decimal (pos 1023000) 0))
      ∷ row GnssConstellation.qzss SignalId.qzss_l1c "QZSS L1C" "1L" CarrierFrequencyModel.fixed
          (decimal (pos 1575420000) 0) NavMessageFamily.qzss_cnav2 CodeBiasModel.qzss_l1c (pos 16)
          unsupported_correlation
      ∷ row GnssConstellation.qzss SignalId.qzss_l2c "QZSS L2C" "2S" CarrierFrequencyModel.fixed
          (decimal (pos 1227600000) 0) NavMessageFamily.qzss_cnav CodeBiasModel.qzss_l2c (pos 17)
          unsupported_correlation
      ∷ row GnssConstellation.qzss SignalId.qzss_l5q "QZSS L5Q" "5Q" CarrierFrequencyModel.fixed
          (decimal (pos 1176450000) 0) NavMessageFamily.qzss_cnav CodeBiasModel.qzss_l5q (pos 14)
          (bpsk_correlation (decimal (pos 10230000) 0))
      ∷ row GnssConstellation.glonass SignalId.glonass_g1 "GLONASS G1" "1C"
          CarrierFrequencyModel.glonass_fdma_g1 (decimal (pos 1602000000) 0)
          NavMessageFamily.glonass_fdma CodeBiasModel.glonass_g1 (pos 0)
          (bpsk_correlation (decimal (pos 511000) 0))
      ∷ row GnssConstellation.glonass SignalId.glonass_g2 "GLONASS G2" "2C"
          CarrierFrequencyModel.glonass_fdma_g2 (decimal (pos 1246000000) 0)
          NavMessageFamily.glonass_fdma CodeBiasModel.glonass_g2 (pos 1)
          (bpsk_correlation (decimal (pos 511000) 0))
      ∷ row GnssConstellation.glonass SignalId.glonass_g3 "GLONASS G3" "3Q"
          CarrierFrequencyModel.fixed (decimal (pos 1202025000) 0) NavMessageFamily.glonass_l3_oc
          CodeBiasModel.glonass_g3 (pos 6) (bpsk_correlation (decimal (pos 10230000) 0))
      ∷ row GnssConstellation.galileo SignalId.galileo_e1 "Galileo E1" "1C"
          CarrierFrequencyModel.fixed (decimal (pos 1575420000) 0) NavMessageFamily.galileo_inav
          CodeBiasModel.galileo_e1 (pos 2)
          (cboc_correlation (decimal (pos 1023000) 0) (decimal (pos 1023000) 0)
            (decimal (pos 6138000) 0) (div (decimal (pos 1) 0) (decimal (pos 11) 0))
            CompositeSubcarrierPhase.anti_phase)
      ∷ row GnssConstellation.galileo SignalId.galileo_e5a "Galileo E5a" "5Q"
          CarrierFrequencyModel.fixed (decimal (pos 1176450000) 0) NavMessageFamily.galileo_fnav
          CodeBiasModel.galileo_e5a (pos 12) (bpsk_correlation (decimal (pos 10230000) 0))
      ∷ row GnssConstellation.galileo SignalId.galileo_e5b "Galileo E5b" "7Q"
          CarrierFrequencyModel.fixed (decimal (pos 1207140000) 0) NavMessageFamily.galileo_inav
          CodeBiasModel.galileo_e5b (pos 17) (bpsk_correlation (decimal (pos 10230000) 0))
      ∷ row GnssConstellation.galileo SignalId.galileo_e6 "Galileo E6" "6C"
          CarrierFrequencyModel.fixed (decimal (pos 1278750000) 0) NavMessageFamily.galileo_cnav
          CodeBiasModel.galileo_e6 (pos 7) (bpsk_correlation (decimal (pos 5115000) 0))
      ∷ row GnssConstellation.beidou SignalId.beidou_b1i "BeiDou B1I" "2I"
          CarrierFrequencyModel.fixed (decimal (pos 1561098000) 0) NavMessageFamily.beidou_d1d2
          CodeBiasModel.beidou_b1i (pos 0) (bpsk_correlation (decimal (pos 2046000) 0))
      ∷ row GnssConstellation.beidou SignalId.beidou_b3i "BeiDou B3I" "6I"
          CarrierFrequencyModel.fixed (decimal (pos 1268520000) 0) NavMessageFamily.beidou_d1d2
          CodeBiasModel.beidou_b3i (pos 2) (bpsk_correlation (decimal (pos 10230000) 0))
      ∷ row GnssConstellation.beidou SignalId.beidou_b1c "BeiDou B1C" "1P"
          CarrierFrequencyModel.fixed (decimal (pos 1575420000) 0) NavMessageFamily.beidou_bcnav1
          CodeBiasModel.beidou_b1c (pos 7)
          (qmboc_correlation (decimal (pos 1023000) 0) (decimal (pos 1023000) 0)
            (decimal (pos 6138000) 0) (div (decimal (pos 4) 0) (decimal (pos 33) 0))
            CompositeSubcarrierPhase.negative_quadrature)
      ∷ row GnssConstellation.beidou SignalId.beidou_b2a "BeiDou B2a" "5P"
          CarrierFrequencyModel.fixed (decimal (pos 1176450000) 0) NavMessageFamily.beidou_bcnav2
          CodeBiasModel.beidou_b2a (pos 9) (bpsk_correlation (decimal (pos 10230000) 0))
      ∷ row GnssConstellation.beidou SignalId.beidou_b2b "BeiDou B2b" "7D"
          CarrierFrequencyModel.fixed (decimal (pos 1207140000) 0) NavMessageFamily.beidou_bcnav3
          CodeBiasModel.beidou_b2b (pos 11) (bpsk_correlation (decimal (pos 10230000) 0))
      ∷ []

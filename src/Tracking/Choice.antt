-- ===== src/Tracking/Choice.antt =====
-- src/model/signal_tracking.cpp: the distribution from which the delay of an acquisition is drawn.
use gnss_data_simulator.Prelude.{◌≡◌, true, false, if-split}
use gnss_data_simulator.Prelude.Int.{pos}
use gnss_data_simulator.Double.{Double}
use gnss_data_simulator.Tracking.{DelayDistribution}
use gnss_data_simulator.Tracking.Tracker.{AcquisitionContext, Bands, SignalTrackingModelConfig}
use gnss_data_simulator.Tracking.Schedule.{acquisition_distribution_for, cn0_band}

module _ {F : Type 0} ⦃d : Double F⦄ where
  open d use {decimal, le}

  -- A reacquisition has distributions of its own.
  pub data IsTable (config : SignalTrackingModelConfig F)
      : AcquisitionContext → Bands → Type 0 where
    after_hot_start : IsTable config AcquisitionContext.hot config.hot_signal_acquisition
    after_warm_start : IsTable config AcquisitionContext.warm config.hot_signal_acquisition
    after_cold_start : IsTable config AcquisitionContext.cold config.hot_signal_acquisition
    after_loss : IsTable config AcquisitionContext.reacquisition config.reacquisition

  -- The band of a CN0 in dBHz.
  pub data IsBand (bands : Bands) (cn0_dbhz : F) : DelayDistribution → Type 0 where
    from_40 : le (decimal (pos 40) 0) cn0_dbhz ≡ true → IsBand bands cn0_dbhz bands.strong
    from_35 :
        le (decimal (pos 40) 0) cn0_dbhz ≡ false
        → le (decimal (pos 35) 0) cn0_dbhz ≡ true
        → IsBand bands cn0_dbhz bands.medium
    from_30 :
        le (decimal (pos 40) 0) cn0_dbhz ≡ false
        → le (decimal (pos 35) 0) cn0_dbhz ≡ false
        → le (decimal (pos 30) 0) cn0_dbhz ≡ true
        → IsBand bands cn0_dbhz bands.weak
    below_30 :
        le (decimal (pos 40) 0) cn0_dbhz ≡ false
        → le (decimal (pos 35) 0) cn0_dbhz ≡ false
        → le (decimal (pos 30) 0) cn0_dbhz ≡ false
        → IsBand bands cn0_dbhz bands.weakest

  -- The distribution for a context and a CN0.
  pub record IsChosen (config : SignalTrackingModelConfig F) (context : AcquisitionContext)
      (cn0_dbhz : F) (distribution : DelayDistribution) : Type 0 where
    pub bands : Bands
    pub table : IsTable config context bands
    pub band : IsBand bands cn0_dbhz distribution

  cn0_band-IsBand : (bands : Bands) (cn0_dbhz : F) → IsBand bands cn0_dbhz (cn0_band bands cn0_dbhz)
  unfolding cn0_band
  cn0_band-IsBand bands c = if-split (IsBand bands c) (le (decimal (pos 40) 0) c) from_40 (λ e.
      if-split (IsBand bands c) (le (decimal (pos 35) 0) c) (from_35 e)
        (λ f. if-split (IsBand bands c) (le (decimal (pos 30) 0) c) (from_30 e f) (below_30 e f)))

  pub acquisition_distribution_for-IsChosen :
      (config : SignalTrackingModelConfig F) (context : AcquisitionContext) (cn0_dbhz : F)
      → IsChosen config context cn0_dbhz (acquisition_distribution_for config context cn0_dbhz)
  unfolding acquisition_distribution_for
  acquisition_distribution_for-IsChosen config AcquisitionContext.hot c = record {
    bands = _;
    table = after_hot_start;
    band = cn0_band-IsBand _ c;
  }
  acquisition_distribution_for-IsChosen config AcquisitionContext.warm c = record {
    bands = _;
    table = after_warm_start;
    band = cn0_band-IsBand _ c;
  }
  acquisition_distribution_for-IsChosen config AcquisitionContext.cold c = record {
    bands = _;
    table = after_cold_start;
    band = cn0_band-IsBand _ c;
  }
  acquisition_distribution_for-IsChosen config AcquisitionContext.reacquisition c = record {
    bands = _;
    table = after_loss;
    band = cn0_band-IsBand _ c;
  }

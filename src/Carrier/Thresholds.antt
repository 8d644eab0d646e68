-- ===== src/Carrier/Thresholds.antt =====
-- The hysteresis that the checks of src/model/carrier_tracking.cpp give the thresholds.
use gnss_data_simulator.Prelude.{◌≡◌, refl, true, false, ◌&&◌, Bool-cases, inl, inr, arith}
use gnss_data_simulator.Prelude.Result.{ok}
use gnss_data_simulator.Double.{Double, IsOrdered}
use gnss_data_simulator.Carrier.{CarrierTrackingConfig, validate_carrier_tracking_config}

module _ {F : Type 0} ⦃d : Double F⦄ where
  open d use {lt, le, is_finite}

  pub record IsOrderedConfig (config : CarrierTrackingConfig F) : Type 0 where
    pub fll_finite : is_finite config.fll_exit_cn0_dbhz ≡ true
    pub enter_finite : is_finite config.fll_enter_cn0_dbhz ≡ true
    pub pll_finite : is_finite config.pll_exit_cn0_dbhz ≡ true
    pub pll : lt config.pll_exit_cn0_dbhz config.pll_enter_cn0_dbhz ≡ true
    pub between : lt config.fll_enter_cn0_dbhz config.pll_exit_cn0_dbhz ≡ true
    pub fll : lt config.fll_exit_cn0_dbhz config.fll_enter_cn0_dbhz ≡ true

  validate-IsOrderedConfig :
      (config : CarrierTrackingConfig F) (u : Unit {0})
      → validate_carrier_tracking_config config ≡ ok u
      → IsOrderedConfig config
  unfolding validate_carrier_tracking_config
  validate-IsOrderedConfig config u h = record {
    fll_finite = ground arith;
    enter_finite = ground arith;
    pll_finite = ground arith;
    pll = ground arith;
    between = ground arith;
    fll = ground arith;
  }

  -- No number lies above an upper threshold and below a lower one.
  disjoint : IsOrdered F → (low high x : F) → lt low high ≡ true → (le high x && lt x low) ≡ false
  disjoint o low high x h = elim (Bool-cases (le high x)) [
    | inl k ↦ elim (Bool-cases (lt x low)) [
      | inl l ↦
          let a = o.lt-le_trans _ _ _ h k in
          let b = o.lt_trans _ _ _ a l in let c = o.lt_irrefl low in ground arith
      | inr l ↦ rw (k, l) refl
    ]
    | inr k ↦ rw k refl
  ]

  irreflexive : IsOrdered F → (low high : F) → lt low high ≡ true → le high low ≡ false
  irreflexive o low high h = elim (Bool-cases (le high low)) [
    | inl k ↦ cc (o.lt-le_trans low high low h k, o.lt_irrefl low)
    | inr k ↦ k
  ]

  -- A hysteresis: what is at the upper threshold and what is below the lower one have no number in
  -- common, and there is a finite number that is neither.
  pub record IsHysteresis (enter exit : F) : Type 0 where
    pub apart : (x : F) → (le enter x && lt x exit) ≡ false
    pub held : F
    pub finite : is_finite held ≡ true
    pub no_entry : le enter held ≡ false
    pub no_exit : lt held exit ≡ false

  hysteresis :
      IsOrdered F
      → (enter exit : F) → is_finite exit ≡ true
      → lt exit enter ≡ true
      → IsHysteresis enter exit
  hysteresis o enter exit f h = record {
    apart = λ x. disjoint o exit enter x h;
    held = exit;
    finite = f;
    no_entry = irreflexive o exit enter h;
    no_exit = o.lt_irrefl exit;
  }

  -- With the laws of the order, in a configuration that passes the checks, the thresholds of the lock
  -- have a hysteresis, and so have those of PLL mode: no CN0 is at the upper and below the lower one,
  -- and some finite CN0 is neither. Some finite CN0 is enough to enter the lock and too little for PLL
  -- mode, and no CN0 is enough to enter PLL mode and so little that the lock is lost.
  pub validate_carrier_tracking_config-Separates :
      IsOrdered F
      → (config : CarrierTrackingConfig F) → validate_carrier_tracking_config config ≡ ok tt
      → IsHysteresis config.fll_enter_cn0_dbhz config.fll_exit_cn0_dbhz
        × IsHysteresis config.pll_enter_cn0_dbhz config.pll_exit_cn0_dbhz
        × ((x : F) × (is_finite x ≡ true)
            × (le config.fll_enter_cn0_dbhz x ≡ true)
            × (lt x config.pll_exit_cn0_dbhz ≡ true))
        × ((x : F) → (le config.pll_enter_cn0_dbhz x && lt x config.fll_exit_cn0_dbhz) ≡ false)
  validate_carrier_tracking_config-Separates o config h =
      let c = validate-IsOrderedConfig config tt h in
      let low = o.lt_trans _ _ _ c.fll (o.lt_trans _ _ _ c.between c.pll) in
      (
        hysteresis o _ _ c.fll_finite c.fll,
        hysteresis o _ _ c.pll_finite c.pll,
        (
          config.fll_enter_cn0_dbhz,
          c.enter_finite,
          o.le_of_not_lt _ _ c.enter_finite c.enter_finite (o.lt_irrefl _),
          c.between,
        ),
        λ x. disjoint o _ _ x low,
      )

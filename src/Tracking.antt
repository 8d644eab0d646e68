-- ===== src/Tracking.antt =====
-- src/model/signal_tracking.h and src/model/signal_tracking.cpp: the delays that a signal takes to be
-- acquired, drawn from a distribution with four quantiles.
pub mod Delays
pub mod Tracker
pub mod Model
pub mod Schedule
pub mod Update
pub mod Windows
pub mod Lifecycle
pub mod Choice
pub mod Due
pub mod Acquisition
pub mod Urban
use gnss_data_simulator.Prelude.{ℕ, ◌-◌, ◌/◌, ◌^◌, Bool, ◌&&◌, ◌||◌, ◌==◌, ltb, if◌then◌else◌}
use gnss_data_simulator.Prelude.Int.{ℤ, pos, ◌+ℤ◌, ◌-ℤ◌, ◌*ℤ◌, ◌/ℤ◌, leb_ℤ}
use gnss_data_simulator.Rng.{DeterministicRng, rng_next_u32}

pub record DelayDistribution : Type 0 where
  pub minimum_ns : ℤ
  pub p50_ns : ℤ
  pub p95_ns : ℤ
  pub maximum_ns : ℤ

abbrev quantile_scale : ℕ
quantile_scale = 65_536

abbrev p50_threshold : ℕ
p50_threshold = 32_768

abbrev p95_threshold : ℕ
p95_threshold = 62_259

unfoldable pub valid_delay_distribution : DelayDistribution → Bool
valid_delay_distribution distribution =
    leb_ℤ (pos 0) distribution.minimum_ns
    && leb_ℤ distribution.minimum_ns distribution.p50_ns
    && leb_ℤ distribution.p50_ns distribution.p95_ns
    && leb_ℤ distribution.p95_ns distribution.maximum_ns

unfoldable pub interpolate_integer : ℤ → ℤ → ℕ → ℕ → ℤ
interpolate_integer lower upper numerator denominator =
    if leb_ℤ upper lower || denominator == 0
    then lower
    else lower +ℤ ((upper -ℤ lower) *ℤ pos numerator) /ℤ pos denominator

-- The delay at a quantile of 16 bits.
unfoldable pub delay_at : DelayDistribution → ℕ → ℤ
delay_at distribution quantile =
    if ltb quantile p50_threshold
    then interpolate_integer distribution.minimum_ns distribution.p50_ns quantile p50_threshold
    else if ltb quantile p95_threshold
    then interpolate_integer distribution.p50_ns distribution.p95_ns (quantile - p50_threshold)
        (p95_threshold - p50_threshold)
    else interpolate_integer distribution.p95_ns distribution.maximum_ns (quantile - p95_threshold)
        (quantile_scale - p95_threshold)

unfoldable pub sample_delay : DelayDistribution → DeterministicRng → ℤ × DeterministicRng
unfolding delay_at
sample_delay distribution rng =
    let (word, rng') = rng_next_u32 rng in (delay_at distribution (word / 2 ^ 16), rng')

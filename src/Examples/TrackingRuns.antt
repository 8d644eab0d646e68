-- ===== src/Examples/TrackingRuns.antt =====
-- The delays of the signal trackers: the theorems at concrete inputs, and runs.
use gnss_data_simulator.Prelude.{ℕ, ◌*◌, ◌≡◌, refl, true, arith, some, none, [], ◌∷◌}
use gnss_data_simulator.Time.{
  SimTime, valid_normalized_time, compare_sim_time, add_time_ns, normalize_sim_time,
  checked_week_adjustment,
}
use gnss_data_simulator.Time.Total.{total_ns}
use gnss_data_simulator.Double.Milli.{Milli, num, milli_double}
use gnss_data_simulator.Signals.{SignalId, find_signal_definition}
use gnss_data_simulator.Tracking.Tracker.{
  SignalTrackingPhase, AcquisitionContext, SignalTracker, SignalTrackingModelConfig,
}
use gnss_data_simulator.Tracking.Model.{
  default_signal_tracking_model_config, validate_signal_tracking_model_config,
}
use gnss_data_simulator.Tracking.Schedule.{
  Cn0Estimate, Milestones, milestones, add_delay, acquisition_distribution_for, with_schedule,
  schedule_refused, schedule_signal_acquisition, reset_signal_tracker,
}
use gnss_data_simulator.Prelude.Int.{pos, ◌≤ℤ◌, ◌+ℤ◌, ◌-ℤ◌, ◌*ℤ◌, ◌/ℤ◌, ◌%ℤ◌}
use gnss_data_simulator.Rng.{DeterministicRng, seed_rng, rng_next_u32}
use gnss_data_simulator.Tracking.{
  DelayDistribution, valid_delay_distribution, interpolate_integer, delay_at, sample_delay,
}
use gnss_data_simulator.Tracking.Update.{update_signal_tracker}
use gnss_data_simulator.Tracking.Windows.{IsScheduled, Follows}
use gnss_data_simulator.Tracking.Lifecycle.{updates, update_signal_tracker-Follows}
use gnss_data_simulator.Tracking.Acquisition.{
  Outcome, schedule_signal_acquisition-Outcome, schedule_updates_live,
}
use gnss_data_simulator.Tracking.Delays.{sample_delay-Between}

-- The startup delay of a receiver that is warm.
abbrev startup : DelayDistribution
startup = record {
  minimum_ns = pos 400_000_000;
  p50_ns = pos 800_000_000;
  p95_ns = pos 1_500_000_000;
  maximum_ns = pos 2_000_000_000;
}

startup_lem : valid_delay_distribution startup ≡ true
unfolding valid_delay_distribution
startup_lem = refl

-- A quarter of the draws lie below half way to the median.
quarter : delay_at startup 16_384 ≡ pos 600_000_000
unfolding delay_at interpolate_integer ◌+ℤ◌ ◌-ℤ◌ ◌*ℤ◌ ◌/ℤ◌
quarter = refl

sample_delay-Between_example :
    (pos 400_000_000 ≤ℤ (sample_delay startup (seed_rng 42 54)).0)
    × ((sample_delay startup (seed_rng 42 54)).0 ≤ℤ pos 2_000_000_000)
    × ((sample_delay startup (seed_rng 42 54)).1 ≡ (rng_next_u32 (seed_rng 42 54)).1)
sample_delay-Between_example =
    sample_delay-Between startup (seed_rng 42 54) startup_lem (omega arith)

abbrev at : ℕ → SimTime
at seconds = record { gps_week = pos 2300; tow_ns = pos (seconds * 1_000_000_000) }

-- A model that gives every signal 45 dBHz.
abbrev strong : Cn0Estimate Milli
strong signal_id elevation_deg time = some (num (pos 45_000))

abbrev idle : SignalTracker Milli
idle = reset_signal_tracker SignalId.gps_l1_ca (at 0)

abbrev config : SignalTrackingModelConfig Milli
config = default_signal_tracking_model_config

abbrev times : Milestones
times = record {
  acquisition_complete = record { gps_week = pos 2300; tow_ns = pos 1_407_915_974 };
  psr = record { gps_week = pos 2300; tow_ns = pos 1_507_915_974 };
  doppler = record { gps_week = pos 2300; tow_ns = pos 1_557_915_974 };
  adr = record { gps_week = pos 2300; tow_ns = pos 1_907_915_974 };
}

abbrev scheduled : SignalTracker Milli
scheduled = with_schedule idle AcquisitionContext.hot (at 0) (at 1) (num (pos 45_000)) times

-- The generator after the draw.
abbrev drawn : DeterministicRng
drawn =
    (sample_delay (acquisition_distribution_for config AcquisitionContext.hot (num (pos 45_000)))
      (seed_rng 42 54)).1

scheduled_lem :
    schedule_signal_acquisition strong config idle AcquisitionContext.hot
      (at 0)
      (at 1)
      (num (pos 30_000))
      (seed_rng 42 54)
    ≡ (scheduled, drawn, none)
unfolding schedule_signal_acquisition schedule_refused validate_signal_tracking_model_config
    default_signal_tracking_model_config valid_delay_distribution valid_normalized_time
    compare_sim_time find_signal_definition reset_signal_tracker acquisition_distribution_for
    sample_delay milestones add_delay add_time_ns normalize_sim_time checked_week_adjustment
    seed_rng rng_next_u32 interpolate_integer ◌+ℤ◌ ◌-ℤ◌ ◌*ℤ◌ ◌/ℤ◌ ◌%ℤ◌
scheduled_lem = refl

schedule_signal_acquisition-Outcome_example :
    Outcome strong config idle AcquisitionContext.hot
      (at 0)
      (at 1)
      (num (pos 30_000))
      (seed_rng 42 54)
      (schedule_signal_acquisition strong config idle AcquisitionContext.hot
        (at 0)
        (at 1)
        (num (pos 30_000))
        (seed_rng 42 54))
schedule_signal_acquisition-Outcome_example =
    schedule_signal_acquisition-Outcome strong config idle AcquisitionContext.hot (at 0) (at 1)
      (num (pos 30_000)) (seed_rng 42 54) (omega arith) (omega arith)

scheduled-IsScheduled : IsScheduled scheduled
unfolding with_schedule ◌+ℤ◌ ◌*ℤ◌
scheduled-IsScheduled = record {
  scheduled = refl;
  since = omega arith;
  ready = omega arith;
  complete = omega arith;
  psr = omega arith;
  doppler = omega arith;
  adr = omega arith;
  start = refl;
  ready_le = omega arith;
  psr_ge = omega arith;
  doppler_ge = omega arith;
  adr_ge = omega arith;
}

update_signal_tracker-Follows_example :
    (next : SignalTracker Milli) × (update_signal_tracker strong scheduled
        (at 3)
        true
        (num (pos 30_000))
      ≡ (next, none))
    × Follows scheduled (at 3) next
unfolding with_schedule ◌+ℤ◌ ◌-ℤ◌ ◌*ℤ◌
update_signal_tracker-Follows_example =
    update_signal_tracker-Follows strong (num (pos 30_000)) refl scheduled (at 3) (num (pos 45_000))
      scheduled-IsScheduled (omega arith) (omega arith) (λ h. omega arith) refl

schedule_updates_live_example :
    (final : SignalTracker Milli) × (updates strong (num (pos 30_000)) scheduled (at 1 ∷ at 2 ∷ [])
      ≡ (final, none))
    × (final.phase ≡ SignalTrackingPhase.tracking)
    × (final.psr_valid ≡ true)
    × (final.doppler_valid ≡ true)
    × (final.adr_valid ≡ true)
    × (final.observation_available ≡ true)
    × (final.carrier_continuity_valid ≡ true)
    × (final.lock_time_ns ≡ total_ns (at 2) -ℤ total_ns times.acquisition_complete)
unfolding with_schedule ◌+ℤ◌ ◌-ℤ◌ ◌*ℤ◌
schedule_updates_live_example =
    schedule_updates_live strong config idle AcquisitionContext.hot (at 0) (at 1) (num (pos 30_000))
      (seed_rng 42 54) scheduled drawn (at 1) (at 2 ∷ []) (omega arith) (omega arith) refl
      scheduled_lem
      (
        omega arith,
        omega arith,
        (λ h. omega arith),
        (num (pos 45_000), refl),
        (omega arith, omega arith, (λ h. omega arith), (num (pos 45_000), refl), tt),
      )
      (omega arith) (omega arith) (omega arith)

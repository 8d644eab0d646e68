-- ===== src/Bestpos.antt =====
-- src/model/bestpos_rtk_model.h and src/model/bestpos_rtk_model.cpp: when a single point solution has
-- been stable for long enough to be reported as fixed.
pub mod Stability
use gnss_data_simulator.Prelude.{
  Bool, true, false, not, ◌&&◌, ◌||◌, Option, none, some, if◌then◌else◌,
}
use gnss_data_simulator.Prelude.Int.{ℤ, pos, ltb_ℤ, leb_ℤ, eq_ℤ}
use gnss_data_simulator.Time.{SimTime, difference_time_ns}
use gnss_data_simulator.Config.{BestposRtkConfig}
use gnss_data_simulator.Solution.{
  ReceiverSolutionStatus, sol_computed, ReceiverSolutionType, single, PositionSolution,
}

pub record BestposRtkState : Type 0 where
  pub stability_active : Bool
  pub fixed : Bool
  pub stable_since : SimTime

pub data BestposError : Type 0 where
  invalid_arguments not_monotonic : BestposError

abbrev is_computed : ReceiverSolutionStatus → Bool
is_computed sol_computed = true
is_computed _ = false

abbrev is_single : ReceiverSolutionType → Bool
is_single single = true
is_single _ = false

module _ {F : Type 0} where
  unfoldable pub qualifying_position : BestposRtkConfig F → PositionSolution F → Bool
  qualifying_position config position =
      position.valid
      && is_computed position.status
      && is_single position.type
      && leb_ℤ config.min_used_satellites position.used_satellites

-- The value-initialised state.
unfoldable pub reset_bestpos_rtk_state : BestposRtkState
reset_bestpos_rtk_state = record {
  stability_active = false;
  fixed = false;
  stable_since = record { gps_week = pos 0; tow_ns = pos 0 };
}

module _ {F : Type 0} where
  -- The state once the position qualifies.
  unfoldable pub advance_stability :
      BestposRtkConfig F → SimTime → BestposRtkState → BestposRtkState × Option BestposError
  advance_stability config epoch_time state =
      if state.fixed
      then (state, none)
      else if not state.stability_active
      then (
        record state {
          stability_active = true;
          stable_since = epoch_time;
          fixed = eq_ℤ config.stable_duration_ns (pos 0) || state.fixed;
        },
        none,
      )
      else elim (difference_time_ns epoch_time state.stable_since) [
        | none ↦ (state, some not_monotonic)
        | some stable_ns ↦
            if ltb_ℤ stable_ns (pos 0)
            then (state, some not_monotonic)
            else if leb_ℤ config.stable_duration_ns stable_ns
            then (record state { fixed = true }, none)
            else (state, none)
      ]

  -- The state and the error: `none` is success.
  unfoldable pub update_bestpos_rtk_state :
      BestposRtkConfig F
      → SimTime
      → PositionSolution F
      → BestposRtkState
      → BestposRtkState × Option BestposError
  update_bestpos_rtk_state config epoch_time position state =
      if ltb_ℤ config.stable_duration_ns (pos 0) || ltb_ℤ config.min_used_satellites (pos 1)
      then (state, some invalid_arguments)
      else if not config.enabled || not (qualifying_position config position)
      then (reset_bestpos_rtk_state, none)
      else advance_stability config epoch_time state

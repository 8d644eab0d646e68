-- ===== src/Scenario.antt =====
-- src/scenario/scenario_engine.h and src/scenario/scenario_engine.cpp: which part of the cycle of a
-- scenario a time lies in, and the transitions between the epochs. A function that fails leaves the
-- engine as it was; null pointers have no counterpart.
pub mod Cycle
pub mod Engine
use gnss_data_simulator.Prelude.{
  ℕ, Bool, true, false, not, ◌&&◌, ◌||◌, Option, none, some, if◌then◌else◌,
}
use gnss_data_simulator.Prelude.Int.{ℤ, pos, pos_part, ◌+ℤ◌, ◌/ℤ◌, ◌%ℤ◌, ltb_ℤ, leb_ℤ}
use gnss_data_simulator.Prelude.Result.{Result, ok, err, ◌>>=◌}
use gnss_data_simulator.Double.{Double}
use gnss_data_simulator.Time.{
  SimTime, gps_week_nanoseconds, compare_sim_time, difference_time_ns, valid_normalized_time,
}
use gnss_data_simulator.Config.{SimConfig, ScenarioType, ks, rea, ttff}
use gnss_data_simulator.Config.Validate.{ConfigError, validate_sim_config}

pub record ScenarioEpochState : Type 0 where
  pub time : SimTime
  pub receiver_powered : Bool
  pub signal_available : Bool
  pub power_on_transition : Bool
  pub power_off_transition : Bool
  pub signal_on_transition : Bool
  pub signal_off_transition : Bool
  pub cycle_index : ℕ
  pub phase_elapsed_ns : ℤ

pub record ScenarioEngine (F : Type 0) : Type 0 where
  pub config : SimConfig F
  pub start_time : SimTime
  pub last_time : SimTime
  pub initialized : Bool
  pub have_last_state : Bool
  pub last_receiver_powered : Bool
  pub last_signal_available : Bool

pub data ScenarioError : Type 0 where
  invalid_arguments invalid_or_non_monotonic cannot_compute : ScenarioError
  invalid_config : ConfigError → ScenarioError

unfoldable pub valid_time : SimTime → Bool
valid_time time =
    leb_ℤ (pos 0) time.gps_week
    && leb_ℤ (pos 0) time.tow_ns
    && ltb_ℤ time.tow_ns gps_week_nanoseconds

-- The state in a cycle of a time on and a time off: the number of the cycle, the time into it, and
-- the receiver and the signal as functions of the test that it is on.
abbrev in_cycle : SimTime → ℤ → ℤ → ℤ → Bool → ScenarioEpochState
in_cycle current_time elapsed_ns on_ns off_ns switches_power =
    let period_ns = on_ns +ℤ off_ns in
    let on = ltb_ℤ (elapsed_ns %ℤ period_ns) on_ns in
    record {
      time = current_time;
      receiver_powered = not switches_power || on;
      signal_available = on;
      power_on_transition = false;
      power_off_transition = false;
      signal_on_transition = false;
      signal_off_transition = false;
      cycle_index = pos_part (elapsed_ns /ℤ period_ns);
      phase_elapsed_ns = elapsed_ns %ℤ period_ns;
    }

module _ {F : Type 0} ⦃d : Double F⦄ where
  unfoldable pub state_in : SimConfig F → ScenarioType → SimTime → ℤ → ScenarioEpochState
  state_in config rea current_time elapsed_ns =
      in_cycle current_time elapsed_ns config.rea.signal_on_ns config.rea.signal_off_ns false
  state_in config ttff current_time elapsed_ns =
      in_cycle current_time elapsed_ns config.ttff.power_on_ns config.ttff.power_off_ns true
  state_in config ks current_time elapsed_ns = record {
    time = current_time;
    receiver_powered = true;
    signal_available = true;
    power_on_transition = false;
    power_off_transition = false;
    signal_on_transition = false;
    signal_off_transition = false;
    cycle_index = 0;
    phase_elapsed_ns = elapsed_ns;
  }

  unfoldable pub compute_state : ScenarioEngine F → SimTime → Option ScenarioEpochState
  compute_state engine current_time = elim (difference_time_ns current_time engine.start_time) [
    | none ↦ none
    | some elapsed_ns ↦
        if ltb_ℤ elapsed_ns (pos 0)
        then none
        else some (state_in engine.config engine.config.scenario current_time elapsed_ns)
  ]

  unfoldable pub initialize_scenario_engine :
      SimConfig F → SimTime → Result ScenarioError (ScenarioEngine F)
  initialize_scenario_engine config start_time =
      if not (valid_time start_time)
      then err invalid_arguments
      else elim (validate_sim_config config) [
        | err e ↦ err (invalid_config e)
        | ok u ↦ ok (record {
          config = config;
          start_time = start_time;
          last_time = start_time;
          initialized = true;
          have_last_state = false;
          last_receiver_powered = false;
          last_signal_available = false;
        })
      ]

  -- The transitions between the last epoch and this one.
  unfoldable pub with_transitions : ScenarioEngine F → ScenarioEpochState → ScenarioEpochState
  with_transitions engine result =
      if not engine.have_last_state
      then record result {
        power_on_transition = result.receiver_powered;
        signal_on_transition = result.signal_available;
      }
      else record result {
        power_on_transition = not engine.last_receiver_powered && result.receiver_powered;
        power_off_transition = engine.last_receiver_powered && not result.receiver_powered;
        signal_on_transition = not engine.last_signal_available && result.signal_available;
        signal_off_transition = engine.last_signal_available && not result.signal_available;
      }

  unfoldable pub after_epoch : ScenarioEngine F → SimTime → ScenarioEpochState → ScenarioEngine F
  after_epoch engine current_time result = record engine {
    last_time = current_time;
    last_receiver_powered = result.receiver_powered;
    last_signal_available = result.signal_available;
    have_last_state = true;
  }

  -- The test at the start of an update.
  unfoldable pub update_refused : ScenarioEngine F → SimTime → Bool
  update_refused engine current_time =
      not engine.initialized
      || not (valid_time current_time)
      || ltb_ℤ (compare_sim_time current_time engine.start_time) (pos 0)
      || engine.have_last_state && ltb_ℤ (compare_sim_time current_time engine.last_time) (pos 0)

  unfoldable pub update_scenario_engine :
      ScenarioEngine F → SimTime → Result ScenarioError (ScenarioEngine F × ScenarioEpochState)
  update_scenario_engine engine current_time =
      if update_refused engine current_time
      then err invalid_or_non_monotonic
      else elim (compute_state engine current_time) [
        | none ↦ err cannot_compute
        | some result ↦ ok (after_epoch engine current_time result, with_transitions engine result)
      ]

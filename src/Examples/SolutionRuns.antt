-- ===== src/Examples/SolutionRuns.antt =====
-- The selection of observations and the fixed solution: the theorems at concrete inputs, and runs.
use gnss_data_simulator.Prelude.{
  ℕ, ◌*◌, ◌≡◌, refl, true, false, List, [], ◌∷◌, none, some, map, arith,
}
use gnss_data_simulator.Prelude.Int.{ℤ, pos, ◌+ℤ◌, ◌-ℤ◌, ◌*ℤ◌, ◌/ℤ◌}
use gnss_data_simulator.Double.Milli.{Milli, num, milli_double}
use gnss_data_simulator.Time.{
  SimTime, difference_time_ns, valid_normalized_time, week_delta_overflows, sum_overflows,
}
use gnss_data_simulator.Config.{BestposRtkConfig}
use gnss_data_simulator.Solution.{
  sol_computed, ReceiverSolutionType, PositionSolution, RtklibBroadcastMessageFamily,
  BroadcastCodeBiasStatus, MeasurementObservation, SelectedObservation, ObservationCodes,
  solver_observations, consider_selected_observation, candidate_of, make_rtklib_observation,
  makes_observation, solution_observation, signal_rtklib_observation_code, place_candidate,
  find_selected_satellite,
}
use gnss_data_simulator.Solution.Selection.{IsSelection, solver_observations-IsSelection}
use gnss_data_simulator.Signals.{SignalId, signal_single_point_priority, find_signal_definition}
use gnss_data_simulator.Bestpos.{
  reset_bestpos_rtk_state, update_bestpos_rtk_state, advance_stability, qualifying_position,
}
use gnss_data_simulator.Bestpos.Stability.{
  bestpos_run, final_streak, last_epoch, Represents, bestpos_run-Represents,
}

abbrev at : ℕ → SimTime
at seconds = record { gps_week = pos 2300; tow_ns = pos (seconds * 1_000_000_000) }

abbrev bestpos : BestposRtkConfig Milli
bestpos = record {
  enabled = true;
  stable_duration_ns = pos 2_000_000_000;
  min_used_satellites = pos 5;
  horizontal_std_m = num (pos 20);
  height_std_m = num (pos 40);
}

abbrev position : ℕ → PositionSolution Milli
position used_satellites = record {
  valid = true;
  status = sol_computed;
  type = ReceiverSolutionType.single;
  position_ecef_m = (num (pos 0), num (pos 0), num (pos 0));
  latitude_deg = num (pos 0);
  longitude_deg = num (pos 0);
  height_m = num (pos 0);
  receiver_clock_bias_m = num (pos 0);
  covariance_ecef_m2 =
      (num (pos 1), num (pos 1), num (pos 1), num (pos 0), num (pos 0), num (pos 0));
  latitude_std_m = num (pos 1);
  longitude_std_m = num (pos 1);
  height_std_m = num (pos 1);
  used_satellites = pos used_satellites;
  diagnostic = "";
}

-- Too few satellites in the second epoch: the streak begins anew with the third.
abbrev epochs : List (SimTime × PositionSolution Milli)
epochs =
    (at 1, position 8)
    ∷ (at 2, position 4)
    ∷ (at 3, position 7)
    ∷ (at 4, position 7)
    ∷ (at 5, position 6)
    ∷ []

bestpos_run-Represents_example :
    ((bestpos_run bestpos epochs reset_bestpos_rtk_state).1 ≡ none)
    × Represents bestpos
        (last_epoch bestpos (at 0) epochs)
        (final_streak bestpos epochs none)
        (bestpos_run bestpos epochs reset_bestpos_rtk_state).0
unfolding ◌+ℤ◌ ◌-ℤ◌ ◌*ℤ◌
bestpos_run-Represents_example =
    bestpos_run-Represents bestpos epochs (at 0)
      (record { duration = omega arith; satellites = omega arith })
      (
        record { normal = omega arith; week = omega arith },
        omega arith,
        (
          record { normal = omega arith; week = omega arith },
          omega arith,
          (
            record { normal = omega arith; week = omega arith },
            omega arith,
            (
              record { normal = omega arith; week = omega arith },
              omega arith,
              (record { normal = omega arith; week = omega arith }, omega arith, tt),
            ),
          ),
        ),
      )

becomes_fixed : (bestpos_run bestpos epochs reset_bestpos_rtk_state).0.fixed ≡ true
unfolding update_bestpos_rtk_state advance_stability qualifying_position reset_bestpos_rtk_state
    difference_time_ns valid_normalized_time week_delta_overflows sum_overflows ◌+ℤ◌ ◌-ℤ◌ ◌*ℤ◌ ◌/ℤ◌
becomes_fixed = refl

abbrev measured : SignalId → ℕ → ℕ → MeasurementObservation Milli
measured signal_id satellite_number cn0_dbhz = record {
  signal_id = signal_id;
  satellite_number = pos satellite_number;
  glonass_fcn = pos 0;
  wavelength_m = num (pos 190);
  geometric_range_m = num (pos 21_000_000_000);
  range_rate_mps = num (pos 0);
  satellite_clock_bias_m = num (pos 0);
  satellite_clock_drift_mps = num (pos 0);
  broadcast_message_family = RtklibBroadcastMessageFamily.legacy;
  tgd_sec = (num (pos 0), num (pos 0), num (pos 0), num (pos 0));
  isc_sec = (num (pos 0), num (pos 0), num (pos 0), num (pos 0), num (pos 0), num (pos 0));
  glonass_dtaun_sec = num (pos 0);
  code_bias_m = num (pos 0);
  ionosphere_code_delay_m = num (pos 0);
  troposphere_delay_m = num (pos 0);
  pseudorange_m = num (pos 21_000_000_000);
  doppler_hz = num (pos 0);
  adr_cycles = num (pos 0);
  cn0_dbhz = num (pos cn0_dbhz);
  lock_time_ns = pos 0;
  ambiguity_cycles = pos 0;
  code_bias_status = BroadcastCodeBiasStatus.applied;
  observation_available = true;
  pseudorange_valid = true;
  doppler_valid = true;
  adr_valid = false;
}

-- Two signals of satellite 7, the better second, and one of satellite 3.
abbrev measurements : List (MeasurementObservation Milli)
measurements =
    measured SignalId.gps_l1c 7 44_000
    ∷ measured SignalId.gps_l1_ca 7 43_000
    ∷ measured SignalId.gps_l1_ca 3 39_000
    ∷ []

-- RTKLIB knows every code.
abbrev codes : ObservationCodes
codes signal_code = some (pos 1, pos 0)

solver_observations-IsSelection_example :
    IsSelection codes true measurements (solver_observations codes true measurements)
solver_observations-IsSelection_example = solver_observations-IsSelection codes true measurements

chosen :
    map {B = ℤ × ℤ × Milli}
      (λ (s : SelectedObservation Milli). (s.satellite_number, s.priority, s.observation.cn0_dbhz))
      (solver_observations codes true measurements)
    ≡ (pos 3, pos 0, num (pos 39_000)) ∷ (pos 7, pos 0, num (pos 43_000)) ∷ []
unfolding solver_observations consider_selected_observation candidate_of make_rtklib_observation
    makes_observation solution_observation signal_rtklib_observation_code place_candidate
    find_selected_satellite signal_single_point_priority find_signal_definition ◌*ℤ◌ ◌/ℤ◌
chosen = refl

-- ===== src/Solution.antt =====
-- src/solution/solution_engine.h and src/solution/solution_engine.cpp: the observations that enter a
-- solution, one for each satellite, in the order of the satellites. The code of an observation is
-- the interface of RTKLIB: `none` where it knows none.
mod Types
pub mod Sorted
pub mod Best
pub mod Selection
pub use Types.*
use gnss_data_simulator.Prelude.{
  ℕ, Bool, true, false, not, ◌&&◌, ◌||◌, ltb, Option, none, some, List, [], ◌∷◌, ◌++◌, length, set,
  map, suc, if◌then◌else◌,
}
use gnss_data_simulator.Prelude.Int.{ℤ, pos, ltb_ℤ, leb_ℤ, eq_ℤ}
use gnss_data_simulator.Double.{Double, nought}
use gnss_data_simulator.Signals.{
  SignalId, SignalDefinition, find_signal_definition, signal_single_point_priority,
}
use Prim.Native.String.{String}

-- The code and the frequency index that RTKLIB has for a RINEX signal code.
abbrev pub ObservationCodes : Type 0
ObservationCodes = String → Option (ℤ × ℤ)

abbrev pub max_solver_satellites : ℕ
max_solver_satellites = 64

abbrev pub is_unavailable : BroadcastCodeBiasStatus → Bool
is_unavailable BroadcastCodeBiasStatus.unavailable_for_message_family = true
is_unavailable _ = false

module _ {F : Type 0} where
  unfoldable pub signal_rtklib_observation_code :
      ObservationCodes → SignalDefinition F → Option (ℤ × ℤ)
  signal_rtklib_observation_code rtklib_observation_code definition =
      rtklib_observation_code definition.rinex_signal_code

  -- The index of the satellite, with the observation at it.
  unfoldable pub find_selected_satellite :
      List (SelectedObservation F) → ℤ → Option (ℕ × SelectedObservation F)
  find_selected_satellite [] satellite_number = none
  find_selected_satellite (s ∷ selected) satellite_number =
      if eq_ℤ s.satellite_number satellite_number
      then some (0, s)
      else elim (find_selected_satellite selected satellite_number) [
        | none ↦ none
        | some (index, t) ↦ some (suc index, t)
      ]

  -- The inner loop of the sort, over the sorted part from its end backwards.
  unfoldable pub shift :
      SelectedObservation F → List (SelectedObservation F) → List (SelectedObservation F)
  shift value [] = value ∷ []
  shift value (s ∷ before) =
      if ltb_ℤ value.satellite_number s.satellite_number
      then s ∷ shift value before
      else value ∷ s ∷ before

  -- The outer loop, with the sorted part backwards.
  unfoldable pub sort_from :
      List (SelectedObservation F) → List (SelectedObservation F) → List (SelectedObservation F)
  sort_from sorted [] = sorted
  sort_from sorted (value ∷ rest) = sort_from (shift value sorted) rest

  -- The array whose part before an index is given backwards.
  unfoldable pub forwards :
      List (SelectedObservation F) → List (SelectedObservation F) → List (SelectedObservation F)
  forwards [] after = after
  forwards (s ∷ before) after = forwards before (s ∷ after)

  unfoldable pub sort_selected_observations :
      List (SelectedObservation F) → List (SelectedObservation F)
  unfolding shift sort_from forwards
  sort_selected_observations selected = forwards (sort_from [] selected) []

  -- The end of the function, for a candidate.
  unfoldable pub place_candidate :
      ℤ → RtklibSolutionObservation F → List (SelectedObservation F) → List (SelectedObservation F)
  place_candidate priority candidate selected =
      elim (find_selected_satellite selected candidate.satellite_number) [
        | some (existing, s) ↦
            if ltb_ℤ priority s.priority
            then set selected existing (record s { priority = priority; observation = candidate })
            else selected
        | none ↦
            if not (ltb (length selected) max_solver_satellites)
            then selected
            else selected
              ++ record {
                satellite_number = candidate.satellite_number;
                priority = priority;
                observation = candidate;
              }
                ∷ []
      ]

module _ {F : Type 0} ⦃d : Double F⦄ (rtklib_observation_code : ObservationCodes) where
  open d use {lt, le, is_finite}

  -- The checks at the start, but for the look-up of the signal.
  unfoldable pub makes_observation : MeasurementObservation F → Bool
  makes_observation source =
      ltb_ℤ (pos 0) source.satellite_number
      && is_finite source.pseudorange_m
      && not (le source.pseudorange_m nought)
      && is_finite source.doppler_hz
      && is_finite source.wavelength_m
      && not (le source.wavelength_m nought)
      && is_finite source.code_bias_m
      && is_finite source.cn0_dbhz

  unfoldable pub solution_observation : MeasurementObservation F → ℤ → RtklibSolutionObservation F
  solution_observation source observation_code = record {
    satellite_number = source.satellite_number;
    observation_code = observation_code;
    message_family = source.broadcast_message_family;
    pseudorange_m = source.pseudorange_m;
    code_bias_m = source.code_bias_m;
    doppler_hz = source.doppler_hz;
    wavelength_m = source.wavelength_m;
    cn0_dbhz = source.cn0_dbhz;
    pseudorange_valid = source.pseudorange_valid && not (is_unavailable source.code_bias_status);
    doppler_valid = source.doppler_valid;
  }

  unfoldable pub make_rtklib_observation :
      MeasurementObservation F → Option (RtklibSolutionObservation F)
  make_rtklib_observation source = elim (find_signal_definition {F = F} source.signal_id) [
    | none ↦ none
    | some definition ↦
        if not (makes_observation source)
        then none
        else elim (signal_rtklib_observation_code rtklib_observation_code definition) [
          | none ↦ none
          | some (observation_code, frequency_index) ↦
              some (solution_observation source observation_code)
        ]
  ]

  -- The priority and the observation of a measurement that may enter the solution.
  unfoldable pub candidate_of :
      MeasurementObservation F → Bool → Option (ℤ × RtklibSolutionObservation F)
  candidate_of measurement for_position =
      let priority = signal_single_point_priority measurement.signal_id in
      if ltb_ℤ priority (pos 0) then none else elim (make_rtklib_observation measurement) [
        | none ↦ none
        | some candidate ↦
            if (for_position && not candidate.pseudorange_valid)
              || (not for_position && not candidate.doppler_valid)
            then none
            else some (priority, candidate)
      ]

  unfoldable pub consider_selected_observation :
      MeasurementObservation F → Bool → List (SelectedObservation F) → List (SelectedObservation F)
  consider_selected_observation measurement for_position selected =
      elim (candidate_of measurement for_position) [
        | none ↦ selected
        | some (priority, candidate) ↦ place_candidate priority candidate selected
      ]

  -- The loop over the observations, for one of the two selections.
  unfoldable pub consider_all :
      Bool
      → List (MeasurementObservation F)
      → List (SelectedObservation F)
      → List (SelectedObservation F)
  consider_all for_position [] selected = selected
  consider_all for_position (m ∷ observations) selected =
      consider_all for_position observations (consider_selected_observation m for_position selected)

  -- The selection as the solver gets it.
  unfoldable pub solver_observations :
      Bool → List (MeasurementObservation F) → List (SelectedObservation F)
  unfolding consider_all sort_selected_observations
  solver_observations for_position observations =
      sort_selected_observations (consider_all for_position observations [])

-- ===== src/CodeTracking.antt =====
-- src/model/code_tracking_dll.h and src/model/code_tracking_dll.cpp: the roots of the discriminator
-- of the code tracking loop, and the choice of the root to track. The selected index comes with the
-- root at it.
pub mod Selection
pub mod Best
use gnss_data_simulator.Prelude.{
  ℕ, suc, Bool, true, false, not, ◌&&◌, ◌||◌, Option, none, some, List, [], ◌∷◌, if◌then◌else◌,
}
use gnss_data_simulator.Prelude.Result.{Result, ok, err}
use gnss_data_simulator.Double.{Double, eq}

pub record CodeTrackingDllRoot (F : Type 0) : Type 0 where
  pub code_phase_sec : F
  pub code_phase_chips : F
  pub discriminator : F
  pub discriminator_slope_per_chip : F
  pub prompt_power : F
  pub stable : Bool

pub data CodeTrackingDllSelectionMode : Type 0 where
  tracked acquisition : CodeTrackingDllSelectionMode

pub data SelectionError : Type 0 where
  no_roots previous_not_finite no_stable_candidate : SelectionError

abbrev needs_previous : CodeTrackingDllSelectionMode → Bool
needs_previous CodeTrackingDllSelectionMode.tracked = true
needs_previous CodeTrackingDllSelectionMode.acquisition = false

module _ {F : Type 0} ⦃d : Double F⦄ where
  open d use {sub, absolute, lt, is_finite}

  unfoldable pub prefer_tracked_candidate : F → CodeTrackingDllRoot F → CodeTrackingDllRoot F → Bool
  prefer_tracked_candidate previous_code_phase_sec candidate current =
      let candidate_distance = absolute (sub candidate.code_phase_sec previous_code_phase_sec) in
      let current_distance = absolute (sub current.code_phase_sec previous_code_phase_sec) in
      if not (eq candidate_distance current_distance)
      then lt candidate_distance current_distance
      else if not (eq candidate.prompt_power current.prompt_power)
      then lt current.prompt_power candidate.prompt_power
      else lt candidate.code_phase_sec current.code_phase_sec

  unfoldable pub prefer_acquisition_candidate : CodeTrackingDllRoot F → CodeTrackingDllRoot F → Bool
  prefer_acquisition_candidate candidate current =
      let candidate_abs_phase = absolute candidate.code_phase_sec in
      let current_abs_phase = absolute current.code_phase_sec in
      if not (eq candidate.prompt_power current.prompt_power)
      then lt current.prompt_power candidate.prompt_power
      else if not (eq candidate_abs_phase current_abs_phase)
      then lt candidate_abs_phase current_abs_phase
      else lt candidate.code_phase_sec current.code_phase_sec

  -- The `switch` on the mode.
  unfoldable pub prefer :
      CodeTrackingDllSelectionMode → F → CodeTrackingDllRoot F → CodeTrackingDllRoot F → Bool
  unfolding prefer_tracked_candidate prefer_acquisition_candidate
  prefer CodeTrackingDllSelectionMode.tracked previous_code_phase_sec candidate current =
      prefer_tracked_candidate previous_code_phase_sec candidate current
  prefer CodeTrackingDllSelectionMode.acquisition previous_code_phase_sec candidate current =
      prefer_acquisition_candidate candidate current

  -- The body of the loop, for the root at an index.
  unfoldable pub consider_root :
      CodeTrackingDllSelectionMode
      → F
      → ℕ
      → CodeTrackingDllRoot F
      → Option (ℕ × CodeTrackingDllRoot F)
      → Option (ℕ × CodeTrackingDllRoot F)
  consider_root mode previous_code_phase_sec index candidate selected =
      if not candidate.stable then selected else elim selected [
        | none ↦ some (index, candidate)
        | some (selected_index, current) ↦
            if prefer mode previous_code_phase_sec candidate current
            then some (index, candidate)
            else some (selected_index, current)
      ]

  -- The loop, from an index on.
  unfoldable pub select_from :
      CodeTrackingDllSelectionMode
      → F
      → ℕ
      → List (CodeTrackingDllRoot F)
      → Option (ℕ × CodeTrackingDllRoot F)
      → Option (ℕ × CodeTrackingDllRoot F)
  select_from mode previous_code_phase_sec index [] selected = selected
  select_from mode previous_code_phase_sec index (root ∷ roots) selected =
      select_from mode previous_code_phase_sec (suc index) roots
        (consider_root mode previous_code_phase_sec index root selected)

  unfoldable pub select_code_tracking_dll_root :
      List (CodeTrackingDllRoot F)
      → CodeTrackingDllSelectionMode
      → F
      → Result SelectionError (ℕ × CodeTrackingDllRoot F)
  unfolding select_from
  select_code_tracking_dll_root [] mode previous_code_phase_sec = err no_roots
  select_code_tracking_dll_root (root ∷ roots) mode previous_code_phase_sec =
      if needs_previous mode && not (is_finite previous_code_phase_sec)
      then err previous_not_finite
      else elim (select_from mode previous_code_phase_sec 0 (root ∷ roots) none) [
        | none ↦ err no_stable_candidate
        | some selected ↦ ok selected
      ]

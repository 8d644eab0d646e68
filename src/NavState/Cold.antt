-- ===== src/NavState/Cold.antt =====
-- src/gnss/nav_message_scheduler.cpp: the record of a plan is delivered to the receiver once the
-- fragments of the plan are complete.
use gnss_data_simulator.Prelude.{Bool, true, false, not, ◌||◌, Option, none, some, if◌then◌else◌}
use gnss_data_simulator.Prelude.Int.{ℤ, pos, negsuc, eq_ℤ}
use gnss_data_simulator.Prelude.Result.{Result, ok, err}
use gnss_data_simulator.Double.{Double}
use gnss_data_simulator.Time.{SimTime, valid_normalized_time}
use gnss_data_simulator.NavSchedule.{NavAcquisitionPlan}
use gnss_data_simulator.NavSchedule.Reception.{nav_acquisition_complete}
use gnss_data_simulator.NavState.{
  RtklibNavRecordKind, eq_kind, NavLibrary, NavigationState, NavigationUpdateEvent, NavigationError,
  apply_truth_navigation_record,
}

pub data ColdDeliveryError : Type 0 where
  invalid_arguments invalid_record issue_mismatch : ColdDeliveryError
  delivery_failed : NavigationError → ColdDeliveryError

module _ {Store F : Type 0} ⦃d : Double F⦄ (l : NavLibrary Store F) where
  open l use {record_info}

  -- The record that a complete plan names; it is at an index that is not negative.
  unfoldable pub checked_record :
      NavAcquisitionPlan → ℤ → NavigationState Store → Option ColdDeliveryError
  checked_record plan (negsuc n) navigation_state = some ColdDeliveryError.invalid_arguments
  checked_record plan (pos index) navigation_state =
      elim (record_info navigation_state.truth_nav index) [
        | none ↦ some ColdDeliveryError.invalid_record
        | some info ↦
            if eq_kind info.kind RtklibNavRecordKind.ionosphere
              || not (eq_ℤ info.iode plan.issue_data)
            then some ColdDeliveryError.issue_mismatch
            else none
      ]

  -- What the delivery answers, with its own errors.
  unfoldable pub as_cold_delivery :
      NavigationState Store × Result NavigationError (Option NavigationUpdateEvent)
      → NavigationState Store × Result ColdDeliveryError (Option NavigationUpdateEvent)
  as_cold_delivery (state, err e) = (state, err (ColdDeliveryError.delivery_failed e))
  as_cold_delivery (state, ok event) = (state, ok event)

  abbrev is_negative : ℤ → Bool
  is_negative (pos n) = false
  is_negative (negsuc n) = true

  -- The state, and the error or the event emitted.
  unfoldable pub deliver_cold_nav_plan_if_complete :
      NavAcquisitionPlan
      → ℤ
      → SimTime
      → NavigationState Store
      → NavigationState Store × Result ColdDeliveryError (Option NavigationUpdateEvent)
  deliver_cold_nav_plan_if_complete plan truth_record_index current_time navigation_state =
      if is_negative truth_record_index || not (valid_normalized_time current_time)
      then (navigation_state, err ColdDeliveryError.invalid_arguments)
      else if not (nav_acquisition_complete plan current_time)
      then (navigation_state, ok none)
      else elim (checked_record plan truth_record_index navigation_state) [
        | some e ↦ (navigation_state, err e)
        | none ↦ as_cold_delivery (
            apply_truth_navigation_record l navigation_state truth_record_index
              plan.availability_time)
      ]

-- ===== src/NavSchedule/Reception.antt =====
-- The second half of src/gnss/nav_message_scheduler.cpp: which fragments have been received by a
-- time, and the collector of fragments of one issue of data.
use Prim.Native.Nat.{bit_and, bit_or}
use gnss_data_simulator.Prelude.{
  ℕ, Bool, true, false, not, ◌&&◌, ◌||◌, ◌==◌, Option, none, some, List, [], ◌∷◌, if◌then◌else◌,
}
use gnss_data_simulator.Prelude.Int.{ℤ, pos, ltb_ℤ, leb_ℤ, eq_ℤ}
use gnss_data_simulator.Time.{SimTime, valid_normalized_time, compare_sim_time}
use gnss_data_simulator.NavSchedule.{NavAcquisitionFragment, NavAcquisitionPlan}

-- The loop over the fragments, with the mask so far.
unfoldable pub received_by : SimTime → List NavAcquisitionFragment → ℕ → ℕ
received_by now [] mask = mask
received_by now (fragment ∷ rest) mask = received_by now rest (
    if leb_ℤ (compare_sim_time fragment.completion_time now) (pos 0)
    then bit_or mask fragment.mask_bit
    else mask)

unfoldable pub nav_acquisition_received_mask : NavAcquisitionPlan → SimTime → ℕ
unfolding received_by
nav_acquisition_received_mask plan now =
    if not (valid_normalized_time now) || ltb_ℤ (compare_sim_time now plan.acquisition_time) (pos 0)
    then 0
    else received_by now plan.fragments 0

unfoldable pub nav_acquisition_complete : NavAcquisitionPlan → SimTime → Bool
nav_acquisition_complete plan now =
    not (plan.required_mask == 0)
    && bit_and (nav_acquisition_received_mask plan now) plan.required_mask == plan.required_mask

pub record NavFragmentCollector : Type 0 where
  pub required_mask : ℕ
  pub received_mask : ℕ
  pub issue_data : ℤ
  pub has_issue_data : Bool

unfoldable pub reset_nav_fragment_collector : ℕ → NavFragmentCollector
reset_nav_fragment_collector required_mask = record {
  required_mask = required_mask;
  received_mask = 0;
  issue_data = pos 0;
  has_issue_data = false;
}

-- The mask that the new fragment joins: none of another issue of data.
abbrev pub mask_of_issue : NavFragmentCollector → ℤ → ℕ
mask_of_issue collector issue_data =
    if not collector.has_issue_data || not (eq_ℤ collector.issue_data issue_data)
    then 0
    else collector.received_mask

abbrev pub collected : NavFragmentCollector → ℕ → ℤ → NavFragmentCollector
collected collector fragment_mask_bit issue_data = record {
  required_mask = collector.required_mask;
  received_mask = bit_or (mask_of_issue collector issue_data) fragment_mask_bit;
  issue_data = issue_data;
  has_issue_data = true;
}

-- `none` is refusal, and the collector stays as it was.
unfoldable pub ingest_nav_fragment :
    NavFragmentCollector → ℕ → ℤ → Option (NavFragmentCollector × Bool)
ingest_nav_fragment collector fragment_mask_bit issue_data =
    let next = collected collector fragment_mask_bit issue_data in
    if collector.required_mask == 0
      || fragment_mask_bit == 0
      || bit_and fragment_mask_bit collector.required_mask == 0
    then none
    else some (next, bit_and next.received_mask next.required_mask == next.required_mask)

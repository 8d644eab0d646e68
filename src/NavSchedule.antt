-- ===== src/NavSchedule.antt =====
-- src/gnss/nav_message_scheduler.h and the fragment arithmetic of nav_message_scheduler.cpp: the
-- slots in which a satellite repeats the parts of its ephemeris. The fixed array of fragments and its
-- count are a list and its length.
pub mod Plans
pub mod Slots
pub mod Reception
pub mod Invariant
pub mod Built
pub mod Completion
pub mod Collector
use Prim.Native.Nat.{bit_or}
use gnss_data_simulator.Prelude.{
  ℕ, ◌+◌, ◌^◌, Bool, true, false, not, ◌||◌, Option, none, some, List, [], ◌∷◌, ◌++◌, length, leb,
  if◌then◌else◌,
}
use gnss_data_simulator.Prelude.Opt.{◌>>=◌}
use gnss_data_simulator.Prelude.Int.{ℤ, pos, negsuc, ◌+ℤ◌, ◌-ℤ◌, ◌*ℤ◌, ◌%ℤ◌, ltb_ℤ, leb_ℤ}
use gnss_data_simulator.Time.{SimTime, nanoseconds_per_second, add_time_ns, compare_sim_time}
use gnss_data_simulator.Signals.{SignalId, NavMessageFamily}

abbrev pub max_nav_acquisition_fragments : ℕ
max_nav_acquisition_fragments = 12

abbrev pub bdt_from_gpst_offset_ns : ℤ
bdt_from_gpst_offset_ns = negsuc 13_999_999_999

pub data NavScheduleVariant : Type 0 where
  default beidou_d1 beidou_d2 : NavScheduleVariant

pub record NavAcquisitionFragment : Type 0 where
  pub fragment_id : ℤ
  pub mask_bit : ℕ
  pub completion_time : SimTime

pub record NavAcquisitionPlan : Type 0 where
  pub signal_id : SignalId
  pub family : NavMessageFamily
  pub variant : NavScheduleVariant
  pub acquisition_time : SimTime
  pub availability_time : SimTime
  pub issue_data : ℤ
  pub required_mask : ℕ
  pub fragments : List NavAcquisitionFragment

unfoldable pub positive_mod : ℤ → ℤ → ℤ
positive_mod value modulus =
    let result = value %ℤ modulus in if ltb_ℤ result (pos 0) then result +ℤ modulus else result

-- The wait from a phase of the cycle to the next start of the slot.
unfoldable pub delta_to_slot_start : ℤ → ℤ → ℤ → ℤ
delta_to_slot_start cycle_ns slot_start_ns cycle_phase_ns =
    let delta = slot_start_ns -ℤ cycle_phase_ns in
    if ltb_ℤ delta (pos 0) then delta +ℤ cycle_ns else delta

unfoldable pub set_fragment : SimTime → ℤ → ℤ → ℤ → ℤ → ℤ → ℕ → Option NavAcquisitionFragment
set_fragment acquisition_time cycle_ns slot_start_ns duration_ns phase_offset_ns fragment_id
      mask_bit =
    let phase = positive_mod (acquisition_time.tow_ns +ℤ phase_offset_ns) cycle_ns in
    let delta = delta_to_slot_start cycle_ns slot_start_ns phase in
    if leb_ℤ cycle_ns (pos 0)
      || ltb_ℤ slot_start_ns (pos 0)
      || leb_ℤ cycle_ns slot_start_ns
      || leb_ℤ duration_ns (pos 0)
    then none
    else do
      completion_time ← add_time_ns acquisition_time (delta +ℤ duration_ns)
      some (record {
        fragment_id = fragment_id;
        mask_bit = mask_bit;
        completion_time = completion_time;
      })

unfoldable pub update_availability_time : SimTime → SimTime → SimTime
update_availability_time availability_time completion_time =
    if ltb_ℤ (pos 0) (compare_sim_time completion_time availability_time)
    then completion_time
    else availability_time

-- The plan with one more fragment, which takes the next bit of the mask.
unfoldable pub with_fragment : NavAcquisitionPlan → NavAcquisitionFragment → NavAcquisitionPlan
with_fragment plan fragment = record plan {
  fragments = plan.fragments ++ (fragment ∷ []);
  availability_time = update_availability_time plan.availability_time fragment.completion_time;
  required_mask = bit_or plan.required_mask fragment.mask_bit;
}

-- `none` is failure, after which the callers drop the plan.
unfoldable pub add_periodic_fragment_ns :
    SimTime → ℤ → ℤ → ℤ → ℤ → ℤ → NavAcquisitionPlan → Option NavAcquisitionPlan
add_periodic_fragment_ns acquisition_time cycle_ns slot_start_ns duration_ns phase_offset_ns
      fragment_id plan =
    let count = length plan.fragments in
    if leb max_nav_acquisition_fragments count || leb 32 count then none else do
      fragment ←
          set_fragment acquisition_time cycle_ns slot_start_ns duration_ns phase_offset_ns
            fragment_id (2 ^ count)
      some (with_fragment plan fragment)

-- The same in whole seconds.
unfoldable pub add_periodic_fragment :
    SimTime → ℕ → ℕ → ℕ → ℕ → ℤ → NavAcquisitionPlan → Option NavAcquisitionPlan
add_periodic_fragment acquisition_time cycle_sec slot_start_sec duration_sec fragment_id
      phase_offset_ns =
    add_periodic_fragment_ns acquisition_time (pos cycle_sec *ℤ nanoseconds_per_second)
      (pos slot_start_sec *ℤ nanoseconds_per_second) (pos duration_sec *ℤ nanoseconds_per_second)
      phase_offset_ns (pos fragment_id)

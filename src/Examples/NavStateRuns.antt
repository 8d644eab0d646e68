-- ===== src/Examples/NavStateRuns.antt =====
-- The delivery of navigation records: the theorems at concrete inputs, and a run.
use gnss_data_simulator.Prelude.{
  ℕ, ◌≤◌, ◌≡◌, refl, Bool, true, false, Option, none, some, List, [], ◌∷◌, ◌++◌, length, get_elem?,
  if◌then◌else◌,
}
use gnss_data_simulator.Prelude.Int.{ℤ, pos, ◌+ℤ◌, ◌-ℤ◌, ◌*ℤ◌, ◌/ℤ◌, ◌%ℤ◌}
use gnss_data_simulator.Double.Milli.{Milli, num, milli_double}
use gnss_data_simulator.Time.{
  SimTime, valid_normalized_time, normalize_sim_time, checked_week_adjustment, compare_sim_time,
}
use gnss_data_simulator.Config.{StartupMode}
use gnss_data_simulator.NavState.{
  RtklibNavRecordKind, RtklibNavRecordInfo, NavLibrary, NavigationState,
  initialize_receiver_navigation, mark_transmitted, record_transmitted_at_or_before,
  sim_time_from_week_sow, apply_truth_navigation_record, deliver, find_receiver_record_index,
  find_below, same_record_identity, update_event,
}
use gnss_data_simulator.NavState.Delivery.{Once, count_events, deliveries, deliveries-Once}
use gnss_data_simulator.NavState.Cold.{
  checked_record, as_cold_delivery, deliver_cold_nav_plan_if_complete,
}
use gnss_data_simulator.NavSchedule.{NavScheduleVariant, NavAcquisitionFragment, NavAcquisitionPlan}
use gnss_data_simulator.NavSchedule.Reception.{
  nav_acquisition_complete, nav_acquisition_received_mask, received_by,
}
use gnss_data_simulator.Signals.{SignalId, NavMessageFamily}
use gnss_data_simulator.Prelude.Result.{ok}
use gnss_data_simulator.NavState.Startup.{present_at_start, initialize-announces}

-- A store is the list of its records.
abbrev Records : Type 0
Records = List (RtklibNavRecordInfo Milli)

abbrev copied : Option (RtklibNavRecordInfo Milli) → Records → Records × Bool
copied none receiver = (receiver, false)
copied (some info) receiver = (receiver ++ info ∷ [], true)

abbrev nanoseconds : Milli → Option ℤ
nanoseconds (num a) = some (a *ℤ pos 1_000_000)
nanoseconds _ = none

abbrev library : NavLibrary Records Milli
library = record {
  record_count = length;
  record_info = get_elem?;
  clear = λ records. ([], true);
  copy_snapshot = λ truth gps_week sow_sec receiver. (truth, true);
  copy_record = λ truth index receiver. copied (get_elem? truth index) receiver;
  load_rinex_nav_file = λ records path. (records, true);
  tow_ns_of = nanoseconds;
  sow_sec_of = λ tow_ns. num (tow_ns /ℤ pos 1_000_000);
}

abbrev ephemeris_at : ℕ → ℕ → RtklibNavRecordInfo Milli
ephemeris_at satellite_number milliseconds = record {
  kind = RtklibNavRecordKind.ephemeris;
  satellite_number = pos satellite_number;
  system = pos 1;
  prn = pos satellite_number;
  message_type = pos 0;
  iode = pos 10;
  iodc = pos 10;
  gps_week = pos 2300;
  transmit_sow_sec = num (pos milliseconds);
  toe_sow_sec = num (pos 7_200_000);
}

abbrev truth : Records
truth = ephemeris_at 5 30_000 ∷ ephemeris_at 9 90_000 ∷ []

abbrev time : ℕ → SimTime
time tow_ns = record { gps_week = pos 2300; tow_ns = pos tow_ns }

abbrev empty : NavigationState Records
empty = record { truth_nav = truth; receiver_nav = []; delivered_records = [] }

-- A minute into the week the first record has been transmitted.
abbrev hot : NavigationState Records
hot = record { truth_nav = truth; receiver_nav = truth; delivered_records = true ∷ false ∷ [] }

hot_lem :
    initialize_receiver_navigation library empty StartupMode.hot (time 60_000_000_000) ≡ (hot, none)
unfolding initialize_receiver_navigation mark_transmitted record_transmitted_at_or_before
    sim_time_from_week_sow normalize_sim_time checked_week_adjustment compare_sim_time
    valid_normalized_time ◌+ℤ◌ ◌-ℤ◌ ◌*ℤ◌ ◌/ℤ◌ ◌%ℤ◌
hot_lem = refl

-- The second record twice, the first, and one that is not there.
abbrev requests : List (ℤ × SimTime)
requests =
    (pos 1, time 95_000_000_000)
    ∷ (pos 0, time 96_000_000_000)
    ∷ (pos 1, time 97_000_000_000)
    ∷ (pos 7, time 98_000_000_000)
    ∷ []

deliveries-Once_example :
    Once hot.delivered_records
      (deliveries library hot requests).0.delivered_records
      (deliveries library hot requests).1
deliveries-Once_example = deliveries-Once library requests hot

initialize-announces_example :
    count_events 0 (deliveries library hot requests).1
    ≤ (if present_at_start library truth StartupMode.hot (time 60_000_000_000) 0 then 0 else 1)
initialize-announces_example =
    initialize-announces library empty hot StartupMode.hot (time 60_000_000_000) requests 0 hot_lem

announced :
    (count_events 0 (deliveries library hot requests).1 ≡ 0)
    × (count_events 1 (deliveries library hot requests).1 ≡ 1)
unfolding apply_truth_navigation_record deliver find_receiver_record_index find_below
    same_record_identity update_event sim_time_from_week_sow normalize_sim_time
    checked_week_adjustment compare_sim_time valid_normalized_time ◌+ℤ◌ ◌-ℤ◌ ◌*ℤ◌ ◌/ℤ◌ ◌%ℤ◌
announced = (refl, refl)

-- A plan with a single fragment, for the second record.
abbrev fragment : NavAcquisitionFragment
fragment = record { fragment_id = pos 1; mask_bit = 1; completion_time = time 96_000_000_000 }

abbrev plan : NavAcquisitionPlan
plan = record {
  signal_id = SignalId.gps_l1_ca;
  family = NavMessageFamily.gps_lnav;
  variant = NavScheduleVariant.default;
  acquisition_time = time 60_000_000_000;
  availability_time = time 96_000_000_000;
  issue_data = pos 10;
  required_mask = 1;
  fragments = fragment ∷ [];
}

delivered_with_the_last_fragment :
    (deliver_cold_nav_plan_if_complete library plan (pos 1) (time 95_000_000_000) hot
      ≡ (hot, ok none))
    × ((deliver_cold_nav_plan_if_complete library plan
          (pos 1)
          (time 97_000_000_000)
          hot).0.delivered_records
        ≡ true ∷ true ∷ [])
unfolding deliver_cold_nav_plan_if_complete nav_acquisition_complete nav_acquisition_received_mask
    received_by checked_record as_cold_delivery apply_truth_navigation_record deliver
    find_receiver_record_index find_below same_record_identity update_event sim_time_from_week_sow
    normalize_sim_time checked_week_adjustment compare_sim_time valid_normalized_time ◌+ℤ◌ ◌-ℤ◌ ◌*ℤ◌
    ◌/ℤ◌ ◌%ℤ◌
delivered_with_the_last_fragment = (refl, refl)

-- ===== src/Examples/ScheduleRuns.antt =====
-- The navigation schedule: the theorems at concrete inputs, and runs.
use gnss_data_simulator.Prelude.{ℕ, ◌<◌, ◌≡◌, ◌↔◌, true, false, refl, some, [], ◌∷◌, arith}
use gnss_data_simulator.Prelude.Result.{ok}
use gnss_data_simulator.Prelude.Bits.{bit}
use gnss_data_simulator.Prelude.Int.{ℤ, pos, ◌+ℤ◌, ◌-ℤ◌, ◌*ℤ◌, ◌/ℤ◌, ◌%ℤ◌, ◌≤ℤ◌, ◌<ℤ◌}
use gnss_data_simulator.Double.Milli.{Milli, milli_double}
use gnss_data_simulator.Time.{
  SimTime, add_time_ns, valid_normalized_time, normalize_sim_time, checked_week_adjustment,
  compare_sim_time,
}
use gnss_data_simulator.Time.Total.{IsNormal, total_ns}
use gnss_data_simulator.Signals.{SignalId, NavMessageFamily, find_signal_definition}
use gnss_data_simulator.NavSchedule.{
  NavAcquisitionPlan, NavAcquisitionFragment, default, set_fragment, positive_mod,
  delta_to_slot_start, add_periodic_fragment, add_periodic_fragment_ns, with_fragment,
  update_availability_time,
}
use gnss_data_simulator.NavSchedule.Slots.{set_fragment_lem, LeadsToSlot}
use gnss_data_simulator.NavSchedule.Plans.{
  build_cold_nav_acquisition_plan_with_variant, build_for_signal, build_lnav_plan, checked_plan,
}
use gnss_data_simulator.NavSchedule.Invariant.{IsPlan}
use gnss_data_simulator.NavSchedule.Built.{build_cold_nav_acquisition_plan-IsPlan}
use gnss_data_simulator.NavSchedule.Reception.{
  nav_acquisition_complete, NavFragmentCollector, reset_nav_fragment_collector, ingest_nav_fragment,
}
use gnss_data_simulator.NavSchedule.Completion.{nav_acquisition_complete_iff}
use gnss_data_simulator.NavSchedule.Collector.{
  Collects, latest_holds, reset-Collects, ingest_nav_fragment-Collects,
}

-- Seven seconds into a frame: subframes 3, 1 and 2 complete at 18, 36 and 42 seconds.
abbrev at : ℤ → SimTime
at tow = record { gps_week = pos 2300; tow_ns = tow }

abbrev fragment : ℤ → ℕ → ℤ → NavAcquisitionFragment
fragment id mask tow = record { fragment_id = id; mask_bit = mask; completion_time = at tow }

abbrev lnav : NavAcquisitionPlan
lnav = record {
  signal_id = SignalId.gps_l1_ca;
  family = NavMessageFamily.gps_lnav;
  variant = default;
  acquisition_time = at (pos 7_000_000_000);
  availability_time = at (pos 42_000_000_000);
  issue_data = pos 77;
  required_mask = 7;
  fragments =
      fragment (pos 1) 1 (pos 36_000_000_000)
      ∷ fragment (pos 2) 2 (pos 42_000_000_000)
      ∷ fragment (pos 3) 4 (pos 18_000_000_000)
      ∷ [];
}

set_lem :
    set_fragment
      (at (pos 7_000_000_000))
      (pos 30_000_000_000)
      (pos 6_000_000_000)
      (pos 6_000_000_000)
      (pos 0)
      (pos 2)
      2
    ≡ some (fragment (pos 2) 2 (pos 42_000_000_000))
unfolding set_fragment positive_mod delta_to_slot_start add_time_ns valid_normalized_time
    normalize_sim_time checked_week_adjustment ◌/ℤ◌ ◌%ℤ◌ ◌+ℤ◌ ◌-ℤ◌
set_lem = refl

builds :
    build_cold_nav_acquisition_plan_with_variant Milli SignalId.gps_l1_ca default
      (at (pos 7_000_000_000))
      (pos 77)
    ≡ ok lnav
unfolding build_cold_nav_acquisition_plan_with_variant find_signal_definition build_for_signal
    build_lnav_plan checked_plan add_periodic_fragment add_periodic_fragment_ns with_fragment
    update_availability_time compare_sim_time set_fragment positive_mod delta_to_slot_start
    add_time_ns valid_normalized_time normalize_sim_time checked_week_adjustment ◌/ℤ◌ ◌%ℤ◌ ◌+ℤ◌ ◌-ℤ◌
    ◌*ℤ◌
builds = refl

set_fragment_lem_example :
    (pos 2 ≡ pos 2)
    × (◌≡◌ {A = ℕ} 2 2)
    × IsNormal (at (pos 42_000_000_000))
    × (pos 0 <ℤ pos 6_000_000_000)
    × ((wait_ns : ℤ) × LeadsToSlot
          (at (pos 7_000_000_000))
          (pos 30_000_000_000)
          (pos 6_000_000_000)
          (pos 0)
          wait_ns
        × (total_ns (at (pos 42_000_000_000))
            ≡ total_ns (at (pos 7_000_000_000)) +ℤ (wait_ns +ℤ pos 6_000_000_000)))
set_fragment_lem_example =
    set_fragment_lem (at (pos 7_000_000_000)) (pos 30_000_000_000) (pos 6_000_000_000)
      (pos 6_000_000_000) (pos 0) (pos 2) 2 (omega arith) set_lem

build_cold_nav_acquisition_plan-IsPlan_example :
    IsPlan lnav
    × (0 < 3)
    × (lnav.signal_id ≡ SignalId.gps_l1_ca)
    × (lnav.acquisition_time ≡ at (pos 7_000_000_000))
    × (lnav.issue_data ≡ pos 77)
build_cold_nav_acquisition_plan-IsPlan_example =
    build_cold_nav_acquisition_plan-IsPlan Milli SignalId.gps_l1_ca default (at (pos 7_000_000_000))
      (pos 77) (omega arith) builds

lnav-IsPlan : IsPlan lnav
lnav-IsPlan = build_cold_nav_acquisition_plan-IsPlan_lem.0
  where
    build_cold_nav_acquisition_plan-IsPlan_lem :
        IsPlan lnav
        × (0 < 3)
        × (lnav.signal_id ≡ SignalId.gps_l1_ca)
        × (lnav.acquisition_time ≡ at (pos 7_000_000_000))
        × (lnav.issue_data ≡ pos 77)
    build_cold_nav_acquisition_plan-IsPlan_lem =
        build_cold_nav_acquisition_plan-IsPlan Milli SignalId.gps_l1_ca default
          (at (pos 7_000_000_000)) (pos 77) (omega arith) builds

nav_acquisition_complete_iff_example :
    (nav_acquisition_complete lnav (at (pos 41_000_000_000)) ≡ true)
    ↔ (total_ns (at (pos 42_000_000_000)) ≤ℤ total_ns (at (pos 41_000_000_000)))
nav_acquisition_complete_iff_example =
    nav_acquisition_complete_iff (at (pos 41_000_000_000)) (omega arith) lnav lnav-IsPlan
      (omega arith)

-- The second half of the mask 3 completes it.
abbrev half : NavFragmentCollector
half = record { required_mask = 3; received_mask = 1; issue_data = pos 5; has_issue_data = true }

first : ingest_nav_fragment (reset_nav_fragment_collector 3) 1 (pos 5) ≡ some (half, false)
unfolding ingest_nav_fragment reset_nav_fragment_collector
first = refl

second : ingest_nav_fragment half 2 (pos 5) ≡ some (record half { received_mask = 3 }, true)
unfolding ingest_nav_fragment
second = refl

half-Collects : Collects 3 half (record { mask_bit = 1; issue = pos 5 } ∷ [])
half-Collects =
    (ingest_nav_fragment-Collects 3 (reset_nav_fragment_collector 3) [] 1 (pos 5) (reset-Collects 3)
      first).0

ingest_nav_fragment-Collects_example :
    Collects 3
      (record half { received_mask = 3 })
      (record { mask_bit = 2; issue = pos 5 } ∷ record { mask_bit = 1; issue = pos 5 } ∷ [])
    × ((true ≡ true) ↔ (
        (k : ℕ)
        → bit k 3 ≡ true
        → latest_holds k
            (record { mask_bit = 2; issue = pos 5 } ∷ record { mask_bit = 1; issue = pos 5 } ∷ [])
          ≡ true))
ingest_nav_fragment-Collects_example =
    ingest_nav_fragment-Collects 3 half (record { mask_bit = 1; issue = pos 5 } ∷ []) 2 (pos 5)
      half-Collects second

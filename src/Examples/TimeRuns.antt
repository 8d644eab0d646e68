-- ===== src/Examples/TimeRuns.antt =====
-- Times: the theorems at concrete inputs, and runs.
use gnss_data_simulator.Prelude.{◌≤◌, ◌≡◌, ◌↔◌, refl, some, none, arith}
use gnss_data_simulator.Prelude.Int.{
  int64_max, ℤ, pos, negsuc, ◌+ℤ◌, ◌-ℤ◌, ◌*ℤ◌, ◌/ℤ◌, ◌%ℤ◌, ◌≤ℤ◌, ◌<ℤ◌, magnitude, IsInt64,
}
use gnss_data_simulator.Time.{
  SimTime, normalize_sim_time, add_time_ns, difference_time_ns, compare_sim_time,
  sampling_interval_ns, epoch_time_at_index, epoch_index_at_or_after, epoch_count_for_duration,
  checked_week_adjustment, valid_normalized_time, week_delta_overflows, sum_overflows,
  gps_week_nanoseconds, nanoseconds_per_second,
}
use gnss_data_simulator.Time.Total.{IsNormal, total_ns}
use gnss_data_simulator.Time.Normalize.{normalize_sim_time_iff}
use gnss_data_simulator.Time.Arithmetic.{
  add_time_ns_iff, difference_time_ns_iff, add-difference, difference-add, week_delta,
  max_week_delta,
}
use gnss_data_simulator.Time.Order.{compare_sim_time_iff}
use gnss_data_simulator.Time.Epochs.{
  sampling_interval_ns_lem, IsRate, epoch_time_at_index_iff, epoch_index_at_or_after_least,
  epoch_count_for_duration_least,
}

abbrev time : ℤ → ℤ → SimTime
time week tow = record { gps_week = week; tow_ns = tow }

-- Five seconds into week 2300, and five seconds before its end.
abbrev early : SimTime
early = time (pos 2300) (pos 5_000_000_000)

abbrev late : SimTime
late = time (pos 2300) (pos 604_795_000_000_000)

-- The first time of the next week, off the 10 Hz grid by 1 ns.
abbrev next_week : SimTime
next_week = time (pos 2301) (pos 1)

early-IsNormal : IsNormal early
early-IsNormal = omega arith

late-IsNormal : IsNormal late
late-IsNormal = omega arith

next_week-IsNormal : IsNormal next_week
next_week-IsNormal = omega arith

borrows : normalize_sim_time (pos 2301) (negsuc 4_999_999_999) ≡ some late
unfolding normalize_sim_time checked_week_adjustment ◌/ℤ◌ ◌%ℤ◌ ◌+ℤ◌ ◌-ℤ◌
borrows = refl

before_time_began : normalize_sim_time (pos 0) (negsuc 0) ≡ none
unfolding normalize_sim_time checked_week_adjustment ◌/ℤ◌ ◌%ℤ◌ ◌+ℤ◌ ◌-ℤ◌
before_time_began = refl

carries : add_time_ns late (pos 5_000_000_001) ≡ some next_week
unfolding add_time_ns valid_normalized_time normalize_sim_time checked_week_adjustment ◌/ℤ◌ ◌%ℤ◌
    ◌+ℤ◌
carries = refl

difference : difference_time_ns next_week late ≡ some (pos 5_000_000_001)
unfolding difference_time_ns valid_normalized_time week_delta_overflows sum_overflows ◌/ℤ◌ ◌*ℤ◌ ◌+ℤ◌
    ◌-ℤ◌
difference = refl

rounds_up : epoch_index_at_or_after late next_week (pos 10) ≡ some 51
unfolding epoch_index_at_or_after sampling_interval_ns difference_time_ns valid_normalized_time
    week_delta_overflows sum_overflows ◌/ℤ◌ ◌*ℤ◌ ◌+ℤ◌ ◌-ℤ◌
rounds_up = refl

ten_hertz : sampling_interval_ns (pos 10) ≡ some (pos 100_000_000)
unfolding sampling_interval_ns
ten_hertz = refl

counts : epoch_count_for_duration (pos 250_000_000) (pos 10) ≡ some 3
unfolding epoch_count_for_duration sampling_interval_ns ◌/ℤ◌ ◌+ℤ◌ ◌-ℤ◌
counts = refl

epoch : epoch_time_at_index late (pos 10) 50 ≡ some (time (pos 2301) (pos 0))
unfolding epoch_time_at_index sampling_interval_ns add_time_ns valid_normalized_time
    normalize_sim_time checked_week_adjustment ◌/ℤ◌ ◌%ℤ◌ ◌+ℤ◌ ◌*ℤ◌
epoch = refl

normalize_sim_time_iff_example :
    (normalize_sim_time (pos 2301) (negsuc 4_999_999_999) ≡ some late)
    ↔ (IsNormal late × (total_ns late ≡ pos 2301 *ℤ gps_week_nanoseconds +ℤ negsuc 4_999_999_999))
normalize_sim_time_iff_example =
    normalize_sim_time_iff (pos 2301) (negsuc 4_999_999_999) late (omega arith)

add_time_ns_iff_example : (add_time_ns late (pos 5_000_000_001) ≡ some next_week) ↔ (
    IsNormal late × IsNormal next_week × (total_ns next_week ≡ total_ns late +ℤ pos 5_000_000_001))
add_time_ns_iff_example = add_time_ns_iff late (pos 5_000_000_001) next_week (omega arith)

difference_time_ns_iff_example : (difference_time_ns next_week late ≡ some (pos 5_000_000_001)) ↔ (
    (total_ns next_week ≡ total_ns late +ℤ pos 5_000_000_001)
    × IsInt64 (pos 5_000_000_001)
    × (magnitude (week_delta next_week late) ≤ max_week_delta))
difference_time_ns_iff_example =
    difference_time_ns_iff next_week late next_week-IsNormal late-IsNormal (pos 5_000_000_001)

add-difference_example : add_time_ns late (pos 5_000_000_001) ≡ some next_week
add-difference_example =
    add-difference next_week late (pos 5_000_000_001) next_week-IsNormal late-IsNormal difference

difference-add_example : difference_time_ns next_week late ≡ some (pos 5_000_000_001)
difference-add_example =
    difference-add late next_week (pos 5_000_000_001) (omega arith) (omega arith) carries

compare_sim_time_iff_example :
    ((compare_sim_time early late ≡ negsuc 0) ↔ (total_ns early <ℤ total_ns late))
    × ((compare_sim_time early late ≡ pos 0) ↔ (early ≡ late))
    × ((compare_sim_time early late ≡ pos 1) ↔ (total_ns late <ℤ total_ns early))
compare_sim_time_iff_example = compare_sim_time_iff early late early-IsNormal late-IsNormal

sampling_interval_ns_lem_example :
    (pos 100_000_000 *ℤ pos 10 ≡ nanoseconds_per_second)
    × (pos 0 <ℤ pos 100_000_000)
    × (pos 0 <ℤ pos 10)
sampling_interval_ns_lem_example = sampling_interval_ns_lem (pos 10) (pos 100_000_000) ten_hertz

epoch_time_at_index_iff_example :
    let elapsed_ns = total_ns (time (pos 2301) (pos 0)) -ℤ total_ns late in
    (epoch_time_at_index late (pos 10) 50 ≡ some (time (pos 2301) (pos 0))) ↔ (
      IsRate (pos 10)
      × IsNormal late
      × IsNormal (time (pos 2301) (pos 0))
      × (elapsed_ns ≤ℤ int64_max)
      × (elapsed_ns *ℤ pos 10 ≡ pos 50 *ℤ nanoseconds_per_second))
epoch_time_at_index_iff_example =
    epoch_time_at_index_iff late (time (pos 2301) (pos 0)) (pos 10) 50 (omega arith)

epoch_index_at_or_after_least_example :
    (total_ns next_week ≤ℤ total_ns late +ℤ pos 60 *ℤ pos 100_000_000) ↔ (51 ≤ 60)
epoch_index_at_or_after_least_example =
    epoch_index_at_or_after_least (pos 10) 100_000_000 ten_hertz late next_week 51 60 late-IsNormal
      next_week-IsNormal rounds_up

epoch_count_for_duration_least_example : (pos 250_000_000 ≤ℤ pos 200_000_000) ↔ (3 ≤ 2)
epoch_count_for_duration_least_example =
    epoch_count_for_duration_least (pos 10) 100_000_000 ten_hertz (pos 250_000_000) 3 2 counts

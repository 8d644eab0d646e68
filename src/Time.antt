-- ===== src/Time.antt =====
-- include/gnss_sim/sim_types.h, include/gnss_sim/sim_time.h and src/core/sim_time.cpp: GPS week and
-- time of week in nanoseconds. A function that fills an output and returns a `bool` returns an
-- `Option`; its null outputs have no counterpart. `int` and `std::int64_t` values are integers.
pub mod Total
pub mod Normalize
pub mod Arithmetic
pub mod Order
pub mod Epochs
use gnss_data_simulator.Prelude.{ℕ, Bool, not, ◌&&◌, ◌||◌, Option, none, some, if◌then◌else◌, ltb}
use gnss_data_simulator.Prelude.Opt.{◌>>=◌, ◌>>◌, guard}
use gnss_data_simulator.Prelude.Int.{
  ℤ, pos, negsuc, pos_part, ◌+ℤ◌, ◌-ℤ◌, ◌*ℤ◌, ◌/ℤ◌, ◌%ℤ◌, ltb_ℤ, leb_ℤ, eq_ℤ, int_max, int64_max,
  int64_min,
}

pub record SimTime : Type 0 where
  pub gps_week : ℤ
  pub tow_ns : ℤ

abbrev pub nanoseconds_per_second : ℤ
nanoseconds_per_second = pos 1_000_000_000

abbrev pub gps_week_seconds : ℤ
gps_week_seconds = pos 604_800

abbrev pub gps_week_nanoseconds : ℤ
gps_week_nanoseconds = pos 604_800_000_000_000

unfoldable pub checked_week_adjustment : ℤ → ℤ → Option ℤ
checked_week_adjustment gps_week week_adjustment =
    let week = gps_week +ℤ week_adjustment in
    if ltb_ℤ week (pos 0) || ltb_ℤ int_max week then none else some week

unfoldable pub valid_normalized_time : SimTime → Bool
valid_normalized_time time =
    leb_ℤ (pos 0) time.gps_week
    && leb_ℤ (pos 0) time.tow_ns
    && ltb_ℤ time.tow_ns gps_week_nanoseconds

-- The end of `normalize_sim_time`, once the remainder is not negative.
with_week : ℤ → ℤ → ℤ → Option SimTime
with_week gps_week week_adjustment tow_ns = do
  week ← checked_week_adjustment gps_week week_adjustment
  some (record { gps_week = week; tow_ns = tow_ns })

unfoldable pub normalize_sim_time : ℤ → ℤ → Option SimTime
unfolding with_week
normalize_sim_time gps_week tow_ns =
    let week_adjustment = tow_ns /ℤ gps_week_nanoseconds in
    let normalized_tow_ns = tow_ns %ℤ gps_week_nanoseconds in
    if ltb_ℤ gps_week (pos 0)
    then none
    else if ltb_ℤ normalized_tow_ns (pos 0)
    then with_week gps_week (week_adjustment -ℤ pos 1) (normalized_tow_ns +ℤ gps_week_nanoseconds)
    else with_week gps_week week_adjustment normalized_tow_ns

-- Negative, zero or positive, as the first time is before, at or after the second.
unfoldable pub compare_sim_time : SimTime → SimTime → ℤ
compare_sim_time lhs rhs =
    if ltb_ℤ lhs.gps_week rhs.gps_week
    then negsuc 0
    else if ltb_ℤ rhs.gps_week lhs.gps_week
    then pos 1
    else if ltb_ℤ lhs.tow_ns rhs.tow_ns
    then negsuc 0
    else if ltb_ℤ rhs.tow_ns lhs.tow_ns
    then pos 1
    else pos 0

unfoldable pub add_time_ns : SimTime → ℤ → Option SimTime
add_time_ns time delta_ns = do
  guard (valid_normalized_time time)
  adjusted_week ← checked_week_adjustment time.gps_week (delta_ns /ℤ gps_week_nanoseconds)
  normalize_sim_time adjusted_week (time.tow_ns +ℤ delta_ns %ℤ gps_week_nanoseconds)

-- The two range tests of `difference_time_ns`.
unfoldable pub week_delta_overflows : ℤ → Bool
week_delta_overflows week_delta =
    let max_week_delta = int64_max /ℤ gps_week_nanoseconds in
    ltb_ℤ max_week_delta week_delta || ltb_ℤ week_delta (pos 0 -ℤ max_week_delta)

unfoldable pub sum_overflows : ℤ → ℤ → Bool
sum_overflows week_ns tow_delta =
    ltb_ℤ (pos 0) tow_delta && ltb_ℤ (int64_max -ℤ tow_delta) week_ns
    || ltb_ℤ tow_delta (pos 0) && ltb_ℤ week_ns (int64_min -ℤ tow_delta)

unfoldable pub difference_time_ns : SimTime → SimTime → Option ℤ
difference_time_ns lhs rhs =
    let week_delta = lhs.gps_week -ℤ rhs.gps_week in
    let week_ns = week_delta *ℤ gps_week_nanoseconds in
    let tow_delta = lhs.tow_ns -ℤ rhs.tow_ns in
    if not (valid_normalized_time lhs) || not (valid_normalized_time rhs)
    then none
    else if week_delta_overflows week_delta
    then none
    else if sum_overflows week_ns tow_delta
    then none
    else some (week_ns +ℤ tow_delta)

unfoldable pub sampling_interval_ns : ℤ → Option ℤ
sampling_interval_ns sampling_rate_hz =
    if eq_ℤ sampling_rate_hz (pos 1)
    then some (pos 1_000_000_000)
    else if eq_ℤ sampling_rate_hz (pos 5)
    then some (pos 200_000_000)
    else if eq_ℤ sampling_rate_hz (pos 10)
    then some (pos 100_000_000)
    else if eq_ℤ sampling_rate_hz (pos 20)
    then some (pos 50_000_000)
    else if eq_ℤ sampling_rate_hz (pos 50)
    then some (pos 20_000_000)
    else none

-- Epoch indices and counts are `std::uint64_t`: numbers.
unfoldable pub epoch_time_at_index : SimTime → ℤ → ℕ → Option SimTime
epoch_time_at_index start_time sampling_rate_hz epoch_index = do
  interval_ns ← sampling_interval_ns sampling_rate_hz
  let maximum_index = pos_part (int64_max /ℤ interval_ns)
  if ltb maximum_index epoch_index
      then none
      else add_time_ns start_time (pos epoch_index *ℤ interval_ns)

unfoldable pub epoch_index_at_or_after : SimTime → SimTime → ℤ → Option ℕ
epoch_index_at_or_after start_time event_time sampling_rate_hz = do
  interval_ns ← sampling_interval_ns sampling_rate_hz
  delta_ns ← difference_time_ns event_time start_time
  if leb_ℤ delta_ns (pos 0)
      then some 0
      else some (pos_part ((delta_ns -ℤ pos 1) /ℤ interval_ns +ℤ pos 1))

unfoldable pub epoch_count_for_duration : ℤ → ℤ → Option ℕ
epoch_count_for_duration duration_ns sampling_rate_hz =
    if leb_ℤ duration_ns (pos 0) then none else do
      interval_ns ← sampling_interval_ns sampling_rate_hz
      some (pos_part ((duration_ns -ℤ pos 1) /ℤ interval_ns +ℤ pos 1))

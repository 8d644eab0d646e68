-- ===== src/NavSchedule/Plans.antt =====
-- The plan builders of src/gnss/nav_message_scheduler.cpp, signal by signal. Each error message of
-- the dispatch is a constructor of `PlanError`.
use mathlib.Core.Option
use gnss_data_simulator.Prelude.{
  ℕ, zero, suc, ◌+◌, ◌*◌, Bool, true, false, not, ◌||◌, ◌==◌, Option, none, some, [], length, leb,
  if◌then◌else◌,
}
use gnss_data_simulator.Prelude.Opt.{◌>>=◌}
use gnss_data_simulator.Prelude.Result
use gnss_data_simulator.Prelude.Result.{Result, ok, err}
use gnss_data_simulator.Prelude.Int.{ℤ, pos, ◌-ℤ◌, ◌*ℤ◌}
use gnss_data_simulator.Double.{Double}
use gnss_data_simulator.Time.{SimTime, nanoseconds_per_second, valid_normalized_time}
use gnss_data_simulator.Signals.{SignalId, NavMessageFamily, find_signal_definition}
use gnss_data_simulator.NavSchedule.{
  NavAcquisitionPlan, NavScheduleVariant, default, beidou_d1, beidou_d2, add_periodic_fragment,
  add_periodic_fragment_ns, bdt_from_gpst_offset_ns,
}

abbrev pub Builder : Type 0
Builder = NavAcquisitionPlan → Option NavAcquisitionPlan

module _ (t : SimTime) where
  -- A fragment in the phase of GPS time, and one in the phase of BeiDou time.
  abbrev pub slot : ℕ → ℕ → ℕ → ℕ → Builder
  slot cycle start duration id = add_periodic_fragment t cycle start duration id (pos 0)

  abbrev pub bdt_slot : ℕ → ℕ → ℕ → ℕ → Builder
  bdt_slot cycle start duration id =
      add_periodic_fragment t cycle start duration id bdt_from_gpst_offset_ns

  unfoldable pub build_lnav_plan : Builder
  build_lnav_plan p0 = do p1 ← slot 30 0 6 1 p0; p2 ← slot 30 6 6 2 p1; slot 30 12 6 3 p2

  unfoldable pub build_cnav_plan : ℕ → Builder
  build_cnav_plan duration p0 = do
    p1 ← slot (3 * duration) 0 duration 10 p0
    p2 ← slot (3 * duration) duration duration 11 p1
    slot (3 * duration) (2 * duration) duration 30 p2

  unfoldable pub build_cnav2_plan : Builder
  build_cnav2_plan = slot 18 0 18 2

  unfoldable pub build_glonass_fdma_plan : Builder
  build_glonass_fdma_plan p0 = do
    p1 ← slot 30 0 2 1 p0
    p2 ← slot 30 2 2 2 p1
    p3 ← slot 30 4 2 3 p2
    slot 30 6 2 4 p3

  unfoldable pub build_glonass_l3oc_plan : Builder
  build_glonass_l3oc_plan p0 = do p1 ← slot 18 0 3 10 p0; p2 ← slot 18 3 3 11 p1; slot 18 6 3 12 p2

  unfoldable pub build_galileo_inav_e1_plan : Builder
  build_galileo_inav_e1_plan p0 = do
    p1 ← slot 30 1 2 2 p0
    p2 ← slot 30 3 2 4 p1
    p3 ← slot 30 21 2 1 p2
    slot 30 23 2 3 p3

  unfoldable pub build_galileo_inav_e5b_plan : Builder
  build_galileo_inav_e5b_plan p0 = do
    p1 ← slot 30 0 2 1 p0
    p2 ← slot 30 2 2 3 p1
    p3 ← slot 30 20 2 2 p2
    slot 30 22 2 4 p3

  unfoldable pub build_galileo_fnav_plan : Builder
  build_galileo_fnav_plan p0 = do
    p1 ← slot 50 0 10 1 p0
    p2 ← slot 50 10 10 2 p1
    p3 ← slot 50 20 10 3 p2
    slot 50 30 10 4 p3

  unfoldable pub build_beidou_d1_plan : Builder
  build_beidou_d1_plan p0 = do
    p1 ← bdt_slot 30 0 6 1 p0
    p2 ← bdt_slot 30 6 6 2 p1
    bdt_slot 30 12 6 3 p2

  unfoldable pub d2_page : ℕ → Builder
  d2_page page =
      add_periodic_fragment_ns t (pos 30 *ℤ nanoseconds_per_second)
        ((pos page -ℤ pos 1) *ℤ (pos 3 *ℤ nanoseconds_per_second)) (pos 600_000_000)
        bdt_from_gpst_offset_ns (pos page)

  -- The loop over the pages, with the pages that are left.
  unfoldable pub add_d2_pages : ℕ → ℕ → Builder
  add_d2_pages zero page plan = some plan
  add_d2_pages (suc left) page plan = d2_page page plan >>= add_d2_pages left (page + 1)

  unfoldable pub build_beidou_d2_plan : Builder
  unfolding add_d2_pages d2_page
  build_beidou_d2_plan = add_d2_pages 10 1

  unfoldable pub build_beidou_bcnav1_plan : Builder
  build_beidou_bcnav1_plan = bdt_slot 18 0 18 2

  unfoldable pub build_beidou_bcnav2_plan : Builder
  build_beidou_bcnav2_plan p0 = do
    p1 ← bdt_slot 9 0 3 10 p0
    p2 ← bdt_slot 9 3 3 11 p1
    bdt_slot 9 6 3 30 p2

  unfoldable pub build_beidou_bcnav3_plan : Builder
  build_beidou_bcnav3_plan p0 = do p1 ← bdt_slot 2 0 1 10 p0; bdt_slot 2 1 1 30 p1

unfoldable pub variant_is_default : NavScheduleVariant → Bool
variant_is_default default = true
variant_is_default _ = false

pub data PlanError : Type 0 where
  invalid_arguments unknown_signal cannot_build no_ephemeris_on_e6 : PlanError
  invalid_lnav_variant invalid_cnav_variant invalid_cnav2_variant : PlanError
  invalid_fdma_variant invalid_l3oc_variant invalid_inav_variant : PlanError
  invalid_fnav_variant invalid_bcnav1_variant invalid_bcnav2_variant : PlanError
  invalid_bcnav3_variant : PlanError

-- `ok` of what the builder returned, if the variant is the default.
abbrev pub plain :
    NavScheduleVariant
    → PlanError
    → Option NavAcquisitionPlan
    → Result PlanError (Option NavAcquisitionPlan)
plain variant error built = if variant_is_default variant then ok built else err error

unfoldable pub build_beidou_d1d2_plan :
    NavScheduleVariant → SimTime → NavAcquisitionPlan → Option NavAcquisitionPlan
build_beidou_d1d2_plan beidou_d2 t p = build_beidou_d2_plan t p
build_beidou_d1d2_plan _ t p = build_beidou_d1_plan t (record p { variant = beidou_d1 })

-- The switch over the signals.
unfoldable pub build_for_signal :
    SignalId
    → NavScheduleVariant
    → SimTime
    → NavAcquisitionPlan
    → Result PlanError (Option NavAcquisitionPlan)
unfolding variant_is_default
build_for_signal SignalId.gps_l1_ca v t p =
    plain v PlanError.invalid_lnav_variant (build_lnav_plan t p)
build_for_signal SignalId.gps_l2p v t p =
    plain v PlanError.invalid_lnav_variant (build_lnav_plan t p)
build_for_signal SignalId.qzss_l1_ca v t p =
    plain v PlanError.invalid_lnav_variant (build_lnav_plan t p)
build_for_signal SignalId.gps_l2c v t p =
    plain v PlanError.invalid_cnav_variant (build_cnav_plan t 12 p)
build_for_signal SignalId.qzss_l2c v t p =
    plain v PlanError.invalid_cnav_variant (build_cnav_plan t 12 p)
build_for_signal SignalId.gps_l5q v t p =
    plain v PlanError.invalid_cnav_variant (build_cnav_plan t 6 p)
build_for_signal SignalId.qzss_l5q v t p =
    plain v PlanError.invalid_cnav_variant (build_cnav_plan t 6 p)
build_for_signal SignalId.gps_l1c v t p =
    plain v PlanError.invalid_cnav2_variant (build_cnav2_plan t p)
build_for_signal SignalId.qzss_l1c v t p =
    plain v PlanError.invalid_cnav2_variant (build_cnav2_plan t p)
build_for_signal SignalId.glonass_g1 v t p =
    plain v PlanError.invalid_fdma_variant (build_glonass_fdma_plan t p)
build_for_signal SignalId.glonass_g2 v t p =
    plain v PlanError.invalid_fdma_variant (build_glonass_fdma_plan t p)
build_for_signal SignalId.glonass_g3 v t p =
    plain v PlanError.invalid_l3oc_variant (build_glonass_l3oc_plan t p)
build_for_signal SignalId.galileo_e1 v t p =
    plain v PlanError.invalid_inav_variant (build_galileo_inav_e1_plan t p)
build_for_signal SignalId.galileo_e5b v t p =
    plain v PlanError.invalid_inav_variant (build_galileo_inav_e5b_plan t p)
build_for_signal SignalId.galileo_e5a v t p =
    plain v PlanError.invalid_fnav_variant (build_galileo_fnav_plan t p)
build_for_signal SignalId.galileo_e6 v t p = err PlanError.no_ephemeris_on_e6
build_for_signal SignalId.beidou_b1i v t p = ok (build_beidou_d1d2_plan v t p)
build_for_signal SignalId.beidou_b3i v t p = ok (build_beidou_d1d2_plan v t p)
build_for_signal SignalId.beidou_b1c v t p =
    plain v PlanError.invalid_bcnav1_variant (build_beidou_bcnav1_plan t p)
build_for_signal SignalId.beidou_b2a v t p =
    plain v PlanError.invalid_bcnav2_variant (build_beidou_bcnav2_plan t p)
build_for_signal SignalId.beidou_b2b v t p =
    plain v PlanError.invalid_bcnav3_variant (build_beidou_bcnav3_plan t p)

-- The last test of the dispatch.
unfoldable pub checked_plan : Option NavAcquisitionPlan → Result PlanError NavAcquisitionPlan
checked_plan none = err PlanError.cannot_build
checked_plan (some plan) =
    if leb (length plan.fragments) 0 || plan.required_mask == 0
    then err PlanError.cannot_build
    else ok plan

-- What the code reads of the signal table here.
abbrev pub nav_family : (F : Type 0) ⦃d : Double F⦄ → SignalId → Option NavMessageFamily
nav_family F id = Option.map (λ s. s.nav_message_family) (find_signal_definition {F = F} id)

abbrev pub empty_plan :
    SignalId → NavMessageFamily → NavScheduleVariant → SimTime → ℤ → NavAcquisitionPlan
empty_plan id family variant t issue_data = record {
  signal_id = id;
  family = family;
  variant = variant;
  acquisition_time = t;
  availability_time = t;
  issue_data = issue_data;
  required_mask = 0;
  fragments = [];
}

unfoldable pub build_cold_nav_acquisition_plan_with_variant :
    (F : Type 0) ⦃d : Double F⦄
    → SignalId
    → NavScheduleVariant
    → SimTime
    → ℤ
    → Result PlanError NavAcquisitionPlan
build_cold_nav_acquisition_plan_with_variant F id variant t issue_data =
    if not (valid_normalized_time t)
    then err PlanError.invalid_arguments
    else elim (nav_family F id) [
      | none ↦ err PlanError.unknown_signal
      | some family ↦
          Result.◌>>=◌ (build_for_signal id variant t (empty_plan id family variant t issue_data))
            checked_plan
    ]

unfoldable pub build_cold_nav_acquisition_plan :
    (F : Type 0) ⦃d : Double F⦄ → SignalId → SimTime → ℤ → Result PlanError NavAcquisitionPlan
unfolding build_cold_nav_acquisition_plan_with_variant
build_cold_nav_acquisition_plan F id t issue_data =
    build_cold_nav_acquisition_plan_with_variant F id default t issue_data

-- ===== src/NavState.antt =====
-- src/gnss/navigation_state.cpp: the broadcast data that the receiver has, as the records of the truth
-- are delivered to it. The stores belong to the adapter of RTKLIB and are an interface; an operation
-- on a store gives the store as it leaves it, and whether it has succeeded. The allocation of memory
-- does not fail.
pub mod Delivery
pub mod Startup
pub mod Cold
use gnss_data_simulator.Prelude.{
  ℕ, zero, suc, Bool, true, false, not, ◌&&◌, ◌||◌, ltb, Option, none, some, List, [], ◌∷◌, length,
  get_elem?, set, if◌then◌else◌,
}
use gnss_data_simulator.Prelude.Opt.{◌>>=◌, ◌>>◌, guard}
use gnss_data_simulator.Prelude.Int.{ℤ, pos, negsuc, leb_ℤ, eq_ℤ}
use gnss_data_simulator.Prelude.Result.{Result, ok, err}
use gnss_data_simulator.Double.{Double}
use gnss_data_simulator.Time.{SimTime, compare_sim_time, normalize_sim_time, valid_normalized_time}
use gnss_data_simulator.Config.{StartupMode}
use text.Mathlib.Text.{◌==◌ as str_eq}
use Prim.Native.String.{String}

pub data RtklibNavRecordKind : Type 0 where
  ephemeris glonass_ephemeris ionosphere : RtklibNavRecordKind

abbrev pub eq_kind : RtklibNavRecordKind → RtklibNavRecordKind → Bool
eq_kind ephemeris ephemeris = true
eq_kind glonass_ephemeris glonass_ephemeris = true
eq_kind ionosphere ionosphere = true
eq_kind _ _ = false

pub record RtklibNavRecordInfo (F : Type 0) : Type 0 where
  pub kind : RtklibNavRecordKind
  pub satellite_number : ℤ
  pub system : ℤ
  pub prn : ℤ
  pub message_type : ℤ
  pub iode : ℤ
  pub iodc : ℤ
  pub gps_week : ℤ
  pub transmit_sow_sec : F
  pub toe_sow_sec : F

-- The stores. `tow_ns_of` is the product with a billion in `long double`, rounded, where it is in the
-- range of 64 bits; `sow_sec_of` is the quotient back.
pub record NavLibrary (Store F : Type 0) : Type 0 where
  pub record_count : Store → ℕ
  pub record_info : Store → ℕ → Option (RtklibNavRecordInfo F)
  pub clear : Store → Store × Bool
  pub copy_snapshot : Store → ℤ → F → Store → Store × Bool
  pub copy_record : Store → ℕ → Store → Store × Bool
  pub load_rinex_nav_file : Store → String → Store × Bool
  pub tow_ns_of : F → Option ℤ
  pub sow_sec_of : ℤ → F

pub record NavigationState (Store : Type 0) : Type 0 where
  pub truth_nav : Store
  pub receiver_nav : Store
  pub delivered_records : List Bool

pub record NavigationUpdateEvent : Type 0 where
  pub availability_time : SimTime
  pub truth_record_index : ℕ
  pub receiver_record_index : ℕ
  pub kind : RtklibNavRecordKind
  pub satellite_number : ℤ
  pub system : ℤ
  pub prn : ℤ
  pub message_type : ℤ
  pub iode : ℤ
  pub iodc : ℤ

pub data NavigationError : Type 0 where
  initialization_arguments truth_empty cannot_clear snapshot_failed : NavigationError
  load_arguments load_failed : NavigationError
  update_arguments cannot_inspect copy_failed cannot_locate consume_arguments : NavigationError

abbrev is_cold : StartupMode → Bool
is_cold StartupMode.cold = true
is_cold _ = false

-- The index of a record that the array has.
abbrev pub index_in : List Bool → ℤ → Option ℕ
index_in records (pos n) = if ltb n (length records) then some n else none
index_in records (negsuc n) = none

abbrev pub delivered_at : List Bool → ℕ → Bool
delivered_at records index = elim (get_elem? records index) [ none ↦ false | some b ↦ b ]

abbrev pub zeros : ℕ → List Bool
zeros zero = []
zeros (suc n) = false ∷ zeros n

unfoldable pub allocate_delivery_state :
    {Store : Type 0} → NavigationState Store → ℕ → NavigationState Store
allocate_delivery_state state count = record state { delivered_records = zeros count }

module _ {Store : Type 0} where
  unfoldable pub consume_truth_navigation_record_without_copy :
      NavigationState Store → ℤ → NavigationState Store × Option NavigationError
  consume_truth_navigation_record_without_copy state truth_record_index =
      elim (index_in state.delivered_records truth_record_index) [
        | none ↦ (state, some consume_arguments)
        | some index ↦
            (record state { delivered_records = set state.delivered_records index true }, none)
      ]

  unfoldable pub navigation_truth_record_delivered : NavigationState Store → ℤ → Bool
  navigation_truth_record_delivered state truth_record_index =
      elim (index_in state.delivered_records truth_record_index) [
        | none ↦ false
        | some index ↦ delivered_at state.delivered_records index
      ]

module _ {Store F : Type 0} ⦃d : Double F⦄ (library : NavLibrary Store F) where
  open library use {
    record_count, record_info, clear, copy_snapshot, copy_record, load_rinex_nav_file, tow_ns_of,
    sow_sec_of,
  }

  unfoldable pub sim_time_from_week_sow : ℤ → F → Option SimTime
  sim_time_from_week_sow gps_week sow_sec = do
    guard (leb_ℤ (pos 0) gps_week && d.is_finite sow_sec)
    tow_ns ← tow_ns_of sow_sec
    normalize_sim_time gps_week tow_ns

  unfoldable pub record_transmitted_at_or_before : Store → ℕ → SimTime → Bool
  record_transmitted_at_or_before truth_nav record_index time =
      elim (record_info truth_nav record_index) [
        | none ↦ false
        | some info ↦ elim (sim_time_from_week_sow info.gps_week info.transmit_sow_sec) [
          | none ↦ false
          | some record_time ↦ leb_ℤ (compare_sim_time record_time time) (pos 0)
        ]
      ]

  unfoldable pub same_record_identity : RtklibNavRecordInfo F → RtklibNavRecordInfo F → Bool
  same_record_identity lhs rhs =
      if not (
        eq_kind lhs.kind rhs.kind
        && eq_ℤ lhs.satellite_number rhs.satellite_number
        && eq_ℤ lhs.system rhs.system
        && eq_ℤ lhs.prn rhs.prn
        && eq_ℤ lhs.message_type rhs.message_type
        && eq_ℤ lhs.iode rhs.iode
        && eq_ℤ lhs.iodc rhs.iodc
        && eq_ℤ lhs.gps_week rhs.gps_week)
      then false
      else elim (sim_time_from_week_sow lhs.gps_week lhs.transmit_sow_sec) [
        | none ↦ false
        | some lhs_time ↦ elim (sim_time_from_week_sow rhs.gps_week rhs.transmit_sow_sec) [
          | none ↦ false
          | some rhs_time ↦ eq_ℤ (compare_sim_time lhs_time rhs_time) (pos 0)
        ]
      ]

  -- The loop, over the records below a count.
  unfoldable pub find_below : Store → RtklibNavRecordInfo F → ℕ → Option ℕ
  find_below receiver_nav source_info zero = none
  find_below receiver_nav source_info (suc index) = elim (record_info receiver_nav index) [
    | none ↦ find_below receiver_nav source_info index
    | some receiver_info ↦
        if same_record_identity source_info receiver_info
        then some index
        else find_below receiver_nav source_info index
  ]

  unfoldable pub find_receiver_record_index : Store → RtklibNavRecordInfo F → Option ℕ
  find_receiver_record_index receiver_nav source_info =
      find_below receiver_nav source_info (record_count receiver_nav)

  unfoldable pub load_truth_navigation :
      NavigationState Store → String → NavigationState Store × Option NavigationError
  load_truth_navigation state rinex_nav_path =
      let (truth_nav, loaded) = load_rinex_nav_file state.truth_nav rinex_nav_path in
      if str_eq rinex_nav_path "" then (state, some load_arguments) else (
        record {
          truth_nav = truth_nav;
          receiver_nav = (clear state.receiver_nav).0;
          delivered_records = [];
        },
        if loaded then none else some load_failed,
      )

  -- The flags of the records from an index on, `count` of them.
  unfoldable pub mark_transmitted : Store → SimTime → ℕ → List Bool → List Bool
  mark_transmitted truth_nav startup_time index [] = []
  mark_transmitted truth_nav startup_time index (flag ∷ flags) =
      (if record_transmitted_at_or_before truth_nav index startup_time then true else flag)
      ∷ mark_transmitted truth_nav startup_time (suc index) flags

  -- The state and the error: `none` is success.
  unfoldable pub initialize_receiver_navigation :
      NavigationState Store → StartupMode → SimTime → NavigationState Store × Option NavigationError
  unfolding allocate_delivery_state
  initialize_receiver_navigation state startup_mode startup_time =
      let record_count = record_count state.truth_nav in
      let allocated = allocate_delivery_state state record_count in
      if not (valid_normalized_time startup_time)
      then (state, some initialization_arguments)
      else if not (ltb 0 record_count)
      then (state, some truth_empty)
      else if is_cold startup_mode
      then (let (receiver_nav, cleared) = clear state.receiver_nav in
          (
            record allocated { receiver_nav = receiver_nav },
            if cleared then none else some cannot_clear,
          ))
      else (let (receiver_nav, copied) =
            copy_snapshot state.truth_nav startup_time.gps_week (sow_sec_of startup_time.tow_ns)
              state.receiver_nav in
          if not copied
          then (record allocated { receiver_nav = receiver_nav }, some snapshot_failed)
          else (
            record {
              truth_nav = state.truth_nav;
              receiver_nav = receiver_nav;
              delivered_records =
                  mark_transmitted state.truth_nav startup_time 0 allocated.delivered_records;
            },
            none,
          ))

  -- The event of a record that has been copied.
  unfoldable pub update_event : SimTime → ℕ → ℕ → RtklibNavRecordInfo F → NavigationUpdateEvent
  update_event availability_time truth_record_index receiver_record_index info = record {
    availability_time = availability_time;
    truth_record_index = truth_record_index;
    receiver_record_index = receiver_record_index;
    kind = info.kind;
    satellite_number = info.satellite_number;
    system = info.system;
    prn = info.prn;
    message_type = info.message_type;
    iode = info.iode;
    iodc = info.iodc;
  }

  -- The delivery of a record that the array has. No event is emitted for one that is there already.
  unfoldable pub deliver :
      NavigationState Store
      → ℕ
      → SimTime
      → NavigationState Store × Result NavigationError (Option NavigationUpdateEvent)
  deliver state truth_record_index availability_time =
      elim (record_info state.truth_nav truth_record_index) [
        | none ↦ (state, err cannot_inspect)
        | some info ↦
            let (receiver_nav, copied) =
              copy_record state.truth_nav truth_record_index state.receiver_nav in
            let next = record state { receiver_nav = receiver_nav } in
            if not copied
            then (next, err copy_failed)
            else elim (find_receiver_record_index receiver_nav info) [
              | none ↦ (next, err cannot_locate)
              | some receiver_record_index ↦ (
                record next {
                  delivered_records = set state.delivered_records truth_record_index true;
                },
                ok (
                    some (
                      update_event availability_time truth_record_index receiver_record_index
                        info)),
              )
            ]
      ]

  -- The state, and the error or the event emitted.
  unfoldable pub apply_truth_navigation_record :
      NavigationState Store
      → ℤ
      → SimTime
      → NavigationState Store × Result NavigationError (Option NavigationUpdateEvent)
  apply_truth_navigation_record state truth_record_index availability_time =
      if not (valid_normalized_time availability_time)
      then (state, err update_arguments)
      else elim (index_in state.delivered_records truth_record_index) [
        | none ↦ (state, err update_arguments)
        | some index ↦
            if delivered_at state.delivered_records index
            then (state, ok none)
            else deliver state index availability_time
      ]

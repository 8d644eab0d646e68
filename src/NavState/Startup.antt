-- ===== src/NavState/Startup.antt =====
-- What the receiver has at its start, by src/gnss/navigation_state.cpp.
use gnss_data_simulator.Prelude.{
  ℕ, zero, suc, ◌+◌, ◌≤◌, ◌≡◌, inl, inr, refl, sym, ap, subst, ◌∙◌, Bool, true, false, not, ◌&&◌,
  Bool-cases, if-split, if◌then◌else◌, ltb, Option, none, some, List, arith,
}
use gnss_data_simulator.Double.{Double}
use gnss_data_simulator.Time.{SimTime, valid_normalized_time}
use gnss_data_simulator.Config.{StartupMode}
use gnss_data_simulator.Prelude.Int.{ℤ}
use gnss_data_simulator.NavState.{
  NavLibrary, NavigationState, NavigationError, delivered_at, zeros, is_cold,
  record_transmitted_at_or_before, mark_transmitted, initialize_receiver_navigation,
}
use gnss_data_simulator.NavState.Delivery.{count_events, deliveries, deliveries-Once}

delivered_at-zeros : (n i : ℕ) → delivered_at (zeros n) i ≡ false
delivered_at-zeros zero i = refl
delivered_at-zeros (suc n) zero = refl
delivered_at-zeros (suc n) (suc i) = delivered_at-zeros n i

module _ {Store F : Type 0} ⦃d : Double F⦄ (library : NavLibrary Store F) where
  open library use {record_count}

  delivered_at-mark :
      (truth_nav : Store) (time : SimTime) (n index i : ℕ)
      → delivered_at (mark_transmitted library truth_nav time index (zeros n)) i
        ≡ (ltb i n && record_transmitted_at_or_before library truth_nav (index + i) time)
  unfolding mark_transmitted
  delivered_at-mark truth_nav time zero index i = ground arith
  delivered_at-mark truth_nav time (suc n) index zero =
      let same : index + 0 ≡ index = omega arith in
      rw same (elim (Bool-cases (record_transmitted_at_or_before library truth_nav index time)) [
        | inl e ↦ rw e (ground arith)
        | inr e ↦ rw e (ground arith)
      ])
  delivered_at-mark truth_nav time (suc n) index (suc i) =
      let same : suc index + i ≡ index + suc i = omega arith in
      delivered_at-mark truth_nav time n (suc index) i
      ∙ ap (λ (k : ℕ). ltb i n && record_transmitted_at_or_before library truth_nav k time) same
      ∙ ap
          (λ (b : Bool).
            b && record_transmitted_at_or_before library truth_nav (index + suc i) time)
          (ground arith)

  -- Whether a record is there at the start.
  abbrev pub present_at_start : Store → StartupMode → SimTime → ℕ → Bool
  present_at_start truth_nav mode time i =
      not (is_cold mode)
      && ltb i (record_count truth_nav)
      && record_transmitted_at_or_before library truth_nav i time

  -- What a start that succeeds leaves: the truth as it was, and the flags of the records that the
  -- receiver has.
  abbrev Starts :
      NavigationState Store
      → StartupMode
      → SimTime
      → NavigationState Store × Option NavigationError
      → Type 0
  Starts state mode time (next, some e) = Unit {0}
  Starts state mode time (next, none) =
      (next.truth_nav ≡ state.truth_nav)
      × ((i : ℕ)
          → delivered_at next.delivered_records i ≡ present_at_start state.truth_nav mode time i)

  cold_start :
      (state : NavigationState Store) (mode : StartupMode) (time : SimTime) (receiver_nav : Store)
      (cleared : Bool)
      → is_cold mode ≡ true
      → Starts state mode time (
        record state {
          receiver_nav = receiver_nav;
          delivered_records = zeros (record_count state.truth_nav);
        },
        if cleared then none else some NavigationError.cannot_clear,
      )
  cold_start state mode time receiver_nav false cold = tt
  cold_start state mode time receiver_nav true cold =
      (refl, λ i. delivered_at-zeros (record_count state.truth_nav) i ∙ rw cold refl)

  from_warm :
      (state : NavigationState Store) (mode : StartupMode) (time : SimTime) (i : ℕ)
      → is_cold mode ≡ false
      → (ltb i (record_count state.truth_nav)
          && record_transmitted_at_or_before library state.truth_nav (0 + i) time)
        ≡ present_at_start state.truth_nav mode time i
  from_warm state mode time i warm = let same : 0 + i ≡ i = omega arith in rw (same, warm) refl

  initialize-Starts :
      (state : NavigationState Store) (mode : StartupMode) (time : SimTime)
      → Starts state mode time (initialize_receiver_navigation library state mode time)
  unfolding initialize_receiver_navigation
  initialize-Starts state mode time =
      if-split {A = NavigationState Store × Option NavigationError} (Starts state mode time)
        (not (valid_normalized_time time)) (λ u. tt)
        (λ u.
          if-split {A = NavigationState Store × Option NavigationError} (Starts state mode time)
            (not (ltb 0 (record_count state.truth_nav))) (λ v. tt)
            (λ v.
              if-split {A = NavigationState Store × Option NavigationError} (Starts state mode time)
                (is_cold mode)
                (λ cold.
                  cold_start state mode time (library.clear state.receiver_nav).0
                    (library.clear state.receiver_nav).1 cold)
                (λ warm.
                  if-split {A = NavigationState Store × Option NavigationError}
                    (Starts state mode time)
                    (not
                      (library.copy_snapshot state.truth_nav time.gps_week
                        (library.sow_sec_of time.tow_ns) state.receiver_nav).1)
                    (λ w. tt)
                    (λ w. (
                      refl,
                      λ i.
                          delivered_at-mark state.truth_nav time (record_count state.truth_nav) 0 i
                          ∙ from_warm state mode time i warm,
                    )))))

  -- After a start that succeeds, in every sequence of requests a record that the receiver has from
  -- the start, which is one of the truth that was transmitted by then and no cold start, is never
  -- announced, and any other record at most once.
  pub initialize-announces :
      (state next : NavigationState Store) (mode : StartupMode) (time : SimTime)
      (requests : List (ℤ × SimTime)) (i : ℕ)
      → initialize_receiver_navigation library state mode time ≡ (next, none)
      → count_events i (deliveries library next requests).1
        ≤ (if present_at_start state.truth_nav mode time i then 0 else 1)
  initialize-announces state next mode time requests i e =
      let (_, present) = subst (Starts state mode time) e (initialize-Starts state mode time) in
      let here = present i in
      elim (deliveries-Once library requests next i) [
        | inl (same, none') ↦ rw none' (omega arith)
        | inr (off, on, one) ↦ rw (one, sym here ∙ off) (omega arith)
      ]

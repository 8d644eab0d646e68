-- ===== src/Tracking/Windows.antt =====
-- The phases of a tracker of src/model/signal_tracking.cpp are the windows of its schedule.
use gnss_data_simulator.Prelude.{
  ◌≤◌, ◌≡◌, ◌↔◌, ◌⊎◌, inl, inr, refl, sym, ◌∙◌, Bool, true, false, Bool-cases, arith, if◌then◌else◌,
}
use gnss_data_simulator.Prelude.Int.{
  ℤ, pos, ◌-ℤ◌, ◌≤ℤ◌, ◌<ℤ◌, ltb_ℤ, leb_ℤ, magnitude, IsInt64, int_laws,
}
use gnss_data_simulator.Time.{SimTime}
use gnss_data_simulator.Time.Total.{IsNormal, total_ns}
use gnss_data_simulator.Time.Arithmetic.{week_delta, max_week_delta}
use gnss_data_simulator.Time.Order.{compare-lt_zero}
use gnss_data_simulator.Tracking.Tracker.{SignalTrackingPhase, SignalTracker}
use gnss_data_simulator.Tracking.Update.{
  reached, while_searching, while_acquiring, while_tracking, with_lock_time, without_measurements,
  is_acquiring,
}

-- A time is before another, or the other has been reached.
pub reached-cases :
    (t x : SimTime)
    → IsNormal t
    → IsNormal x
    → ((reached t x ≡ false) × (total_ns t <ℤ total_ns x))
      ⊎ ((reached t x ≡ true) × (total_ns x ≤ℤ total_ns t))
reached-cases t x n m =
    let e = compare-lt_zero t x n m in
    elim (Bool-cases (ltb_ℤ (total_ns t) (total_ns x))) [
      | inl h ↦ inl (not_reached _ (e ∙ h), omega (int_laws, h))
      | inr h ↦ inr (is_reached _ (e ∙ h), omega (int_laws, h))
    ]
  where
    not_reached : (c : ℤ) → ltb_ℤ c (pos 0) ≡ true → leb_ℤ (pos 0) c ≡ false
    not_reached c h = ground arith

    is_reached : (c : ℤ) → ltb_ℤ c (pos 0) ≡ false → leb_ℤ (pos 0) c ≡ true
    is_reached c h = ground arith

either {ℓ κ} :
    {A : Type ℓ} (P : A → Type κ) (b : Bool) {x y : A} → P x → P y → P (if b then x else y)
either P true h k = h
either P false h k = k

module _ {F : Type 0} where
  -- A tracker with a schedule: the acquisition follows the search, and the measurements the
  -- acquisition.
  pub record IsScheduled (tracker : SignalTracker F) : Type 0 where
    pub scheduled : tracker.scheduled ≡ true
    pub since : IsNormal tracker.state_since
    pub ready : IsNormal tracker.search_ready_time
    pub complete : IsNormal tracker.acquisition_complete_time
    pub psr : IsNormal tracker.psr_valid_time
    pub doppler : IsNormal tracker.doppler_valid_time
    pub adr : IsNormal tracker.adr_valid_time
    pub start : tracker.tracking_start_time ≡ tracker.acquisition_complete_time
    pub ready_le : total_ns tracker.search_ready_time ≤ℤ total_ns tracker.acquisition_complete_time
    pub psr_ge : total_ns tracker.acquisition_complete_time ≤ℤ total_ns tracker.psr_valid_time
    pub doppler_ge :
        total_ns tracker.acquisition_complete_time ≤ℤ total_ns tracker.doppler_valid_time
    pub adr_ge : total_ns tracker.acquisition_complete_time ≤ℤ total_ns tracker.adr_valid_time

  -- The same signal and schedule.
  pub record SameSchedule (s t : SignalTracker F) : Type 0 where
    pub signal : t.signal_id ≡ s.signal_id
    pub ready : t.search_ready_time ≡ s.search_ready_time
    pub complete : t.acquisition_complete_time ≡ s.acquisition_complete_time
    pub psr : t.psr_valid_time ≡ s.psr_valid_time
    pub doppler : t.doppler_valid_time ≡ s.doppler_valid_time
    pub adr : t.adr_valid_time ≡ s.adr_valid_time

  -- The phase and the measurements of a tracker at a time, by its schedule: the three phases are
  -- windows, a measurement is valid from its time on, and the lock lasts from the acquisition on.
  pub record AtTime (tracker : SignalTracker F) (now : SimTime) : Type 0 where
    pub searching :
        (tracker.phase ≡ SignalTrackingPhase.searching)
        ↔ (total_ns now <ℤ total_ns tracker.search_ready_time)
    pub acquiring : (tracker.phase ≡ SignalTrackingPhase.acquiring) ↔ (
        (total_ns tracker.search_ready_time ≤ℤ total_ns now)
        × (total_ns now <ℤ total_ns tracker.acquisition_complete_time))
    pub tracking :
        (tracker.phase ≡ SignalTrackingPhase.tracking)
        ↔ (total_ns tracker.acquisition_complete_time ≤ℤ total_ns now)
    pub psr : (tracker.psr_valid ≡ true) ↔ (total_ns tracker.psr_valid_time ≤ℤ total_ns now)
    pub doppler :
        (tracker.doppler_valid ≡ true) ↔ (total_ns tracker.doppler_valid_time ≤ℤ total_ns now)
    pub adr : (tracker.adr_valid ≡ true) ↔ (total_ns tracker.adr_valid_time ≤ℤ total_ns now)
    pub observation : tracker.observation_available ≡ tracker.psr_valid
    pub continuity : tracker.carrier_continuity_valid ≡ tracker.adr_valid
    pub lock :
        ((total_ns now <ℤ total_ns tracker.acquisition_complete_time)
          × (tracker.lock_time_ns ≡ pos 0))
        ⊎ ((total_ns tracker.acquisition_complete_time ≤ℤ total_ns now)
            × (tracker.lock_time_ns ≡ total_ns now -ℤ total_ns tracker.acquisition_complete_time))
    pub since_le : total_ns tracker.state_since ≤ℤ total_ns now

  abbrev pub InRange : SignalTracker F → SimTime → Type 0
  InRange tracker now =
      IsInt64 (total_ns now -ℤ total_ns tracker.acquisition_complete_time)
      × (magnitude (week_delta now tracker.acquisition_complete_time) ≤ max_week_delta)

  abbrev pub Follows : SignalTracker F → SimTime → SignalTracker F → Type 0
  Follows tracker now next = IsScheduled next × SameSchedule tracker next × AtTime next now

  -- A tracker with the same schedule, and its times, still has one.
  pub SameSchedule-IsScheduled :
      (s t : SignalTracker F)
      → IsScheduled s
      → SameSchedule s t
      → t.scheduled ≡ true
      → t.tracking_start_time ≡ s.tracking_start_time
      → IsNormal t.state_since
      → IsScheduled t
  SameSchedule-IsScheduled s t i k on start since = record {
    scheduled = on;
    since = since;
    ready = rw (k.ready) (i.ready);
    complete = rw (k.complete) (i.complete);
    psr = rw (k.psr) (i.psr);
    doppler = rw (k.doppler) (i.doppler);
    adr = rw (k.adr) (i.adr);
    start = start ∙ i.start ∙ sym k.complete;
    ready_le = rw (k.ready, k.complete) (i.ready_le);
    psr_ge = rw (k.psr, k.complete) (i.psr_ge);
    doppler_ge = rw (k.doppler, k.complete) (i.doppler_ge);
    adr_ge = rw (k.adr, k.complete) (i.adr_ge);
  }

  module _ (tracker : SignalTracker F) (now : SimTime) (i : IsScheduled tracker) (n : IsNormal now)
      (le : total_ns tracker.state_since ≤ℤ total_ns now) where
    pub searching-Follows :
        total_ns now <ℤ total_ns tracker.search_ready_time
        → Follows tracker now (while_searching tracker)
    unfolding while_searching without_measurements
    searching-Follows h =
        let ready_le = i.ready_le in
        let psr_ge = i.psr_ge in
        let doppler_ge = i.doppler_ge in
        let adr_ge = i.adr_ge in
        let same : SameSchedule tracker (while_searching tracker) = record {
          signal = refl;
          ready = refl;
          complete = refl;
          psr = refl;
          doppler = refl;
          adr = refl;
        } in
        (
          SameSchedule-IsScheduled tracker _ i same i.scheduled refl i.since,
          same,
          record {
            searching = (λ e. h, λ e. refl);
            acquiring = (λ e. absurd (ground arith), λ e. absurd (omega arith));
            tracking = (λ e. absurd (ground arith), λ e. absurd (omega arith));
            psr = (λ e. absurd (ground arith), λ e. absurd (omega arith));
            doppler = (λ e. absurd (ground arith), λ e. absurd (omega arith));
            adr = (λ e. absurd (ground arith), λ e. absurd (omega arith));
            observation = refl;
            continuity = refl;
            lock = inl (omega arith, refl);
            since_le = le;
          },
        )

    pub acquiring-Follows :
        total_ns tracker.search_ready_time ≤ℤ total_ns now
        → total_ns now <ℤ total_ns tracker.acquisition_complete_time
        → Follows tracker now (while_acquiring tracker)
    unfolding while_acquiring without_measurements
    acquiring-Follows r h =
        let psr_ge = i.psr_ge in
        let doppler_ge = i.doppler_ge in
        let adr_ge = i.adr_ge in
        let same : SameSchedule tracker (while_acquiring tracker) = record {
          signal = refl;
          ready = refl;
          complete = refl;
          psr = refl;
          doppler = refl;
          adr = refl;
        } in
        (
          SameSchedule-IsScheduled tracker _ i same i.scheduled refl
              (either IsNormal (is_acquiring tracker.phase) i.since i.ready),
          same,
          record {
            searching = (λ e. absurd (ground arith), λ e. absurd (omega arith));
            acquiring = (λ e. (r, h), λ e. refl);
            tracking = (λ e. absurd (ground arith), λ e. absurd (omega arith));
            psr = (λ e. absurd (ground arith), λ e. absurd (omega arith));
            doppler = (λ e. absurd (ground arith), λ e. absurd (omega arith));
            adr = (λ e. absurd (ground arith), λ e. absurd (omega arith));
            observation = refl;
            continuity = refl;
            lock = inl (h, refl);
            since_le = either (λ x. total_ns x ≤ℤ total_ns now) (is_acquiring tracker.phase) le r;
          },
        )

    -- A flag that tells whether a time has been reached tells whether its total has been passed.
    reached_iff : (x : SimTime) → IsNormal x → (reached now x ≡ true) ↔ (total_ns x ≤ℤ total_ns now)
    reached_iff x m = elim (reached-cases now x n m) [
      | inl (e, h) ↦ (λ f. ground arith, λ f. absurd (omega arith))
      | inr (e, h) ↦ (λ f. h, λ f. e)
    ]

    pub tracking-Follows :
        total_ns tracker.acquisition_complete_time ≤ℤ total_ns now
        → Follows tracker now (
            with_lock_time now
              (total_ns now -ℤ total_ns tracker.acquisition_complete_time)
              (while_tracking tracker))
    unfolding while_tracking with_lock_time
    tracking-Follows c =
        let ready_le = i.ready_le in
        let same : SameSchedule tracker (
            with_lock_time now (total_ns now -ℤ total_ns tracker.acquisition_complete_time)
              (while_tracking tracker)) =
          record {
            signal = refl;
            ready = refl;
            complete = refl;
            psr = refl;
            doppler = refl;
            adr = refl;
          } in
        (
          SameSchedule-IsScheduled tracker _ i same i.scheduled refl (rw (i.start) (i.complete)),
          same,
          record {
            searching = (λ e. absurd (ground arith), λ e. absurd (omega arith));
            acquiring = (λ e. absurd (ground arith), λ e. absurd (omega arith));
            tracking = (λ e. c, λ e. refl);
            psr = reached_iff tracker.psr_valid_time i.psr;
            doppler = reached_iff tracker.doppler_valid_time i.doppler;
            adr = reached_iff tracker.adr_valid_time i.adr;
            observation = refl;
            continuity = refl;
            lock = inr (c, refl);
            since_le = rw (i.start) c;
          },
        )

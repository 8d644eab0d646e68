-- ===== src/Tracking/Urban/Coherence.antt =====
-- The invariant of the trackers is kept by every update of src/model/urban_signal_tracking.cpp, and
-- every tracker that the functions of the two files can make satisfies it.
use gnss_data_simulator.Prelude.{
  ◌≡◌, ◌∙◌, refl, inl, inr, Bool, true, false, not, ◌&&◌, if-split, Option-cases, Option, none,
  some, arith,
}
use gnss_data_simulator.Prelude.Int.{pos, ltb_ℤ}
use gnss_data_simulator.Prelude.Result.{Result-cases}
use gnss_data_simulator.Double.{Double, nought}
use gnss_data_simulator.Time.{SimTime, compare_sim_time}
use gnss_data_simulator.CodeTracking.{CodeTrackingDllRoot, CodeTrackingDllSelectionMode}
use gnss_data_simulator.Tracking.Tracker.{
  SignalTrackingPhase, SignalTrackingLossReason, SignalTrackingModelConfig, SignalTracker,
}
use gnss_data_simulator.Tracking.Urban.{
  UrbanSignalTrackingInput, UrbanError, locked, elapsed_at_least, select_root,
}
use gnss_data_simulator.Tracking.Urban.Update.{
  with_current_root, with_previous_root, enter_tracking, validity_times,
  update_acquisition_qualification, update_tracking_validity,
}
use gnss_data_simulator.Tracking.Urban.Step.{
  while_unscheduled, then_classified, conclude_acquisition, while_acquiring, while_not_locked, lose,
  keep_lock, below_since, while_weak, jumps, follow_root, while_locked, urban_step, urban_refused,
  started, update_urban_signal_tracker,
}
use gnss_data_simulator.Tracking.Update.{reached}
use gnss_data_simulator.Tracking.Urban.Invariant.{
  IsCoherent, classified-IsCoherent, while_unavailable-IsCoherent, tracking_entered-IsCoherent,
  cleared-IsCoherent, unlocked-IsCoherent, with_current_root-IsCoherent,
  with_previous_root-IsCoherent, begin_tracking_loss-IsCoherent, above_since-IsCoherent,
  above_since_keeps, update_tracking_validity-IsCoherent, reset_below-IsCoherent,
  below_since-IsCoherent,
}

module _ {F : Type 0} ⦃d : Double F⦄ where
  pub unlocked_lem :
      (t : SignalTracker F)
      → IsCoherent t
      → ((not (locked t)) ≡ true → t.has_tracking_lock ≡ false)
        × ((not (locked t)) ≡ false → t.has_tracking_lock ≡ true)
  unlocked_lem t c = (λ h. ground arith, λ h. ground arith)

  module _ (now : SimTime) (input : UrbanSignalTrackingInput F)
      (config : SignalTrackingModelConfig F) where
    -- What a step leaves, whether it fails or not.
    abbrev pub Coherent : SignalTracker F × Option UrbanError → Type 0
    Coherent r = IsCoherent r.0

    then_classified-IsCoherent :
        (r : SignalTracker F × Option UrbanError)
        → Coherent r
        → Coherent (then_classified now input config r)
    unfolding then_classified
    then_classified-IsCoherent (t, none) c = classified-IsCoherent now input config t c
    then_classified-IsCoherent (t, some e) c = c

    lose-IsCoherent :
        (t : SignalTracker F) (reason : SignalTrackingLossReason)
        → Coherent (lose now input config t reason)
    unfolding lose
    lose-IsCoherent t reason =
        classified-IsCoherent now input config _ (begin_tracking_loss-IsCoherent t now reason)

    keep_lock-IsCoherent :
        (t : SignalTracker F) (root : CodeTrackingDllRoot F)
        → IsCoherent t
        → t.has_tracking_lock ≡ true
        → Coherent (keep_lock now input config t root)
    unfolding keep_lock with_previous_root
    keep_lock-IsCoherent t root c h =
        then_classified-IsCoherent (update_tracking_validity (with_previous_root root t) now) (
          update_tracking_validity-IsCoherent (with_previous_root root t) now
            (with_previous_root-IsCoherent root t c h) h)

    while_weak-IsCoherent :
        (t : SignalTracker F) (root : CodeTrackingDllRoot F)
        → IsCoherent t
        → t.has_tracking_lock ≡ true
        → Coherent (while_weak now input config t root)
    unfolding while_weak
    while_weak-IsCoherent t root c h =
        elim (Option-cases (
          elapsed_at_least now t.below_tracking_threshold_since
            config.tracking_loss_cn0_persistence_ns)) [
              | inl e ↦ rw (e, while_weak) c
              | inr (b, e) ↦
                  rw (e, while_weak)
                    (if-split {A = SignalTracker F × Option UrbanError} Coherent b
                      (λ u. lose-IsCoherent t SignalTrackingLossReason.low_cn0)
                      (λ u. keep_lock-IsCoherent t root c h))
            ]

    follow_root-IsCoherent :
        (t : SignalTracker F) (root : CodeTrackingDllRoot F)
        → IsCoherent t
        → t.has_tracking_lock ≡ true
        → Coherent (follow_root now input config t root)
    unfolding follow_root
    follow_root-IsCoherent t root c h =
        let (weak, locked) = below_since-IsCoherent now input config t c h in
        if-split {A = SignalTracker F × Option UrbanError} Coherent (jumps now input config t root)
          (λ u. lose-IsCoherent t SignalTrackingLossReason.abrupt_dll_root_switch)
          (λ u.
            if-split {A = SignalTracker F × Option UrbanError} Coherent
              (d.lt input.effective_cn0_dbhz config.minimum_tracking_cn0_dbhz)
              (λ v. while_weak-IsCoherent (below_since now input config t) root weak locked)
              (λ v.
                keep_lock-IsCoherent (record t { below_tracking_threshold_active = false }) root
                  (reset_below-IsCoherent t c) h))

    while_locked-IsCoherent :
        (t : SignalTracker F)
        → IsCoherent t
        → t.has_tracking_lock ≡ true
        → Coherent (while_locked now input config t)
    unfolding while_locked with_current_root
    while_locked-IsCoherent t c h =
        elim (Result-cases
          (select_root input CodeTrackingDllSelectionMode.tracked t.previous_dll_code_phase_sec)) [
            | inl (e, f) ↦ rw (f, while_locked) c
            | inr (none, f) ↦
                rw (f, while_locked) (lose-IsCoherent t SignalTrackingLossReason.no_stable_dll_root)
            | inr (some root, f) ↦
                rw (f, while_locked)
                  (follow_root-IsCoherent (with_current_root root t) root
                    (with_current_root-IsCoherent root t c) h)
          ]

    qualification-IsCoherent :
        (t : SignalTracker F)
        → IsCoherent t
        → t.has_tracking_lock ≡ false
        → t.scheduled ≡ true
        → IsCoherent (update_acquisition_qualification t now input config).0
          × ((update_acquisition_qualification t now input config).0.has_tracking_lock ≡ false)
          × ((update_acquisition_qualification t now input config).0.scheduled ≡ true)
    unfolding update_acquisition_qualification
    qualification-IsCoherent t c h k =
        if-split {A = SignalTracker F × Option Bool}
          (λ r. IsCoherent r.0 × (r.0.has_tracking_lock ≡ false) × (r.0.scheduled ≡ true))
          (d.lt input.effective_cn0_dbhz config.acquisition_cn0_threshold_dbhz)
          (λ u. (below_threshold t c, h, k))
          (λ u.
            let (same, on) = above_since_keeps t now in
            (above_since-IsCoherent t now c, same ∙ h, on ∙ k))
      where
        below_threshold :
            (t : SignalTracker F)
            → IsCoherent t
            → IsCoherent (record t { above_acquisition_threshold_active = false })
        below_threshold t c = ground arith

    enter_tracking-IsCoherent :
        (t : SignalTracker F) (root : CodeTrackingDllRoot F)
        → IsCoherent t
        → t.scheduled ≡ true
        → Coherent (enter_tracking t now config root)
    unfolding enter_tracking
    enter_tracking-IsCoherent t root c k = elim (Option-cases (validity_times now config)) [
      | inl e ↦ rw (e, enter_tracking) c
      | inr (times, e) ↦ rw (e, enter_tracking) (tracking_entered-IsCoherent t now times root k)
    ]

    conclude_acquisition-IsCoherent :
        (t : SignalTracker F) (b : Bool) (r : Option (CodeTrackingDllRoot F))
        → IsCoherent t
        → t.scheduled ≡ true
        → Coherent (conclude_acquisition now input config t b r)
    unfolding conclude_acquisition with_current_root
    conclude_acquisition-IsCoherent t b none c k =
        classified-IsCoherent now input config _ (cleared-IsCoherent t c)
    conclude_acquisition-IsCoherent t b (some root) c k =
        let current = with_current_root root t in
        let c' = with_current_root-IsCoherent root t c in
        if-split {A = SignalTracker F × Option UrbanError} Coherent
          (b && reached now t.acquisition_complete_time)
          (λ u.
            then_classified-IsCoherent (enter_tracking current now config root)
              (enter_tracking-IsCoherent current root c' k))
          (λ u. classified-IsCoherent now input config _ (cleared-IsCoherent current c'))

    while_acquiring-IsCoherent :
        (t : SignalTracker F)
        → IsCoherent t
        → t.has_tracking_lock ≡ false
        → t.scheduled ≡ true
        → Coherent (while_acquiring now input config t)
    unfolding while_acquiring
    while_acquiring-IsCoherent t c h k =
        let acquiring = record t { phase = SignalTrackingPhase.acquiring } in
        let (c', h', k') =
          qualification-IsCoherent acquiring
            (unlocked-IsCoherent t SignalTrackingPhase.acquiring
              t.above_acquisition_threshold_active c h refl)
            h k in
        let next = (update_acquisition_qualification acquiring now input config).0 in
        elim (Option-cases ((update_acquisition_qualification acquiring now input config).1)) [
          | inl e ↦ rw (e, while_acquiring) c'
          | inr (b, e) ↦
              elim (Result-cases
                (select_root input CodeTrackingDllSelectionMode.acquisition nought)) [
                  | inl (f, g) ↦ rw (e, g, while_acquiring) c'
                  | inr (root, g) ↦
                      rw (e, g, while_acquiring) (conclude_acquisition-IsCoherent next b root c' k')
                ]
        ]

    while_not_locked-IsCoherent :
        (t : SignalTracker F)
        → IsCoherent t
        → t.has_tracking_lock ≡ false
        → t.scheduled ≡ true
        → Coherent (while_not_locked now input config t)
    unfolding while_not_locked
    while_not_locked-IsCoherent t c h k =
        if-split {A = SignalTracker F × Option UrbanError} Coherent
          (ltb_ℤ (compare_sim_time now t.search_ready_time) (pos 0))
          (λ u. classified-IsCoherent now input config _ (
            cleared-IsCoherent _
              (unlocked-IsCoherent t SignalTrackingPhase.searching false c h refl)))
          (λ u. while_acquiring-IsCoherent t c h k)

    while_unscheduled-IsCoherent :
        (t : SignalTracker F)
        → IsCoherent t
        → t.scheduled ≡ false
        → Coherent (while_unscheduled now input config t)
    unfolding while_unscheduled
    while_unscheduled-IsCoherent t c k =
        if-split {A = SignalTracker F × Option UrbanError} Coherent (not t.reacquisition_pending)
          (λ u. c)
          (λ u. classified-IsCoherent now input config _ (
            cleared-IsCoherent _ (
              unlocked-IsCoherent t SignalTrackingPhase.searching
                t.above_acquisition_threshold_active c (no_lock t c k) refl)))
      where
        no_lock :
            (t : SignalTracker F) → IsCoherent t → t.scheduled ≡ false → t.has_tracking_lock ≡ false
        no_lock t c k = ground arith

    urban_step-IsCoherent :
        (t : SignalTracker F)
        → IsCoherent t
        → t.reacquisition_event ≡ false
        → Coherent (urban_step now input config t)
    unfolding urban_step
    urban_step-IsCoherent t c e =
        if-split {A = SignalTracker F × Option UrbanError} Coherent (not input.signal_available)
          (λ u.
            classified-IsCoherent now input config _
              (while_unavailable-IsCoherent now input config t e))
          (λ u.
            if-split {A = SignalTracker F × Option UrbanError} Coherent (not t.scheduled)
              (λ v. while_unscheduled-IsCoherent t c (ground arith))
              (λ v.
                if-split {A = SignalTracker F × Option UrbanError} Coherent (not (locked t))
                  (λ w. while_not_locked-IsCoherent t c ((unlocked_lem t c).0 w) (ground arith))
                  (λ w. while_locked-IsCoherent t c ((unlocked_lem t c).1 w))))

    pub started-IsCoherent :
        (t : SignalTracker F) → IsCoherent t → IsCoherent (started now input config t)
    unfolding started
    started-IsCoherent t c = ground arith

    pub update-IsCoherent :
        (t : SignalTracker F)
        → IsCoherent t
        → Coherent (update_urban_signal_tracker now input config t)
    unfolding update_urban_signal_tracker started
    update-IsCoherent t c =
        if-split {A = SignalTracker F × Option UrbanError} Coherent
          (urban_refused now input config t) (λ u. c)
          (λ u.
            if-split {A = SignalTracker F × Option UrbanError} Coherent
              (ltb_ℤ (compare_sim_time now t.state_since) (pos 0)) (λ v. c)
              (λ v.
                urban_step-IsCoherent (started now input config t) (started-IsCoherent t c) refl))

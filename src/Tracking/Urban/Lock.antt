-- ===== src/Tracking/Urban/Lock.antt =====
-- When an update of src/model/urban_signal_tracking.cpp gains and loses the lock.
use gnss_data_simulator.Prelude.{
  ◌≡◌, ◌∙◌, refl, sym, subst, inl, inr, Bool, true, false, Bool-cases, if-split, if◌then◌else◌,
  Option-cases, Option, none, some, arith,
}
use gnss_data_simulator.Prelude.Int.{pos, ltb_ℤ}
use gnss_data_simulator.Prelude.Result.{ok, Result-cases}
use gnss_data_simulator.Double.{Double, nought}
use gnss_data_simulator.Time.{SimTime, difference_time_ns}
use gnss_data_simulator.CodeTracking.{CodeTrackingDllRoot, CodeTrackingDllSelectionMode}
use gnss_data_simulator.Tracking.Tracker.{
  SignalTrackingPhase, SignalTrackingLossReason, SignalTrackingModelConfig, SignalTracker,
}
use gnss_data_simulator.Tracking.Urban.{
  UrbanSignalTrackingInput, UrbanError, locked, elapsed_at_least, select_root,
  update_direct_classification, begin_tracking_loss,
}
use gnss_data_simulator.Tracking.Urban.Update.{
  with_current_root, with_previous_root, above_since, update_acquisition_qualification,
  update_tracking_validity,
}
use gnss_data_simulator.Tracking.Urban.Step.{
  classified, while_unavailable, then_classified, lose, keep_lock, below_since, while_weak, jumps,
  follow_root, while_locked,
}
use gnss_data_simulator.Tracking.Update.{reached}
use gnss_data_simulator.Tracking.Urban.Invariant.{IsCoherent, above_since_keeps}
use gnss_data_simulator.Tracking.Schedule.{is_reacquisition}

module _ {F : Type 0} ⦃d : Double F⦄ (now : SimTime) (input : UrbanSignalTrackingInput F)
    (config : SignalTrackingModelConfig F) where
  open d use {lt}

  -- Since when the CN0 is above the threshold of the acquisition, or below that of tracking, where
  -- it is now.
  abbrev pub above_start : SignalTracker F → SimTime
  above_start t =
      if t.above_acquisition_threshold_active then t.above_acquisition_threshold_since else now

  abbrev pub below_start : SignalTracker F → SimTime
  below_start t =
      if t.below_tracking_threshold_active then t.below_tracking_threshold_since else now

  -- Why a lock is lost.
  pub data LossCause (t : SignalTracker F) : SignalTrackingLossReason → Type 0 where
    unavailable :
        input.signal_available ≡ false → LossCause t SignalTrackingLossReason.signal_unavailable
    no_root :
        select_root input CodeTrackingDllSelectionMode.tracked t.previous_dll_code_phase_sec
          ≡ ok none
        → LossCause t SignalTrackingLossReason.no_stable_dll_root
    jump :
        (root : CodeTrackingDllRoot F)
        → select_root input CodeTrackingDllSelectionMode.tracked t.previous_dll_code_phase_sec
          ≡ ok (some root)
        → jumps now input config t root ≡ true
        → LossCause t SignalTrackingLossReason.abrupt_dll_root_switch
    weak :
        lt input.effective_cn0_dbhz config.minimum_tracking_cn0_dbhz ≡ true
        → elapsed_at_least now (below_start t) config.tracking_loss_cn0_persistence_ns ≡ some true
        → LossCause t SignalTrackingLossReason.low_cn0

  -- What can happen to the lock.
  pub data LockChange (t u : SignalTracker F) : Type 0 where
    kept : u.has_tracking_lock ≡ t.has_tracking_lock → LockChange t u
    gained :
        (root : CodeTrackingDllRoot F)
        → t.has_tracking_lock ≡ false
        → u.has_tracking_lock ≡ true
        → input.signal_available ≡ true
        → t.scheduled ≡ true
        → lt input.effective_cn0_dbhz config.acquisition_cn0_threshold_dbhz ≡ false
        → elapsed_at_least now (above_start t) config.acquisition_cn0_persistence_ns ≡ some true
        → select_root input CodeTrackingDllSelectionMode.acquisition nought ≡ ok (some root)
        → reached now t.acquisition_complete_time ≡ true
        → u.reacquisition_event ≡ is_reacquisition t.acquisition_context
        → LockChange t u
    lost :
        t.has_tracking_lock ≡ true
        → u.has_tracking_lock ≡ false
        → LossCause t u.loss_reason
        → LockChange t u

  pub while_unavailable-LockChange :
      (t : SignalTracker F)
      → IsCoherent t
      → input.signal_available ≡ false
      → LockChange t (while_unavailable now input config t)
  unfolding while_unavailable
  while_unavailable-LockChange t c off = elim (Bool-cases t.has_tracking_lock) [
    | inr e ↦ kept (sym e)
    | inl e ↦
        lost e refl (
          if-split (LossCause t) (locked t) (λ l. unavailable off)
            (λ l. absurd (locked_of t c e l)))
  ]
    where
      locked_of :
          (t : SignalTracker F) → IsCoherent t → t.has_tracking_lock ≡ true → locked t ≡ false → ⊥
      locked_of t c e l = ground arith

  lose-LockChange :
      (t s : SignalTracker F) (reason : SignalTrackingLossReason)
      → t.has_tracking_lock ≡ true
      → LossCause t reason
      → LockChange t (lose now input config s reason).0
  unfolding lose classified update_direct_classification begin_tracking_loss
  lose-LockChange t s reason e cause = lost e refl cause

  validity_keeps :
      (s : SignalTracker F)
      → (update_tracking_validity s now).0.has_tracking_lock ≡ s.has_tracking_lock
  unfolding update_tracking_validity
  validity_keeps s = elim (Option-cases (difference_time_ns now s.tracking_start_time)) [
    | inl f ↦ rw (f, update_tracking_validity) refl
    | inr (lock, f) ↦
        rw (f, update_tracking_validity)
          (if-split {A = SignalTracker F × Option UrbanError}
            (λ r. r.0.has_tracking_lock ≡ s.has_tracking_lock) (ltb_ℤ lock (pos 0)) (λ u. refl)
            (λ u. refl))
  ]

  pub then_classified_keeps :
      (r : SignalTracker F × Option UrbanError)
      → ((then_classified now input config r).0.has_tracking_lock ≡ r.0.has_tracking_lock)
        × ((then_classified now input config r).0.reacquisition_event ≡ r.0.reacquisition_event)
  unfolding then_classified classified update_direct_classification
  then_classified_keeps (s, none) = (refl, refl)
  then_classified_keeps (s, some e) = (refl, refl)

  keep_lock-LockChange :
      (t s : SignalTracker F) (root : CodeTrackingDllRoot F)
      → s.has_tracking_lock ≡ t.has_tracking_lock
      → LockChange t (keep_lock now input config s root).0
  unfolding keep_lock with_previous_root
  keep_lock-LockChange t s root e = kept (
      (then_classified_keeps (update_tracking_validity (with_previous_root root s) now)).0
      ∙ validity_keeps (with_previous_root root s)
      ∙ e)

  below_since_keeps :
      (s : SignalTracker F)
      → ((below_since now input config s).has_tracking_lock ≡ s.has_tracking_lock)
        × ((below_since now input config s).below_tracking_threshold_since ≡ below_start s)
  unfolding below_since
  below_since_keeps s = elim (Bool-cases s.below_tracking_threshold_active) [
    | inl e ↦ ground (arith, e)
    | inr e ↦ ground (arith, e)
  ]

  while_weak-LockChange :
      (t s : SignalTracker F) (root : CodeTrackingDllRoot F)
      → t.has_tracking_lock ≡ true
      → s.has_tracking_lock ≡ t.has_tracking_lock
      → s.below_tracking_threshold_since ≡ below_start t
      → lt input.effective_cn0_dbhz config.minimum_tracking_cn0_dbhz ≡ true
      → LockChange t (while_weak now input config s root).0
  unfolding while_weak
  while_weak-LockChange t s root e same since low =
      elim (Option-cases (
        elapsed_at_least now s.below_tracking_threshold_since
          config.tracking_loss_cn0_persistence_ns)) [
            | inl f ↦ rw (f, while_weak) (kept same)
            | inr (true, f) ↦
                rw (f, while_weak)
                  (lose-LockChange t s SignalTrackingLossReason.low_cn0 e (
                    weak low (
                      subst
                        (λ x.
                          elapsed_at_least now x config.tracking_loss_cn0_persistence_ns
                          ≡ some true)
                        since f)))
            | inr (false, f) ↦ rw (f, while_weak) (keep_lock-LockChange t s root same)
          ]

  follow_root-LockChange :
      (t : SignalTracker F) (root : CodeTrackingDllRoot F)
      → select_root input CodeTrackingDllSelectionMode.tracked t.previous_dll_code_phase_sec
        ≡ ok (some root)
      → t.has_tracking_lock ≡ true
      → LockChange t (follow_root now input config (with_current_root root t) root).0
  unfolding follow_root with_current_root
  follow_root-LockChange t root found e =
      let s = with_current_root root t in
      let (same, since) = below_since_keeps s in
      if-split {A = SignalTracker F × Option UrbanError} (λ r. LockChange t r.0)
        (jumps now input config t root)
        (λ u.
          lose-LockChange t s SignalTrackingLossReason.abrupt_dll_root_switch e (jump root found u))
        (λ u.
          if-split {A = SignalTracker F × Option UrbanError} (λ r. LockChange t r.0)
            (lt input.effective_cn0_dbhz config.minimum_tracking_cn0_dbhz)
            (λ v. while_weak-LockChange t (below_since now input config s) root e same since v)
            (λ v.
              keep_lock-LockChange t (record s { below_tracking_threshold_active = false }) root
                refl))

  pub while_locked-LockChange :
      (t : SignalTracker F)
      → t.has_tracking_lock ≡ true
      → LockChange t (while_locked now input config t).0
  unfolding while_locked
  while_locked-LockChange t e =
      elim (Result-cases
        (select_root input CodeTrackingDllSelectionMode.tracked t.previous_dll_code_phase_sec)) [
          | inl (error, f) ↦ rw (f, while_locked) (kept refl)
          | inr (none, f) ↦
              rw (f, while_locked)
                (lose-LockChange t t SignalTrackingLossReason.no_stable_dll_root e (no_root f))
          | inr (some root, f) ↦ rw (f, while_locked) (follow_root-LockChange t root f e)
        ]

  above_since_lem :
      (s : SignalTracker F) → (above_since s now).above_acquisition_threshold_since ≡ above_start s
  unfolding above_since
  above_since_lem s = elim (Bool-cases s.above_acquisition_threshold_active) [
    | inl e ↦ ground (arith, e)
    | inr e ↦ ground (arith, e)
  ]

  -- What the qualification leaves alone, and when it is given.
  pub record Qualifies (t : SignalTracker F) (r : SignalTracker F × Option Bool) : Type 0 where
    pub lock : r.0.has_tracking_lock ≡ t.has_tracking_lock
    pub complete : r.0.acquisition_complete_time ≡ t.acquisition_complete_time
    pub context : r.0.acquisition_context ≡ t.acquisition_context
    pub strong :
        r.1 ≡ some true
        → (lt input.effective_cn0_dbhz config.acquisition_cn0_threshold_dbhz ≡ false)
          × (elapsed_at_least now (above_start t) config.acquisition_cn0_persistence_ns ≡ some true)

  above_since_same :
      (s : SignalTracker F)
      → ((above_since s now).acquisition_complete_time ≡ s.acquisition_complete_time)
        × ((above_since s now).acquisition_context ≡ s.acquisition_context)
  unfolding above_since
  above_since_same s = ground arith

  pub qualification-Qualifies :
      (t : SignalTracker F)
      → Qualifies t (
          update_acquisition_qualification
            (record t { phase = SignalTrackingPhase.acquiring })
            now
            input
            config)
  unfolding update_acquisition_qualification
  qualification-Qualifies t =
      let s = record t { phase = SignalTrackingPhase.acquiring } in
      if-split {A = SignalTracker F × Option Bool} (Qualifies t)
        (lt input.effective_cn0_dbhz config.acquisition_cn0_threshold_dbhz)
        (λ u. record {
          lock = refl;
          complete = refl;
          context = refl;
          strong = λ h. ground (arith, h);
        })
        (λ u. record {
          lock = (above_since_keeps s now).0;
          complete = (above_since_same s).0;
          context = (above_since_same s).1;
          strong = λ h. (
            u,
            subst (λ x. elapsed_at_least now x config.acquisition_cn0_persistence_ns ≡ some true)
                (above_since_lem s) h,
          );
        })

-- ===== src/Tracking/Urban/Invariant.antt =====
-- What every tracker of src/model/urban_signal_tracking.cpp satisfies.
use gnss_data_simulator.Prelude.{
  ◌≡◌, inl, inr, Bool, true, false, not, ◌||◌, if-split, Option-cases, Option, arith,
}
use gnss_data_simulator.Prelude.Int.{pos, ltb_ℤ}
use gnss_data_simulator.Double.{Double}
use gnss_data_simulator.Time.{SimTime, difference_time_ns}
use gnss_data_simulator.Signals.{SignalId}
use gnss_data_simulator.CodeTracking.{CodeTrackingDllRoot}
use gnss_data_simulator.Tracking.Tracker.{
  SignalTrackingPhase, SignalTrackingLossReason, SignalTrackingModelConfig, SignalTracker,
}
use gnss_data_simulator.Tracking.Schedule.{reset_signal_tracker}
use gnss_data_simulator.Tracking.Urban.{
  UrbanSignalTrackingInput, UrbanError, is_tracking, clear_measurement_validity,
  update_direct_classification, begin_tracking_loss,
}
use gnss_data_simulator.Tracking.Urban.Update.{
  with_current_root, with_previous_root, tracking_entered, above_since, update_tracking_validity,
}
use gnss_data_simulator.Tracking.Urban.Step.{classified, while_unavailable, below_since}

module _ {F : Type 0} ⦃d : Double F⦄ where
  -- The lock and the phase of tracking are one; measurements need the lock, and the lock a schedule
  -- and a previous root. With a schedule, the previous root, the wait for the loss and the report of
  -- a reacquisition need the lock; a reacquisition is pending only without a schedule.
  pub record IsCoherent (t : SignalTracker F) : Type 0 where
    pub phase : is_tracking t.phase ≡ t.has_tracking_lock
    pub lock : (not t.has_tracking_lock || t.scheduled) ≡ true
    pub psr : (not t.psr_valid || t.has_tracking_lock) ≡ true
    pub doppler : (not t.doppler_valid || t.has_tracking_lock) ≡ true
    pub adr : (not t.adr_valid || t.has_tracking_lock) ≡ true
    pub observation : t.observation_available ≡ t.psr_valid
    pub continuity : t.carrier_continuity_valid ≡ t.adr_valid
    pub root : (not t.has_tracking_lock || t.previous_dll_root_valid) ≡ true
    pub previous : (not t.scheduled || not t.previous_dll_root_valid || t.has_tracking_lock) ≡ true
    pub below :
        (not t.scheduled || not t.below_tracking_threshold_active || t.has_tracking_lock) ≡ true
    pub event : (not t.scheduled || not t.reacquisition_event || t.has_tracking_lock) ≡ true
    pub pending : (not t.reacquisition_pending || not t.scheduled) ≡ true

  pub reset-IsCoherent :
      (id : SignalId) (time : SimTime) → IsCoherent (reset_signal_tracker id time)
  unfolding reset_signal_tracker
  reset-IsCoherent id time = ground arith

  pub classified-IsCoherent :
      (now : SimTime) (input : UrbanSignalTrackingInput F) (config : SignalTrackingModelConfig F)
      (t : SignalTracker F)
      → IsCoherent t
      → IsCoherent (classified now input config t).0
  unfolding classified update_direct_classification
  classified-IsCoherent now input config t c = ground arith

  pub while_unavailable-IsCoherent :
      (now : SimTime) (input : UrbanSignalTrackingInput F) (config : SignalTrackingModelConfig F)
      (t : SignalTracker F)
      → t.reacquisition_event ≡ false
      → IsCoherent (while_unavailable now input config t)
  unfolding while_unavailable
  while_unavailable-IsCoherent now input config t e = ground arith

  pub tracking_entered-IsCoherent :
      (t : SignalTracker F) (now : SimTime) (times : SimTime × SimTime × SimTime)
      (root : CodeTrackingDllRoot F)
      → t.scheduled ≡ true
      → IsCoherent (tracking_entered t now times root)
  unfolding tracking_entered
  tracking_entered-IsCoherent t now (p, q, r) root s = ground arith

  pub cleared-IsCoherent :
      (t : SignalTracker F) → IsCoherent t → IsCoherent (clear_measurement_validity t)
  unfolding clear_measurement_validity
  cleared-IsCoherent t c = ground arith

  -- A tracker without the lock may search or acquire.
  pub unlocked-IsCoherent :
      (t : SignalTracker F) (p : SignalTrackingPhase) (active : Bool)
      → IsCoherent t
      → t.has_tracking_lock ≡ false
      → is_tracking p ≡ false
      → IsCoherent (record t { phase = p; above_acquisition_threshold_active = active })
  unlocked-IsCoherent t p active c n h = ground arith

  pub with_current_root-IsCoherent :
      (root : CodeTrackingDllRoot F) (t : SignalTracker F)
      → IsCoherent t
      → IsCoherent (with_current_root root t)
  unfolding with_current_root
  with_current_root-IsCoherent root t c = ground arith

  pub with_previous_root-IsCoherent :
      (root : CodeTrackingDllRoot F) (t : SignalTracker F)
      → IsCoherent t
      → t.has_tracking_lock ≡ true
      → IsCoherent (with_previous_root root t)
  unfolding with_previous_root
  with_previous_root-IsCoherent root t c h = ground arith

  pub begin_tracking_loss-IsCoherent :
      (t : SignalTracker F) (now : SimTime) (reason : SignalTrackingLossReason)
      → IsCoherent (begin_tracking_loss t now reason)
  unfolding begin_tracking_loss
  begin_tracking_loss-IsCoherent t now reason = ground arith

  pub above_since-IsCoherent :
      (t : SignalTracker F) (now : SimTime) → IsCoherent t → IsCoherent (above_since t now)
  unfolding above_since
  above_since-IsCoherent t now c =
      if-split (λ u. IsCoherent u) t.above_acquisition_threshold_active (λ e. c) (λ e. ground arith)

  pub above_since_keeps :
      (t : SignalTracker F) (now : SimTime)
      → ((above_since t now).has_tracking_lock ≡ t.has_tracking_lock)
        × ((above_since t now).scheduled ≡ t.scheduled)
  unfolding above_since
  above_since_keeps t now = ground arith

  pub update_tracking_validity-IsCoherent :
      (t : SignalTracker F) (now : SimTime)
      → IsCoherent t
      → t.has_tracking_lock ≡ true
      → IsCoherent (update_tracking_validity t now).0
  unfolding update_tracking_validity
  update_tracking_validity-IsCoherent t now c h =
      elim (Option-cases (difference_time_ns now t.tracking_start_time)) [
        | inl e ↦ rw (e, update_tracking_validity) c
        | inr (lock, e) ↦
            rw (e, update_tracking_validity)
              (if-split {A = SignalTracker F × Option UrbanError} (λ r. IsCoherent r.0)
                (ltb_ℤ lock (pos 0)) (λ u. c) (λ u. ground arith))
      ]

  pub reset_below-IsCoherent :
      (t : SignalTracker F)
      → IsCoherent t
      → IsCoherent (record t { below_tracking_threshold_active = false })
  reset_below-IsCoherent t c = ground arith

  pub below_since-IsCoherent :
      (now : SimTime) (input : UrbanSignalTrackingInput F) (config : SignalTrackingModelConfig F)
      (t : SignalTracker F)
      → IsCoherent t
      → t.has_tracking_lock ≡ true
      → IsCoherent (below_since now input config t)
        × ((below_since now input config t).has_tracking_lock ≡ true)
  unfolding below_since
  below_since-IsCoherent now input config t c h =
      if-split (λ u. IsCoherent u × (u.has_tracking_lock ≡ true)) t.below_tracking_threshold_active
        (λ e. (c, h)) (λ e. (ground arith, h))

-- ===== src/Tracking/Due.antt =====
-- src/model/signal_tracking.cpp: the times at which an acquisition and its measurements are due.
use gnss_data_simulator.Prelude.{◌≡◌, inl, inr, subst, Bool-cases, Option, some, none, arith}
use gnss_data_simulator.Prelude.Opt.{◌>>=◌, >>=-eq-some}
use gnss_data_simulator.Prelude.Int.{ℤ, pos, ◌+ℤ◌, ◌≤ℤ◌, leb_ℤ, int_max}
use gnss_data_simulator.Double.{Double}
use gnss_data_simulator.Time.{SimTime, add_time_ns}
use gnss_data_simulator.Time.Total.{IsNormal, total_ns}
use gnss_data_simulator.Time.Arithmetic.{add_time_ns_iff}
use gnss_data_simulator.Tracking.Tracker.{SignalTrackingModelConfig}
use gnss_data_simulator.Tracking.Schedule.{Milestones, milestones, add_delay}

-- A time that is later by a delay, which is not negative.
pub record Later (from : SimTime) (delay_ns : ℤ) (time : SimTime) : Type 0 where
  pub start : IsNormal from
  pub normal : IsNormal time
  pub delay : pos 0 ≤ℤ delay_ns
  pub total : total_ns time ≡ total_ns from +ℤ delay_ns

add_delay-Later :
    (from : SimTime) (delay_ns : ℤ) (time : SimTime)
    → from.gps_week ≤ℤ int_max
    → add_delay from delay_ns ≡ some time
    → Later from delay_ns time
unfolding add_delay
add_delay-Later from delay_ns time w h = elim (Bool-cases (leb_ℤ (pos 0) delay_ns)) [
  | inl e ↦
      let added : add_time_ns from delay_ns ≡ some time = rw e at h in
      let (n, m, t) = (add_time_ns_iff from delay_ns time w).0 added in
      record { start = n; normal = m; delay = ground arith; total = t }
  | inr e ↦ ground (arith, e)
]

chain :
    (a : SimTime) (p q r : Option SimTime) (times : Milestones)
    → (do
      psr ← p
      doppler ← q
      adr ← r
      some (record { acquisition_complete = a; psr = psr; doppler = doppler; adr = adr }))
      ≡ some times
    → (a ≡ times.acquisition_complete)
      × (p ≡ some times.psr)
      × (q ≡ some times.doppler)
      × (r ≡ some times.adr)
chain a none q r times h = ground arith
chain a (some p) none r times h = ground arith
chain a (some p) (some q) none times h = ground arith
chain a (some p) (some q) (some r) times h = ground arith

module _ {F : Type 0} ⦃d : Double F⦄ where
  -- The times of a schedule.
  pub record Timed (config : SignalTrackingModelConfig F) (ready : SimTime) (delay_ns : ℤ)
      (times : Milestones) : Type 0 where
    pub acquisition : Later ready delay_ns times.acquisition_complete
    pub psr : Later times.acquisition_complete config.psr_valid_delay_ns times.psr
    pub doppler : Later times.acquisition_complete config.doppler_valid_delay_ns times.doppler
    pub adr : Later times.acquisition_complete config.adr_valid_delay_ns times.adr

  pub milestones-Timed :
      (config : SignalTrackingModelConfig F) (ready : SimTime) (delay_ns : ℤ) (times : Milestones)
      → ready.gps_week ≤ℤ int_max
      → milestones config ready delay_ns ≡ some times
      → Timed config ready delay_ns times
  unfolding milestones
  milestones-Timed config ready delay_ns times w h =
      let (a, ea, ha) = >>=-eq-some (add_delay ready delay_ns) _ h in
      let (same, p, q, r) =
        chain a (add_delay a config.psr_valid_delay_ns) (add_delay a config.doppler_valid_delay_ns)
          (add_delay a config.adr_valid_delay_ns) times ha in
      let first = add_delay-Later ready delay_ns a w ea in
      let week = first.normal.week_le in
      record {
        acquisition = subst (λ x. Later ready delay_ns x) same first;
        psr =
            subst (λ x. Later x config.psr_valid_delay_ns times.psr) same
              (add_delay-Later a _ _ week p);
        doppler =
            subst (λ x. Later x config.doppler_valid_delay_ns times.doppler) same
              (add_delay-Later a _ _ week q);
        adr =
            subst (λ x. Later x config.adr_valid_delay_ns times.adr) same
              (add_delay-Later a _ _ week r);
      }

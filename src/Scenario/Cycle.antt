-- ===== src/Scenario/Cycle.antt =====
-- Where src/scenario/scenario_engine.cpp places a time in the cycle of its scenario.
use native.Mathlib.Nat.{mod-lt, div-add-mod'}
use gnss_data_simulator.Prelude.{
  ℕ, ◌+◌, ◌*◌, ◌/◌, ◌%◌, ◌≤◌, ◌<◌, ◌≡◌, ◌↔◌, refl, sym, ap, true, false, Bool, some, arith,
}
use gnss_data_simulator.Prelude.Int.{
  ℤ, pos, negsuc, ◌+ℤ◌, ◌-ℤ◌, ◌*ℤ◌, ◌/ℤ◌, ◌%ℤ◌, ◌≤ℤ◌, ◌<ℤ◌, ltb_ℤ, magnitude, IsInt64, int_laws,
  eq_of_parts, product_pos,
}
use gnss_data_simulator.Double.{Double}
use gnss_data_simulator.Time.{SimTime}
use gnss_data_simulator.Time.Total.{IsNormal, total_ns}
use gnss_data_simulator.Time.Arithmetic.{difference_time_ns_iff, week_delta, max_week_delta}
use gnss_data_simulator.Config.{SimConfig, ScenarioType, ks, rea, ttff}
use gnss_data_simulator.Scenario.{
  ScenarioEpochState, ScenarioEngine, in_cycle, state_in, compute_state,
}

-- The elapsed time is that of the whole cycles and the time into the last one, and the cycle is in its
-- first part exactly before the time on has passed.
pub record InCycle (elapsed on off : ℤ) (s : ScenarioEpochState) : Type 0 where
  pub split : elapsed ≡ pos s.cycle_index *ℤ (on +ℤ off) +ℤ s.phase_elapsed_ns
  pub phase_ge : pos 0 ≤ℤ s.phase_elapsed_ns
  pub phase_lt : s.phase_elapsed_ns <ℤ on +ℤ off
  pub available : (s.signal_available ≡ true) ↔ (s.phase_elapsed_ns <ℤ on)

nonnegative : (a : ℤ) → pos 0 ≤ℤ a → ltb_ℤ a (pos 0) ≡ false
nonnegative a h = ground arith

back : (a b : ℤ) → a ≡ b +ℤ (a -ℤ b)
back a b = eq_of_parts _ _ (omega int_laws)

sum_pos : (a b : ℕ) → pos a +ℤ pos b ≡ pos (a + b)
sum_pos a b = eq_of_parts _ _ (omega int_laws)

division : (n p : ℕ) → pos n ≡ pos (n / p) *ℤ pos p +ℤ pos (n % p)
division n p =
    rw (product_pos (n / p) p, sum_pos (n / p * p) (n % p)) (ap pos (sym (div-add-mod' n p)))

in_cycle_ℕ :
    (t : SimTime) (n a b : ℕ) (powered : Bool)
    → 0 < a
    → InCycle (pos n) (pos a) (pos b) (in_cycle t (pos n) (pos a) (pos b) powered)
unfolding ◌/ℤ◌ ◌%ℤ◌
in_cycle_ℕ t n a b powered h =
    let m = mod-lt n {m = a + b} (omega arith) in
    let e = sum_pos a b in
    let z : a + b + 0 ≡ a + b = omega arith in
    record {
      split = rw (e, z) (division n (a + b));
      phase_ge = omega int_laws;
      phase_lt = rw (e, z) (omega (int_laws, m));
      available = (λ e. ground arith, λ l. ground arith);
    }

in_cycle-InCycle :
    (t : SimTime) (elapsed on off : ℤ) (powered : Bool)
    → pos 0 ≤ℤ elapsed
    → pos 0 <ℤ on
    → pos 0 <ℤ off
    → InCycle elapsed on off (in_cycle t elapsed on off powered)
in_cycle-InCycle t (pos n) (pos a) (pos b) powered h k l = in_cycle_ℕ t n a b powered (omega arith)
in_cycle-InCycle t (negsuc n) on off powered h k l = absurd (omega arith)
in_cycle-InCycle t (pos n) (negsuc a) off powered h k l = absurd (omega arith)
in_cycle-InCycle t (pos n) (pos a) (negsuc b) powered h k l = absurd (omega arith)

module _ {F : Type 0} ⦃d : Double F⦄ where
  -- The durations of the two scenarios with a cycle are positive.
  pub record HasCycles (config : SimConfig F) : Type 0 where
    pub power_on : pos 0 <ℤ config.ttff.power_on_ns
    pub power_off : pos 0 <ℤ config.ttff.power_off_ns
    pub signal_on : pos 0 <ℤ config.rea.signal_on_ns
    pub signal_off : pos 0 <ℤ config.rea.signal_off_ns

  -- A state at an elapsed time: continuously on, on with a signal that comes and goes, or with a
  -- receiver whose power comes and goes, and the signal with it.
  abbrev pub InScenario : SimConfig F → ScenarioType → ℤ → ScenarioEpochState → Type 0
  InScenario config ks elapsed s =
      (s.receiver_powered ≡ true)
      × (s.signal_available ≡ true)
      × (s.cycle_index ≡ 0)
      × (s.phase_elapsed_ns ≡ elapsed)
  InScenario config rea elapsed s =
      (s.receiver_powered ≡ true)
      × InCycle elapsed config.rea.signal_on_ns config.rea.signal_off_ns s
  InScenario config ttff elapsed s =
      (s.receiver_powered ≡ s.signal_available)
      × InCycle elapsed config.ttff.power_on_ns config.ttff.power_off_ns s

  state_in-InScenario :
      (config : SimConfig F)
      → HasCycles config
      → (scenario : ScenarioType) (t : SimTime) (elapsed : ℤ) → pos 0 ≤ℤ elapsed
      → InScenario config scenario elapsed (state_in config scenario t elapsed)
  unfolding state_in
  state_in-InScenario config c ks t elapsed h = (refl, refl, refl, refl)
  state_in-InScenario config c rea t elapsed h =
      (refl, in_cycle-InCycle t elapsed _ _ false h c.signal_on c.signal_off)
  state_in-InScenario config c ttff t elapsed h =
      (refl, in_cycle-InCycle t elapsed _ _ true h c.power_on c.power_off)

  state_in-time :
      (config : SimConfig F) (scenario : ScenarioType) (t : SimTime) (elapsed : ℤ)
      → (state_in config scenario t elapsed).time ≡ t
  unfolding state_in
  state_in-time config ks t elapsed = refl
  state_in-time config rea t elapsed = refl
  state_in-time config ttff t elapsed = refl

  -- The periods, which the code computes in 64 bits.
  pub record FitsPeriods (config : SimConfig F) : Type 0 where
    pub ttff_period : IsInt64 (config.ttff.power_on_ns +ℤ config.ttff.power_off_ns)
    pub rea_period : IsInt64 (config.rea.signal_on_ns +ℤ config.rea.signal_off_ns)

  -- With positive durations and periods that fit 64 bits: from a normal start to a normal time that is not before it, at most 15250 weeks and a number of
  -- nanoseconds that fits 64 bits later, `compute_state` gives the state at that time, with the cycle
  -- and the time into it that the elapsed time makes up, and the receiver and the signal on exactly in
  -- the first part of a cycle.
  pub compute_state-InScenario :
      (engine : ScenarioEngine F) (t : SimTime)
      → HasCycles engine.config
      → FitsPeriods engine.config
      → IsNormal engine.start_time
      → IsNormal t
      → total_ns engine.start_time ≤ℤ total_ns t
      → IsInt64 (total_ns t -ℤ total_ns engine.start_time)
      → magnitude (week_delta t engine.start_time) ≤ max_week_delta
      → (s : ScenarioEpochState) × (compute_state engine t ≡ some s)
        × (s.time ≡ t)
        × InScenario engine.config engine.config.scenario
            (total_ns t -ℤ total_ns engine.start_time)
            s
  unfolding compute_state
  compute_state-InScenario engine t c fits n m h i k =
      let elapsed = total_ns t -ℤ total_ns engine.start_time in
      let e = (difference_time_ns_iff t engine.start_time m n elapsed).1 (back _ _, i, k) in
      let le : pos 0 ≤ℤ elapsed = omega int_laws in
      let f : ltb_ℤ elapsed (pos 0) ≡ false = nonnegative elapsed le in
      (
        state_in engine.config engine.config.scenario t elapsed,
        rw (e, f, compute_state) refl,
        state_in-time engine.config engine.config.scenario t elapsed,
        state_in-InScenario engine.config c engine.config.scenario t elapsed le,
      )

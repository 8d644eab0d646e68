-- ===== src/Scenario/Engine.antt =====
-- The engine of src/scenario/scenario_engine.cpp from epoch to epoch: its invariant, and the
-- transitions that it reports.
use gnss_data_simulator.Prelude.{
  ◌≡◌, refl, sym, ap, ◌∙◌, subst, true, false, not, ◌&&◌, Bool-cases, Option-cases, some, inl, inr,
  arith,
}
use gnss_data_simulator.Prelude.Int.{ℤ, pos, ◌≤ℤ◌, ltb_ℤ, int_max, int_laws}
use gnss_data_simulator.Prelude.Opt.{some-injective}
use gnss_data_simulator.Prelude.Result.{ok, >>=-eq-ok, ok-injective, err-ne-ok, Result-cases}
use gnss_data_simulator.Double.{Double}
use gnss_data_simulator.Time.{SimTime, compare_sim_time, difference_time_ns}
use gnss_data_simulator.Time.Total.{IsNormal, total_ns}
use gnss_data_simulator.Time.Order.{compare-lt_zero}
use gnss_data_simulator.Config.{SimConfig, ScenarioType, ks, rea, ttff}
use gnss_data_simulator.Config.Validate.{validate_sim_config, durations_valid, settings_valid}
use gnss_data_simulator.Scenario.{
  ScenarioEpochState, ScenarioEngine, valid_time, state_in, compute_state,
  initialize_scenario_engine, with_transitions, after_epoch, update_refused, update_scenario_engine,
}
use gnss_data_simulator.Scenario.Cycle.{HasCycles}

valid_time-IsNormal : (t : SimTime) → t.gps_week ≤ℤ int_max → valid_time t ≡ true → IsNormal t
unfolding valid_time
valid_time-IsNormal t h e = ground arith

not_before :
    (a b : SimTime)
    → IsNormal a
    → IsNormal b
    → ltb_ℤ (compare_sim_time a b) (pos 0) ≡ false
    → total_ns b ≤ℤ total_ns a
not_before a b n m h = omega (int_laws, sym (compare-lt_zero a b n m) ∙ h)

module _ {F : Type 0} ⦃d : Double F⦄ where
  -- An engine that is ready: its scenario has positive durations, its times are normal and in order,
  -- and what it remembers of the last epoch is the state at the last time.
  pub record IsEngine (engine : ScenarioEngine F) : Type 0 where
    pub initialized : engine.initialized ≡ true
    pub cycles : HasCycles engine.config
    pub start : IsNormal engine.start_time
    pub last : IsNormal engine.last_time
    pub order : total_ns engine.start_time ≤ℤ total_ns engine.last_time
    pub fresh : engine.have_last_state ≡ false → engine.last_time ≡ engine.start_time
    pub remembered :
        engine.have_last_state ≡ true
        → (s : ScenarioEpochState) × (compute_state engine engine.last_time ≡ some s)
          × (engine.last_receiver_powered ≡ s.receiver_powered)
          × (engine.last_signal_available ≡ s.signal_available)

  durations_valid-HasCycles :
      (config : SimConfig F) → validate_sim_config config ≡ ok tt → HasCycles config
  unfolding validate_sim_config durations_valid
  durations_valid-HasCycles config h =
      let (u, _, g) = >>=-eq-ok (settings_valid config) (λ _. durations_valid config) h in
      record {
        power_on = ground arith;
        power_off = ground arith;
        signal_on = ground arith;
        signal_off = ground arith;
      }

  -- An engine that `initialize_scenario_engine` makes is ready.
  pub initialize_scenario_engine-IsEngine :
      (config : SimConfig F) (start_time : SimTime) (engine : ScenarioEngine F)
      → start_time.gps_week ≤ℤ int_max
      → initialize_scenario_engine config start_time ≡ ok engine
      → IsEngine engine
  unfolding initialize_scenario_engine
  initialize_scenario_engine-IsEngine config start_time engine h e =
      elim (Bool-cases (valid_time start_time)) [
        | inr k ↦ absurd (err-ne-ok (rw (k, initialize_scenario_engine) at e))
        | inl k ↦ elim (Result-cases (validate_sim_config config)) [
          | inl (x, v) ↦ absurd (err-ne-ok (rw (k, v, initialize_scenario_engine) at e))
          | inr (tt, v) ↦
              subst IsEngine (ok-injective (rw (k, v, initialize_scenario_engine) at e)) (record {
                initialized = refl;
                cycles = durations_valid-HasCycles config v;
                start = valid_time-IsNormal start_time h k;
                last = valid_time-IsNormal start_time h k;
                order = omega arith;
                fresh = λ f. refl;
                remembered = λ f. absurd (ground arith);
              })
        ]
      ]

  update_inversion :
      (engine engine' : ScenarioEngine F) (t : SimTime) (s : ScenarioEpochState)
      → update_scenario_engine engine t ≡ ok (engine', s)
      → (update_refused engine t ≡ false)
        × (r : ScenarioEpochState) × (compute_state engine t ≡ some r)
        × (engine' ≡ after_epoch engine t r)
        × (s ≡ with_transitions engine r)
  unfolding update_scenario_engine
  update_inversion engine engine' t s e = elim (Bool-cases (update_refused engine t)) [
    | inl h ↦ absurd (err-ne-ok (rw (h, update_scenario_engine) at e))
    | inr h ↦ elim (Option-cases (compute_state engine t)) [
      | inl k ↦ absurd (err-ne-ok (rw (h, k, update_scenario_engine) at e))
      | inr (r, k) ↦
          let f = ok-injective (rw (h, k, update_scenario_engine) at e) in
          (h, r, k, sym (ap (λ p. p.0) f), sym (ap (λ p. p.1) f))
    ]
  ]

  state_in_quiet :
      (config : SimConfig F) (scenario : ScenarioType) (t : SimTime) (elapsed : ℤ)
      → let s = state_in config scenario t elapsed in
        (s.power_off_transition ≡ false) × (s.signal_off_transition ≡ false)
  unfolding state_in
  state_in_quiet config ks t elapsed = (refl, refl)
  state_in_quiet config rea t elapsed = (refl, refl)
  state_in_quiet config ttff t elapsed = (refl, refl)

  compute_state_quiet :
      (engine : ScenarioEngine F) (t : SimTime) (r : ScenarioEpochState)
      → compute_state engine t ≡ some r
      → (r.power_off_transition ≡ false) × (r.signal_off_transition ≡ false)
  unfolding compute_state
  compute_state_quiet engine t r e = elim (Option-cases (difference_time_ns t engine.start_time)) [
    | inl k ↦ absurd (ground (arith, (rw (k, compute_state) at e)))
    | inr (x, k) ↦ elim (Bool-cases (ltb_ℤ x (pos 0))) [
      | inl l ↦ absurd (ground (arith, (rw (k, l, compute_state) at e)))
      | inr l ↦
          subst (λ r. (r.power_off_transition ≡ false) × (r.signal_off_transition ≡ false))
            (some-injective _ _ (rw (k, l, compute_state) at e))
            (state_in_quiet engine.config engine.config.scenario t x)
    ]
  ]

  -- The changes of a state against what the engine remembers, with both off before the first epoch.
  pub record Edges (engine : ScenarioEngine F) (s : ScenarioEpochState) : Type 0 where
    pub power_on :
        s.power_on_transition
        ≡ (not (engine.have_last_state && engine.last_receiver_powered) && s.receiver_powered)
    pub power_off :
        s.power_off_transition
        ≡ (engine.have_last_state && engine.last_receiver_powered && not s.receiver_powered)
    pub signal_on :
        s.signal_on_transition
        ≡ (not (engine.have_last_state && engine.last_signal_available) && s.signal_available)
    pub signal_off :
        s.signal_off_transition
        ≡ (engine.have_last_state && engine.last_signal_available && not s.signal_available)

  with_transitions-Edges :
      (engine : ScenarioEngine F) (r : ScenarioEpochState)
      → r.power_off_transition ≡ false
      → r.signal_off_transition ≡ false
      → Edges engine (with_transitions engine r)
  unfolding with_transitions
  with_transitions-Edges engine r off quiet = elim (Bool-cases engine.have_last_state) [
    | inl h ↦ record {
      power_on = rw h refl;
      power_off = rw h refl;
      signal_on = rw h refl;
      signal_off = rw h refl;
    }
    | inr h ↦ record {
      power_on = rw h refl;
      power_off = rw h off;
      signal_on = rw h refl;
      signal_off = rw h quiet;
    }
  ]

  kept :
      (engine : ScenarioEngine F) (t : SimTime) (r : ScenarioEpochState)
      → ((after_epoch engine t r).last_receiver_powered
          ≡ (with_transitions engine r).receiver_powered)
        × ((after_epoch engine t r).last_signal_available
            ≡ (with_transitions engine r).signal_available)
        × ((after_epoch engine t r).have_last_state ≡ true)
  unfolding with_transitions after_epoch
  kept engine t r = elim (Bool-cases engine.have_last_state) [
    | inl h ↦ (rw h refl, rw h refl, refl)
    | inr h ↦ (rw h refl, rw h refl, refl)
  ]

  -- An update that succeeds reports a change of the power or of the signal exactly where the state
  -- differs from that of the epoch before, with both off before the first epoch, and remembers the
  -- state.
  pub update_scenario_engine-Edges :
      (engine engine' : ScenarioEngine F) (t : SimTime) (s : ScenarioEpochState)
      → update_scenario_engine engine t ≡ ok (engine', s)
      → Edges engine s
        × (engine'.last_receiver_powered ≡ s.receiver_powered)
        × (engine'.last_signal_available ≡ s.signal_available)
        × (engine'.have_last_state ≡ true)
  update_scenario_engine-Edges engine engine' t s e =
      let (_, r, k, f, g) = update_inversion engine engine' t s e in
      let (off, quiet) = compute_state_quiet engine t r k in
      let (a, b, c) = kept engine t r in
      rw (f, g) (with_transitions-Edges engine r off quiet, a, b, c)

  update_allowed :
      (engine : ScenarioEngine F) (t : SimTime)
      → update_refused engine t ≡ false
      → (valid_time t ≡ true)
        × (ltb_ℤ (compare_sim_time t engine.start_time) (pos 0) ≡ false)
        × ((engine.have_last_state && ltb_ℤ (compare_sim_time t engine.last_time) (pos 0)) ≡ false)
  unfolding update_refused
  update_allowed engine t h = ground arith

  -- An update of an engine that is ready, where it succeeds, does not go back in time and leaves an
  -- engine that is ready, at the given time.
  pub update_scenario_engine-IsEngine :
      (engine engine' : ScenarioEngine F) (t : SimTime) (s : ScenarioEpochState)
      → IsEngine engine
      → t.gps_week ≤ℤ int_max
      → update_scenario_engine engine t ≡ ok (engine', s)
      → IsEngine engine' × (engine'.last_time ≡ t) × (total_ns engine.last_time ≤ℤ total_ns t)
  unfolding after_epoch compute_state
  update_scenario_engine-IsEngine engine engine' t s i w e =
      let (h, r, k, f, g) = update_inversion engine engine' t s e in
      let (v, after, mono) = update_allowed engine t h in
      let n = valid_time-IsNormal t w v in
      let ahead = not_before t engine.start_time n i.start after in
      let forward : total_ns engine.last_time ≤ℤ total_ns t =
        elim (Bool-cases engine.have_last_state) [
          | inl y ↦ not_before t engine.last_time n i.last (rw y at mono)
          | inr y ↦ rw (i.fresh y) ahead
        ] in
      rw f (
        record {
          initialized = i.initialized;
          cycles = i.cycles;
          start = i.start;
          last = n;
          order = ahead;
          fresh = λ u. absurd (ground arith);
          remembered = λ u. (r, k, refl, refl);
        },
        refl,
        forward,
      )

-- ===== src/Bestpos/Stability.antt =====
-- A solution of src/model/bestpos_rtk_model.cpp is fixed exactly while the streak of epochs that
-- qualify has lasted for the duration of the configuration.
use gnss_data_simulator.Prelude.{
  ◌≡◌, inl, inr, refl, sym, ap, subst, Bool, true, false, not, ◌&&◌, ◌||◌, Bool-cases, if-split,
  Option, none, some, List, [], ◌∷◌, arith,
}
use gnss_data_simulator.Prelude.Int.{ℤ, pos, ◌-ℤ◌, ◌≤ℤ◌, ltb_ℤ, leb_ℤ, eq_ℤ, int_laws, eq_of_parts}
use gnss_data_simulator.Time.{SimTime, difference_time_ns}
use gnss_data_simulator.Time.Total.{IsNormal, total_ns}
use gnss_data_simulator.Time.Arithmetic.{difference_time_ns_iff}
use gnss_data_simulator.Config.{BestposRtkConfig}
use gnss_data_simulator.Solution.{PositionSolution}
use gnss_data_simulator.Bestpos.{
  BestposRtkState, BestposError, qualifying_position, reset_bestpos_rtk_state, advance_stability,
  update_bestpos_rtk_state,
}

-- A normal time whose difference to an earlier one fits 64 bits.
pub record IsEpoch (t : SimTime) : Type 0 where
  pub normal : IsNormal t
  pub week : t.gps_week ≤ℤ pos 15_249

difference_some :
    (now start : SimTime)
    → IsEpoch now
    → IsEpoch start
    → total_ns start ≤ℤ total_ns now
    → difference_time_ns now start ≡ some (total_ns now -ℤ total_ns start)
difference_some now start e f le =
    let n = e.normal in
    let m = f.normal in
    let w = e.week in
    let v = f.week in
    let a = n.week_ge in
    let b = m.week_ge in
    let tow1 = n.tow_ge in
    let tow2 = n.tow_lt in
    let tow3 = m.tow_ge in
    let tow4 = m.tow_lt in
    (difference_time_ns_iff now start n m (total_ns now -ℤ total_ns start)).1
      (eq_of_parts _ _ (omega int_laws), omega int_laws, omega int_laws)

module _ {F : Type 0} (config : BestposRtkConfig F) where
  -- The checks at the start pass.
  pub record IsUsable : Type 0 where
    pub duration : pos 0 ≤ℤ config.stable_duration_ns
    pub satellites : pos 1 ≤ℤ config.min_used_satellites

  abbrev pub qualifies : PositionSolution F → Bool
  qualifies position = config.enabled && qualifying_position config position

  -- The start of the streak of epochs that qualify, up to an epoch.
  abbrev pub streak_at : SimTime → Bool → Option SimTime → Option SimTime
  streak_at now false streak = none
  streak_at now true none = some now
  streak_at now true (some start) = some start

  -- A state stands for a streak: it is fixed exactly where the streak has lasted for the duration.
  abbrev pub Represents : SimTime → Option SimTime → BestposRtkState → Type 0
  Represents now none state = state ≡ reset_bestpos_rtk_state
  Represents now (some start) state =
      (state.stability_active ≡ true)
      × (state.stable_since ≡ start)
      × (state.fixed ≡ leb_ℤ config.stable_duration_ns (total_ns now -ℤ total_ns start))
      × IsEpoch start
      × (total_ns start ≤ℤ total_ns now)

  at_start :
      (now : ℤ) (duration : ℤ)
      → pos 0 ≤ℤ duration
      → (eq_ℤ duration (pos 0) || false) ≡ leb_ℤ duration (now -ℤ now)
  at_start now duration h = elim (Bool-cases (leb_ℤ duration (now -ℤ now))) [
    | inl e ↦ rw e (ground_true (omega int_laws))
    | inr e ↦ rw e (ground_false (omega int_laws))
  ]
    where
      ground_true : duration ≤ℤ pos 0 → (eq_ℤ duration (pos 0) || false) ≡ true
      ground_true k = ground arith

      ground_false : ¬ (duration ≤ℤ pos 0) → (eq_ℤ duration (pos 0) || false) ≡ false
      ground_false k = ground arith

  -- Once long enough, long enough.
  still_fixed :
      (before now start duration : ℤ)
      → before ≤ℤ now
      → leb_ℤ duration (before -ℤ start) ≡ true
      → leb_ℤ duration (now -ℤ start) ≡ true
  still_fixed before now start duration le h = of_le (omega (int_laws, le, h))
    where
      of_le : duration ≤ℤ now -ℤ start → leb_ℤ duration (now -ℤ start) ≡ true
      of_le k = ground arith

  not_negative : (now start : ℤ) → start ≤ℤ now → ltb_ℤ (now -ℤ start) (pos 0) ≡ false
  not_negative now start le = of_le (omega int_laws)
    where
      of_le : pos 0 ≤ℤ now -ℤ start → ltb_ℤ (now -ℤ start) (pos 0) ≡ false
      of_le k = ground arith

  abbrev Advances : SimTime → Option SimTime → BestposRtkState × Option BestposError → Type 0
  Advances now streak (state, error) = (error ≡ none) × Represents now streak state

  -- A streak that goes on.
  goes_on :
      (before now start : SimTime) (fixed : Bool)
      → IsEpoch now
      → IsEpoch start
      → total_ns before ≤ℤ total_ns now
      → total_ns start ≤ℤ total_ns before
      → fixed ≡ leb_ℤ config.stable_duration_ns (total_ns before -ℤ total_ns start)
      → Advances now (some start) (
          advance_stability config now
            (record { stability_active = true; fixed = fixed; stable_since = start }))
  unfolding advance_stability
  goes_on before now start true e f le le' same = (
    refl,
    (
      refl,
      refl,
      sym (
          still_fixed (total_ns before) (total_ns now) (total_ns start) config.stable_duration_ns le
            (sym same)),
      f,
      omega arith,
    ),
  )
  goes_on before now start false e f le le' same =
      let lasted = total_ns now -ℤ total_ns start in
      let since : total_ns start ≤ℤ total_ns now = omega arith in
      elim (Bool-cases (leb_ℤ config.stable_duration_ns lasted)) [
        | inl long ↦
            rw
              (
                difference_some now start e f since,
                not_negative (total_ns now) (total_ns start) since,
                long,
              )
              (refl, (refl, refl, refl, f, since))
        | inr short ↦
            rw
              (
                difference_some now start e f since,
                not_negative (total_ns now) (total_ns start) since,
                short,
              )
              (refl, (refl, refl, refl, f, since))
      ]

  advance-Advances :
      (before now : SimTime) (streak : Option SimTime) (state : BestposRtkState)
      → IsUsable
      → IsEpoch now
      → total_ns before ≤ℤ total_ns now
      → Represents before streak state
      → Advances now (streak_at now true streak) (advance_stability config now state)
  unfolding advance_stability reset_bestpos_rtk_state
  advance-Advances before now none state u e le r = rw r (
    refl,
    (refl, refl, at_start (total_ns now) config.stable_duration_ns u.duration, e, omega arith),
  )
  advance-Advances before now (some start) state u e le (active, since, fixed, f, le') =
      let same : state
          ≡ record { stability_active = true; fixed = state.fixed; stable_since = start } =
        λ i. record { stability_active = active i; fixed = state.fixed; stable_since = since i } in
      subst (λ s. Advances now (some start) (advance_stability config now s)) (sym same)
        (goes_on before now start state.fixed e f le le' fixed)

  -- An update of a state that stands for a streak succeeds at an epoch that is not earlier, and
  -- leaves a state that stands for the streak with the epoch.
  update-Advances :
      (before now : SimTime) (streak : Option SimTime) (state : BestposRtkState)
      (position : PositionSolution F)
      → IsUsable
      → IsEpoch now
      → total_ns before ≤ℤ total_ns now
      → Represents before streak state
      → Advances now
          (streak_at now (qualifies position) streak)
          (update_bestpos_rtk_state config now position state)
  unfolding update_bestpos_rtk_state
  update-Advances before now streak state position u e le r =
      if-split {A = BestposRtkState × Option BestposError}
        (Advances now (streak_at now (qualifies position) streak))
        (ltb_ℤ config.stable_duration_ns (pos 0) || ltb_ℤ config.min_used_satellites (pos 1))
        (λ h. absurd (accepted u h))
        (λ h. elim (Bool-cases (qualifies position)) [
          | inl q ↦
              rw (q, passes config.enabled (qualifying_position config position) q)
                (advance-Advances before now streak state u e le r)
          | inr q ↦
              rw (q, stops config.enabled (qualifying_position config position) q) (refl, refl)
        ])
    where
      accepted :
          IsUsable
          → (ltb_ℤ config.stable_duration_ns (pos 0) || ltb_ℤ config.min_used_satellites (pos 1))
            ≡ true
          → ⊥
      accepted u h = ground arith

      passes : (a b : Bool) → (a && b) ≡ true → (not a || not b) ≡ false
      passes a b h = ground arith

      stops : (a b : Bool) → (a && b) ≡ false → (not a || not b) ≡ true
      stops a b h = ground arith

  -- The updates at one epoch after another, as far as they succeed.
  abbrev pub bestpos_run :
      List (SimTime × PositionSolution F) → BestposRtkState → BestposRtkState × Option BestposError
  bestpos_run [] state = (state, none)
  bestpos_run ((now, position) ∷ epochs) state =
      let (next, error) = update_bestpos_rtk_state config now position state in
      elim error [ none ↦ bestpos_run epochs next | some e ↦ (next, some e) ]

  abbrev pub final_streak : List (SimTime × PositionSolution F) → Option SimTime → Option SimTime
  final_streak [] streak = streak
  final_streak ((now, position) ∷ epochs) streak =
      final_streak epochs (streak_at now (qualifies position) streak)

  abbrev pub last_epoch : SimTime → List (SimTime × PositionSolution F) → SimTime
  last_epoch before [] = before
  last_epoch before ((now, position) ∷ epochs) = last_epoch now epochs

  abbrev pub RisingEpochs : SimTime → List (SimTime × PositionSolution F) → Type 0
  RisingEpochs before [] = Unit {0}
  RisingEpochs before ((now, position) ∷ epochs) =
      IsEpoch now × (total_ns before ≤ℤ total_ns now) × RisingEpochs now epochs

  run_step :
      (now : SimTime) (position : PositionSolution F) (epochs : List (SimTime × PositionSolution F))
      (state next : BestposRtkState)
      → update_bestpos_rtk_state config now position state ≡ (next, none)
      → bestpos_run ((now, position) ∷ epochs) state ≡ bestpos_run epochs next
  run_step now position epochs state next e =
      ap
        (λ (r : BestposRtkState × Option BestposError).
          let result : BestposRtkState × Option BestposError = elim (r.1) [
            | none ↦ bestpos_run epochs r.0
            | some e' ↦ (r.0, some e')
          ] in
          result)
        e

  run-Advances :
      (epochs : List (SimTime × PositionSolution F)) (before : SimTime) (streak : Option SimTime)
      (state : BestposRtkState)
      → IsUsable
      → RisingEpochs before epochs
      → Represents before streak state
      → Advances (last_epoch before epochs) (final_streak epochs streak) (bestpos_run epochs state)
  run-Advances [] before streak state u rising r = (refl, r)
  run-Advances ((now, position) ∷ epochs) before streak state u (e, le, rising) r =
      let (fine, r') = update-Advances before now streak state position u e le r in
      let next = (update_bestpos_rtk_state config now position state).0 in
      let streak' = streak_at now (qualifies position) streak in
      subst (Advances (last_epoch now epochs) (final_streak epochs streak'))
        (sym (run_step now position epochs state next (λ i. (next, fine i))))
        (run-Advances epochs now streak' next u rising r')

  -- From the reset state, updates at rising epochs all succeed, under a configuration that passes the
  -- checks. Afterwards the state is the reset one where the last epoch does not qualify, and
  -- otherwise it holds the start of the unbroken streak of epochs that qualify, and is fixed exactly
  -- where the time from there to the last epoch is at least the duration of the configuration.
  pub bestpos_run-Represents :
      (epochs : List (SimTime × PositionSolution F)) (before : SimTime)
      → IsUsable
      → RisingEpochs before epochs
      → ((bestpos_run epochs reset_bestpos_rtk_state).1 ≡ none)
        × Represents
            (last_epoch before epochs)
            (final_streak epochs none)
            (bestpos_run epochs reset_bestpos_rtk_state).0
  bestpos_run-Represents epochs before u rising =
      run-Advances epochs before none reset_bestpos_rtk_state u rising refl

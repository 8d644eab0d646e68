-- ===== src/Solution/Selection.antt =====
-- What src/solution/solution_engine.cpp gives the solver.
use gnss_data_simulator.Prelude.{
  ◌≤◌, ◌≡◌, ◌⊎◌, inl, inr, refl, sym, Bool, none, some, Option-cases, List, [], ◌∷◌, All, All-map,
  Any, length, arith,
}
use gnss_data_simulator.Prelude.Int.{ℤ, ◌≤ℤ◌}
use gnss_data_simulator.Double.{Double}
use gnss_data_simulator.Solution.{
  RtklibSolutionObservation, SelectedObservation, MeasurementObservation, ObservationCodes,
  max_solver_satellites, candidate_of, place_candidate, consider_selected_observation, consider_all,
  solver_observations, sort_selected_observations,
}
use gnss_data_simulator.Solution.Sorted.{Distinct, Rising, sort-IsSortOf}
use gnss_data_simulator.Solution.Best.{
  Has, place_candidate-Distinct, place_candidate-bounded, place_candidate-All,
  place_candidate-Has_before, place_candidate-Has,
}

module _ {F : Type 0} ⦃d : Double F⦄ (codes : ObservationCodes) (for_position : Bool) where
  -- A priority and an observation are those of one of the measurements.
  abbrev pub ComesFrom : List (MeasurementObservation F) → SelectedObservation F → Type 0
  ComesFrom measurements s =
      (s.observation.satellite_number ≡ s.satellite_number)
      × Any (λ m. candidate_of codes m for_position ≡ some (s.priority, s.observation)) measurements

  -- The satellite of a measurement that may enter the solution has an observation of its priority or
  -- a better one, unless there is no more room.
  abbrev pub Served : List (SelectedObservation F) → MeasurementObservation F → Type 0
  Served xs m =
      (p : ℤ) (c : RtklibSolutionObservation F)
      → candidate_of codes m for_position ≡ some (p, c)
      → Has c.satellite_number p xs ⊎ (max_solver_satellites ≤ length xs)

  record Holds (measurements : List (MeasurementObservation F)) (xs : List (SelectedObservation F))
      : Type 0 where
    distinct : Distinct xs
    bounded : length xs ≤ max_solver_satellites
    sources : All (ComesFrom measurements) xs

  module _ (m : MeasurementObservation F) (xs : List (SelectedObservation F)) where
    skipped :
        candidate_of codes m for_position ≡ none
        → consider_selected_observation codes m for_position xs ≡ xs
    unfolding consider_selected_observation
    skipped e = rw (e, consider_selected_observation) refl

    placed :
        (p : ℤ) (c : RtklibSolutionObservation F)
        → candidate_of codes m for_position ≡ some (p, c)
        → consider_selected_observation codes m for_position xs ≡ place_candidate p c xs
    unfolding consider_selected_observation
    placed p c e = rw (e, consider_selected_observation) refl

    consider-Holds :
        (measurements : List (MeasurementObservation F))
        → ((P : MeasurementObservation F → Type 0) → P m → Any P measurements)
        → Holds measurements xs
        → Holds measurements (consider_selected_observation codes m for_position xs)
    consider-Holds measurements member h = elim (Option-cases (candidate_of codes m for_position)) [
      | inl e ↦ rw (skipped e) h
      | inr ((p, c), e) ↦ rw (placed p c e) (record {
        distinct = place_candidate-Distinct p c xs h.distinct;
        bounded = (place_candidate-bounded p c xs h.bounded).0;
        sources =
            place_candidate-All p c xs (ComesFrom measurements)
              (λ s same.
                (sym same, member (λ w. candidate_of codes w for_position ≡ some (p, c)) e))
              h.sources;
      })
    ]

    consider-Served : Served (consider_selected_observation codes m for_position xs) m
    consider-Served p c e = rw (placed p c e) (place_candidate-Has p c xs)

    consider-Served_before :
        (w : MeasurementObservation F)
        → length xs ≤ max_solver_satellites
        → Served xs w
        → Served (consider_selected_observation codes m for_position xs) w
    consider-Served_before w b served p c e =
        elim (Option-cases (candidate_of codes m for_position)) [
          | inl f ↦ rw (skipped f) (served p c e)
          | inr ((q, x), f) ↦ elim (served p c e) [
            | inl has ↦
                rw (placed q x f) (inl (place_candidate-Has_before q x xs c.satellite_number p has))
            | inr full ↦
                let (_, longer) = place_candidate-bounded q x xs b in
                rw (placed q x f) (inr (omega (arith, full, longer)))
          ]
        ]

  consider_all-Served_before :
      (measurements rest : List (MeasurementObservation F)) (w : MeasurementObservation F)
      (xs : List (SelectedObservation F))
      → All (λ m. (P : MeasurementObservation F → Type 0) → P m → Any P measurements) rest
      → Holds measurements xs
      → Served xs w
      → Served (consider_all codes for_position rest xs) w
  unfolding consider_all
  consider_all-Served_before ms [] w xs member h served = served
  consider_all-Served_before ms (m ∷ rest) w xs (here, there) h served =
      consider_all-Served_before ms rest w (consider_selected_observation codes m for_position xs)
        there (consider-Holds m xs ms here h) (consider-Served_before m xs w h.bounded served)

  consider_all-Holds :
      (measurements rest : List (MeasurementObservation F)) (xs : List (SelectedObservation F))
      → All (λ m. (P : MeasurementObservation F → Type 0) → P m → Any P measurements) rest
      → Holds measurements xs
      → Holds measurements (consider_all codes for_position rest xs)
        × All (Served (consider_all codes for_position rest xs)) rest
  unfolding consider_all
  consider_all-Holds ms [] xs member h = (h, tt)
  consider_all-Holds ms (m ∷ rest) xs (here, there) h =
      let next = consider_selected_observation codes m for_position xs in
      let h' = consider-Holds m xs ms here h in
      let (final, served) = consider_all-Holds ms rest next there h' in
      (final, (consider_all-Served_before ms rest m next there h' (consider-Served m xs), served))

  each_is_member :
      (all rest : List (MeasurementObservation F))
      → ((P : MeasurementObservation F → Type 0) → Any P rest → Any P all)
      → All (λ m. (P : MeasurementObservation F → Type 0) → P m → Any P all) rest
  each_is_member all [] f = tt
  each_is_member all (m ∷ rest) f =
      (λ P p. f P (inl p), each_is_member all rest (λ P p. f P (inr p)))

  -- What the solver gets of the measurements.
  pub record IsSelection (measurements : List (MeasurementObservation F))
      (xs : List (SelectedObservation F)) : Type 0 where
    pub rising : Rising xs
    pub bounded : length xs ≤ max_solver_satellites
    pub sources : All (ComesFrom measurements) xs
    pub served : All (Served xs) measurements

  -- The observations for the solver stand in the strict order of their satellites and are at most
  -- 64, each is made from one of the measurements that may enter the solution, and unless there are
  -- 64 of them, every satellite with such a measurement has an observation whose priority is not
  -- worse than that of any of its measurements.
  pub solver_observations-IsSelection :
      (measurements : List (MeasurementObservation F))
      → IsSelection measurements (solver_observations codes for_position measurements)
  unfolding solver_observations
  solver_observations-IsSelection measurements =
      let xs = consider_all codes for_position measurements [] in
      let (h, served) =
        consider_all-Holds measurements measurements []
          (each_is_member measurements measurements (λ P p. p))
          (record { distinct = tt; bounded = omega arith; sources = tt }) in
      let sorted = sort-IsSortOf xs h.distinct in
      let same_length = sorted.same_length in
      let bounded = h.bounded in
      record {
        rising = sorted.rising;
        bounded = omega arith;
        sources = sorted.all (ComesFrom measurements) h.sources;
        served =
            All-map (Served xs) (Served (sort_selected_observations xs)) measurements
              (λ m s p c e. elim (s p c e) [
                | inl has ↦ inl (
                    sorted.one (λ t. (t.satellite_number ≡ c.satellite_number) × (t.priority ≤ℤ p))
                      has)
                | inr full ↦ inr (omega (arith, full))
              ])
              served;
      }

-- ===== src/Solution/Best.antt =====
-- The selection of src/solution/solution_engine.cpp holds one observation for each satellite, of the
-- best priority.
use gnss_data_simulator.Prelude.{
  ℕ, zero, suc, ◌+◌, ◌≤◌, ◌≡◌, ◌⊎◌, inl, inr, refl, sym, ap, subst, ◌∙◌, true, false, Bool-cases,
  Option, none, some, if◌then◌else◌, ltb, List, [], ◌∷◌, ◌++◌, All, All-set, All-get, All-append,
  Any, Any-set, Any-set_at, Any-get, Any-append, length, length-set, length-append, set, get_elem?,
  arith,
}
use gnss_data_simulator.Prelude.Opt.{some-injective}
use gnss_data_simulator.Prelude.Int.{ℤ, ◌≤ℤ◌, ltb_ℤ, eq_ℤ, int_laws}
use gnss_data_simulator.Solution.{
  RtklibSolutionObservation, SelectedObservation, max_solver_satellites, find_selected_satellite,
  place_candidate,
}
use gnss_data_simulator.Solution.Sorted.{Apart, Distinct}

module _ {F : Type 0} where
  -- What the look-up says of the list.
  abbrev Finds : List (SelectedObservation F) → ℤ → Option (ℕ × SelectedObservation F) → Type 0
  Finds xs n none = All (λ t. eq_ℤ t.satellite_number n ≡ false) xs
  Finds xs n (some (i, s)) = (get_elem? xs i ≡ some s) × (eq_ℤ s.satellite_number n ≡ true)

  find-Finds :
      (xs : List (SelectedObservation F)) (n : ℤ) → Finds xs n (find_selected_satellite xs n)
  unfolding find_selected_satellite
  find-Finds [] n = tt
  find-Finds (x ∷ xs) n = elim (Bool-cases (eq_ℤ x.satellite_number n)) [
    | inl e ↦ rw e (refl, e)
    | inr e ↦ later x xs n e (find_selected_satellite xs n) (find-Finds xs n)
  ]
    where
      later :
          (x : SelectedObservation F) (xs : List (SelectedObservation F)) (n : ℤ)
          → eq_ℤ x.satellite_number n ≡ false
          → (r : Option (ℕ × SelectedObservation F)) → Finds xs n r
          → Finds (x ∷ xs) n (
              if eq_ℤ x.satellite_number n
              then some (0, x)
              else elim r [ none ↦ none | some (i, t) ↦ some (suc i, t) ])
      later x xs n e none f = rw e (e, f)
      later x xs n e (some (i, t)) f = rw e f

  Distinct-set :
      (xs : List (SelectedObservation F)) (i : ℕ) (s v : SelectedObservation F)
      → get_elem? xs i ≡ some s
      → v.satellite_number ≡ s.satellite_number
      → Distinct xs
      → Distinct (set xs i v)
  Distinct-set [] i s v e same d = d
  Distinct-set (x ∷ xs) zero s v e same (a, d) =
      let same' =
        same
        ∙ ap (λ (t : SelectedObservation F). t.satellite_number) (sym (some-injective _ _ e)) in
      (subst (λ n. All (λ t. eq_ℤ n t.satellite_number ≡ false) xs) (sym same') a, d)
  Distinct-set (x ∷ xs) (suc i) s v e same (a, d) = (
    All-set (Apart x) xs i v a
        (subst (λ n. eq_ℤ x.satellite_number n ≡ false) (sym same) (All-get (Apart x) xs i s a e)),
    Distinct-set xs i s v e same d,
  )

  Distinct-append :
      (xs : List (SelectedObservation F)) (v : SelectedObservation F)
      → Distinct xs
      → All (λ t. eq_ℤ t.satellite_number v.satellite_number ≡ false) xs
      → Distinct (xs ++ v ∷ [])
  Distinct-append [] v d a = (tt, tt)
  Distinct-append (x ∷ xs) v (p, d) (q, a) =
      (All-append (Apart x) xs (v ∷ []) p (q, tt), Distinct-append xs v d a)

  -- The selection has an observation of the satellite whose priority is at least as good.
  abbrev pub Has : ℤ → ℤ → List (SelectedObservation F) → Type 0
  Has n priority xs = Any (λ s. (s.satellite_number ≡ n) × (s.priority ≤ℤ priority)) xs

  -- The observation that a candidate of a new satellite adds.
  abbrev added : ℤ → RtklibSolutionObservation F → SelectedObservation F
  added priority c = record {
    satellite_number = c.satellite_number;
    priority = priority;
    observation = c;
  }

  module _ (p : ℤ) (c : RtklibSolutionObservation F) (xs : List (SelectedObservation F)) where
    -- A property of what a candidate leaves.
    place_candidate_cases :
        (P : List (SelectedObservation F) → Type 0)
        → ((i : ℕ) (s : SelectedObservation F)
            → get_elem? xs i ≡ some s
            → s.satellite_number ≡ c.satellite_number
            → p ≤ℤ s.priority
            → P (set xs i (record s { priority = p; observation = c })))
        → ((i : ℕ) (s : SelectedObservation F)
            → get_elem? xs i ≡ some s
            → s.satellite_number ≡ c.satellite_number
            → s.priority ≤ℤ p
            → P xs)
        → (All (λ t. eq_ℤ t.satellite_number c.satellite_number ≡ false) xs
            → length xs + 1 ≤ max_solver_satellites
            → P (xs ++ added p c ∷ []))
        → (max_solver_satellites ≤ length xs → P xs)
        → P (place_candidate p c xs)
    unfolding place_candidate
    place_candidate_cases P better worse new full =
        split (find_selected_satellite xs c.satellite_number) refl
          (find-Finds xs c.satellite_number)
      where
        split :
            (r : Option (ℕ × SelectedObservation F))
            → find_selected_satellite xs c.satellite_number ≡ r
            → Finds xs c.satellite_number r
            → P (place_candidate p c xs)
        split none e absent = elim (Bool-cases (ltb (length xs) max_solver_satellites)) [
          | inl f ↦ rw (e, f, place_candidate) (new absent (ground arith))
          | inr f ↦ rw (e, f, place_candidate) (full (ground arith))
        ]
        split (some (i, s)) e (at, same) = elim (Bool-cases (ltb_ℤ p s.priority)) [
          | inl f ↦ rw (e, f, place_candidate) (better i s at (ground arith) (ground arith))
          | inr f ↦ rw (e, f, place_candidate) (worse i s at (ground arith) (ground arith))
        ]

    pub place_candidate-Distinct : Distinct xs → Distinct (place_candidate p c xs)
    place_candidate-Distinct d =
        place_candidate_cases Distinct
          (λ i s at same le.
            Distinct-set xs i s (record s { priority = p; observation = c }) at refl d)
          (λ i s at same le. d) (λ absent room. Distinct-append xs (added p c) d absent) (λ full. d)

    pub place_candidate-bounded :
        length xs ≤ max_solver_satellites
        → (length (place_candidate p c xs) ≤ max_solver_satellites)
          × (length xs ≤ length (place_candidate p c xs))
    place_candidate-bounded b =
        place_candidate_cases (λ ys. (length ys ≤ max_solver_satellites) × (length xs ≤ length ys))
          (λ i s at same le.
            let same_length = length-set xs i (record s { priority = p; observation = c }) in
            (omega (arith, same_length), omega (arith, same_length)))
          (λ i s at same le. (b, omega arith))
          (λ absent room.
            let longer = length-append xs (added p c ∷ []) in
            (omega (arith, longer), omega (arith, longer)))
          (λ full. (b, omega arith))

    pub place_candidate-All :
        (P : SelectedObservation F → Type 0)
        → ((s : SelectedObservation F)
            → s.satellite_number ≡ c.satellite_number
            → P (record s { priority = p; observation = c }))
        → All P xs
        → All P (place_candidate p c xs)
    place_candidate-All P new ps =
        place_candidate_cases (All P)
          (λ i s at same le.
            All-set P xs i (record s { priority = p; observation = c }) ps (new s same))
          (λ i s at same le. ps)
          (λ absent room. All-append P xs (added p c ∷ []) ps (new (added p c) refl, tt))
          (λ full. ps)

    -- What the selection has, it keeps.
    pub place_candidate-Has_before : (n q : ℤ) → Has n q xs → Has n q (place_candidate p c xs)
    place_candidate-Has_before n q has =
        let P = λ (s : SelectedObservation F). (s.satellite_number ≡ n) × (s.priority ≤ℤ q) in
        place_candidate_cases (Has n q)
          (λ i s at same le.
            Any-set P xs i s (record s { priority = p; observation = c }) at
              (λ (h, k). (h, omega (int_laws, k, le))) has)
          (λ i s at same le. has) (λ absent room. Any-append P xs (added p c ∷ []) (inl has))
          (λ full. has)

    -- The candidate's satellite is there afterwards, unless there is no more room.
    pub place_candidate-Has :
        Has c.satellite_number p (place_candidate p c xs)
        ⊎ (max_solver_satellites ≤ length (place_candidate p c xs))
    place_candidate-Has =
        let P = λ (s : SelectedObservation F).
          (s.satellite_number ≡ c.satellite_number) × (s.priority ≤ℤ p) in
        place_candidate_cases
          (λ ys. Has c.satellite_number p ys ⊎ (max_solver_satellites ≤ length ys))
          (λ i s at same le. inl (
            Any-set_at P xs i s (record s { priority = p; observation = c }) at
              (same, omega int_laws)))
          (λ i s at same le. inl (Any-get P xs i s at (same, le)))
          (λ absent room. inl (Any-append P xs (added p c ∷ []) (inr (inl (refl, omega int_laws)))))
          (λ full. inr full)

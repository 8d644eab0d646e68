-- ===== src/Solution/Sorted.antt =====
-- The sort of src/solution/solution_engine.cpp: the order it makes, and that it keeps what is there.
use gnss_data_simulator.Prelude.{
  ◌+◌, ◌≡◌, ◌⊎◌, inl, inr, refl, false, Bool-cases, if-split, List, [], ◌∷◌, All, All-map, Any,
  length, arith,
}
use gnss_data_simulator.Prelude.Int.{◌<ℤ◌, ltb_ℤ, eq_ℤ}
use gnss_data_simulator.Solution.{
  SelectedObservation, shift, sort_from, forwards, sort_selected_observations,
}

module _ {F : Type 0} where
  -- The number of one satellite is less than that of another, or they are different.
  abbrev pub Below : SelectedObservation F → SelectedObservation F → Type 0
  Below s t = s.satellite_number <ℤ t.satellite_number

  abbrev pub Apart : SelectedObservation F → SelectedObservation F → Type 0
  Apart s t = eq_ℤ s.satellite_number t.satellite_number ≡ false

  -- The satellites rise, fall, or are different.
  abbrev pub Rising : List (SelectedObservation F) → Type 0
  Rising [] = Unit {0}
  Rising (s ∷ rest) = All (Below s) rest × Rising rest

  abbrev pub Falling : List (SelectedObservation F) → Type 0
  Falling [] = Unit {0}
  Falling (s ∷ rest) = All (λ t. Below t s) rest × Falling rest

  abbrev pub Distinct : List (SelectedObservation F) → Type 0
  Distinct [] = Unit {0}
  Distinct (s ∷ rest) = All (Apart s) rest × Distinct rest

  All-shift :
      (P : SelectedObservation F → Type 0) (v : SelectedObservation F)
      (xs : List (SelectedObservation F))
      → P v
      → All P xs
      → All P (shift v xs)
  unfolding shift
  All-shift P v [] p ps = (p, tt)
  All-shift P v (x ∷ xs) p (q, ps) =
      if-split (All P) (ltb_ℤ v.satellite_number x.satellite_number)
        (λ u. (q, All-shift P v xs p ps)) (λ u. (p, (q, ps)))

  Any-shift :
      (P : SelectedObservation F → Type 0) (v : SelectedObservation F)
      (xs : List (SelectedObservation F))
      → P v ⊎ Any P xs
      → Any P (shift v xs)
  unfolding shift
  Any-shift P v [] (inl p) = inl p
  Any-shift P v [] (inr q) = elim q [ ]
  Any-shift P v (x ∷ xs) (inl p) =
      if-split (Any P) (ltb_ℤ v.satellite_number x.satellite_number)
        (λ u. inr (Any-shift P v xs (inl p))) (λ u. inl p)
  Any-shift P v (x ∷ xs) (inr (inl q)) =
      if-split (Any P) (ltb_ℤ v.satellite_number x.satellite_number) (λ u. inl q) (λ u. inr (inl q))
  Any-shift P v (x ∷ xs) (inr (inr q)) =
      if-split (Any P) (ltb_ℤ v.satellite_number x.satellite_number)
        (λ u. inr (Any-shift P v xs (inr q))) (λ u. inr (inr q))

  length-shift :
      (v : SelectedObservation F) (xs : List (SelectedObservation F))
      → length (shift v xs) ≡ length xs + 1
  unfolding shift
  length-shift v [] = refl
  length-shift v (x ∷ xs) = elim (Bool-cases (ltb_ℤ v.satellite_number x.satellite_number)) [
    | inl e ↦ rw e (omega (arith, length-shift v xs))
    | inr e ↦ rw e (omega arith)
  ]

  after :
      (v x : SelectedObservation F)
      → ltb_ℤ v.satellite_number x.satellite_number ≡ false
      → Apart v x
      → Below x v
  after v x h k = ground arith

  shift-Falling :
      (v : SelectedObservation F) (xs : List (SelectedObservation F))
      → All (Apart v) xs
      → Falling xs
      → Falling (shift v xs)
  unfolding shift
  shift-Falling v [] a f = (tt, tt)
  shift-Falling v (x ∷ xs) (a, apart) (f, fs) =
      if-split Falling (ltb_ℤ v.satellite_number x.satellite_number)
        (λ u. (All-shift (λ t. Below t x) v xs (ground arith) f, shift-Falling v xs apart fs))
        (λ u.
          let below = after v x u a in
          (
            (
              below,
              All-map (λ t. Below t x) (λ t. Below t v) xs (λ t h. omega (arith, h, below)) f,
            ),
            (f, fs),
          ))

  sort_from-Falling :
      (rest sorted : List (SelectedObservation F))
      → All (λ v. All (Apart v) sorted) rest
      → Distinct rest
      → Falling sorted
      → Falling (sort_from sorted rest)
  unfolding sort_from
  sort_from-Falling [] sorted a d f = f
  sort_from-Falling (v ∷ rest) sorted (a, others) (d, ds) f =
      sort_from-Falling rest (shift v sorted) (spread rest others d) ds (shift-Falling v sorted a f)
    where
      turned : (s t : SelectedObservation F) → Apart s t → Apart t s
      turned s t h = ground arith

      spread :
          (rest : List (SelectedObservation F))
          → All (λ w. All (Apart w) sorted) rest
          → All (Apart v) rest
          → All (λ w. All (Apart w) (shift v sorted)) rest
      spread [] a d = tt
      spread (w ∷ rest) (a, others) (d, ds) =
          (All-shift (Apart w) v sorted (turned v w d) a, spread rest others ds)

  All-forwards :
      (P : SelectedObservation F → Type 0) (xs ys : List (SelectedObservation F))
      → All P xs
      → All P ys
      → All P (forwards xs ys)
  unfolding forwards
  All-forwards P [] ys p q = q
  All-forwards P (x ∷ xs) ys (p, ps) q = All-forwards P xs (x ∷ ys) ps (p, q)

  Any-forwards :
      (P : SelectedObservation F → Type 0) (xs ys : List (SelectedObservation F))
      → Any P xs ⊎ Any P ys
      → Any P (forwards xs ys)
  unfolding forwards
  Any-forwards P [] ys (inl p) = elim p [ ]
  Any-forwards P [] ys (inr p) = p
  Any-forwards P (x ∷ xs) ys (inl (inl p)) = Any-forwards P xs (x ∷ ys) (inr (inl p))
  Any-forwards P (x ∷ xs) ys (inl (inr p)) = Any-forwards P xs (x ∷ ys) (inl p)
  Any-forwards P (x ∷ xs) ys (inr p) = Any-forwards P xs (x ∷ ys) (inr (inr p))

  length-forwards :
      (xs ys : List (SelectedObservation F)) → length (forwards xs ys) ≡ length xs + length ys
  unfolding forwards
  length-forwards [] ys = omega arith
  length-forwards (x ∷ xs) ys = omega (arith, length-forwards xs (x ∷ ys))

  forwards-Rising :
      (xs ys : List (SelectedObservation F))
      → Falling xs
      → Rising ys
      → All (λ x. All (Below x) ys) xs
      → Rising (forwards xs ys)
  unfolding forwards
  forwards-Rising [] ys f r b = r
  forwards-Rising (x ∷ xs) ys (f, fs) r (b, bs) =
      forwards-Rising xs (x ∷ ys) fs (b, r) (both xs f bs)
    where
      both :
          (zs : List (SelectedObservation F))
          → All (λ t. Below t x) zs
          → All (λ t. All (Below t) ys) zs
          → All (λ t. Below t x × All (Below t) ys) zs
      both [] p q = tt
      both (z ∷ zs) (p, ps) (q, qs) = ((p, q), both zs ps qs)

  All-sort_from :
      (P : SelectedObservation F → Type 0) (rest sorted : List (SelectedObservation F))
      → All P sorted
      → All P rest
      → All P (sort_from sorted rest)
  unfolding sort_from
  All-sort_from P [] sorted p q = p
  All-sort_from P (v ∷ rest) sorted p (q, qs) =
      All-sort_from P rest (shift v sorted) (All-shift P v sorted q p) qs

  Any-sort_from :
      (P : SelectedObservation F → Type 0) (rest sorted : List (SelectedObservation F))
      → Any P sorted ⊎ Any P rest
      → Any P (sort_from sorted rest)
  unfolding sort_from
  Any-sort_from P [] sorted (inl p) = p
  Any-sort_from P [] sorted (inr p) = elim p [ ]
  Any-sort_from P (v ∷ rest) sorted (inl p) =
      Any-sort_from P rest (shift v sorted) (inl (Any-shift P v sorted (inr p)))
  Any-sort_from P (v ∷ rest) sorted (inr (inl p)) =
      Any-sort_from P rest (shift v sorted) (inl (Any-shift P v sorted (inl p)))
  Any-sort_from P (v ∷ rest) sorted (inr (inr p)) = Any-sort_from P rest (shift v sorted) (inr p)

  length-sort_from :
      (rest sorted : List (SelectedObservation F))
      → length (sort_from sorted rest) ≡ length sorted + length rest
  unfolding sort_from
  length-sort_from [] sorted = omega arith
  length-sort_from (v ∷ rest) sorted =
      omega (arith, length-sort_from rest (shift v sorted), length-shift v sorted)

  -- The sort of observations of different satellites makes the satellites rise, and keeps the
  -- number of observations and what is true of all of them, or of one.
  pub record IsSortOf (xs ys : List (SelectedObservation F)) : Type 1 where
    pub rising : Rising ys
    pub same_length : length ys ≡ length xs
    pub all : (P : SelectedObservation F → Type 0) → All P xs → All P ys
    pub one : (P : SelectedObservation F → Type 0) → Any P xs → Any P ys

  pub sort-IsSortOf :
      (xs : List (SelectedObservation F))
      → Distinct xs
      → IsSortOf xs (sort_selected_observations xs)
  unfolding sort_selected_observations
  sort-IsSortOf xs distinct =
      let sorted = sort_from [] xs in
      record {
        rising =
            forwards-Rising sorted [] (sort_from-Falling xs [] (nothing xs) distinct tt) tt
              (nothing' sorted);
        same_length = omega (arith, length-forwards sorted [], length-sort_from xs []);
        all = λ P p. All-forwards P sorted [] (All-sort_from P xs [] tt p) tt;
        one = λ P p. Any-forwards P sorted [] (inl (Any-sort_from P xs [] (inr p)));
      }
    where
      nothing : (zs : List (SelectedObservation F)) → All (λ v. All (Apart v) []) zs
      nothing [] = tt
      nothing (z ∷ zs) = (tt, nothing zs)

      nothing' : (zs : List (SelectedObservation F)) → All (λ v. All (Below v) []) zs
      nothing' [] = tt
      nothing' (z ∷ zs) = (tt, nothing' zs)

-- ===== src/NavState/Delivery.antt =====
-- Each record of the truth is delivered once by src/gnss/navigation_state.cpp.
use gnss_data_simulator.Prelude.{
  ℕ, zero, suc, ◌+◌, ◌<◌, ◌≡◌, ◌⊎◌, inl, inr, refl, sym, subst, ◌∙◌, Bool, true, false, Bool-cases,
  Option-cases, if◌then◌else◌, ltb, ◌==◌, Option, some, List, [], ◌∷◌, ◌++◌, length, set, arith,
}
use gnss_data_simulator.Prelude.Opt.{some-injective}
use gnss_data_simulator.Prelude.Int.{ℤ, pos, negsuc}
use gnss_data_simulator.Prelude.Result.{Result, ok}
use gnss_data_simulator.Double.{Double}
use gnss_data_simulator.Time.{SimTime, valid_normalized_time}
use gnss_data_simulator.NavState.{
  NavLibrary, NavigationState, NavigationUpdateEvent, NavigationError, index_in, delivered_at,
  deliver, update_event, apply_truth_navigation_record, find_receiver_record_index,
}

-- How often a record is announced.
abbrev pub count_events : ℕ → List NavigationUpdateEvent → ℕ
count_events i [] = 0
count_events i (e ∷ events) = (if e.truth_record_index == i then 1 else 0) + count_events i events

abbrev pub events_of :
    Result NavigationError (Option NavigationUpdateEvent) → List NavigationUpdateEvent
events_of (ok (some e)) = e ∷ []
events_of _ = []

-- Every record is as it was and is not announced, or has been delivered and is announced once.
abbrev pub Once : List Bool → List Bool → List NavigationUpdateEvent → Type 0
Once before after events =
    (i : ℕ)
    → ((delivered_at after i ≡ delivered_at before i) × (count_events i events ≡ 0))
      ⊎ ((delivered_at before i ≡ false)
          × (delivered_at after i ≡ true)
          × (count_events i events ≡ 1))

count_events-append :
    (i : ℕ) (es fs : List NavigationUpdateEvent)
    → count_events i (es ++ fs) ≡ count_events i es + count_events i fs
count_events-append i [] fs = omega arith
count_events-append i (e ∷ es) fs = omega (arith, count_events-append i es fs)

Once-trans :
    (a b c : List Bool) (es fs : List NavigationUpdateEvent)
    → Once a b es
    → Once b c fs
    → Once a c (es ++ fs)
Once-trans a b c es fs p q i =
    let sum = count_events-append i es fs in
    elim (p i) [
      | inl (same, none') ↦ elim (q i) [
        | inl (same', none'') ↦ inl (same' ∙ same, omega (arith, sum, none', none''))
        | inr (off, on, one) ↦ inr (sym same ∙ off, on, omega (arith, sum, none', one))
      ]
      | inr (off, on, one) ↦ elim (q i) [
        | inl (same', none'') ↦ inr (off, same' ∙ on, omega (arith, sum, one, none''))
        | inr (off', on', one') ↦ ground (arith, off', on)
      ]
    ]

delivered_at-set_self :
    (xs : List Bool) (n : ℕ) → n < length xs → delivered_at (set xs n true) n ≡ true
delivered_at-set_self [] n h = absurd (omega arith)
delivered_at-set_self (x ∷ xs) zero h = refl
delivered_at-set_self (x ∷ xs) (suc n) h = delivered_at-set_self xs n (omega arith)

delivered_at-set_other :
    (xs : List Bool) (n i : ℕ)
    → (n == i) ≡ false
    → delivered_at (set xs n true) i ≡ delivered_at xs i
delivered_at-set_other [] n i h = refl
delivered_at-set_other (x ∷ xs) zero zero h = ground (arith, h)
delivered_at-set_other (x ∷ xs) zero (suc i) h = refl
delivered_at-set_other (x ∷ xs) (suc n) zero h = refl
delivered_at-set_other (x ∷ xs) (suc n) (suc i) h = delivered_at-set_other xs n i (ground arith)

-- A record that is set and announced.
set-Once :
    (xs : List Bool) (n : ℕ) (e : NavigationUpdateEvent)
    → n < length xs
    → delivered_at xs n ≡ false
    → e.truth_record_index ≡ n
    → Once xs (set xs n true) (e ∷ [])
set-Once xs n e h off same i = elim (Bool-cases (n == i)) [
  | inl f ↦
      let at : n ≡ i = ground arith in
      inr (
        subst (λ k. delivered_at xs k ≡ false) at off,
        subst (λ k. delivered_at (set xs n true) k ≡ true) at (delivered_at-set_self xs n h),
        rw (same, f) refl,
      )
  | inr f ↦ inl (delivered_at-set_other xs n i f, rw (same, f) refl)
]

in_range : (xs : List Bool) (k : ℤ) (n : ℕ) → index_in xs k ≡ some n → n < length xs
in_range xs (pos m) n e = elim (Bool-cases (ltb m (length xs))) [
  | inl f ↦ subst (λ k. k < length xs) (some-injective _ _ (rw f at e)) (ground arith)
  | inr f ↦ ground (arith, e, f)
]
in_range xs (negsuc m) n e = ground (arith, e)

module _ {Store F : Type 0} ⦃d : Double F⦄ (library : NavLibrary Store F) where
  open library use {record_info, copy_record}

  deliver-Once :
      (state : NavigationState Store) (n : ℕ) (time : SimTime)
      → n < length state.delivered_records
      → delivered_at state.delivered_records n ≡ false
      → Once state.delivered_records
          (deliver library state n time).0.delivered_records
          (events_of (deliver library state n time).1)
  unfolding deliver update_event
  deliver-Once state n time h off = elim (Option-cases (record_info state.truth_nav n)) [
    | inl e ↦ rw (e, deliver) (λ i. inl (refl, refl))
    | inr (info, e) ↦
        let (receiver_nav, copied) = copy_record state.truth_nav n state.receiver_nav in
        elim (Bool-cases copied) [
          | inr f ↦ rw (e, f, deliver) (λ i. inl (refl, refl))
          | inl f ↦ elim (Option-cases (find_receiver_record_index library receiver_nav info)) [
            | inl g ↦ rw (e, f, g, deliver) (λ i. inl (refl, refl))
            | inr (r, g) ↦
                rw (e, f, g, deliver)
                  (set-Once state.delivered_records n (update_event library time n r info) h off
                    refl)
          ]
        ]
  ]

  apply-Once :
      (state : NavigationState Store) (k : ℤ) (time : SimTime)
      → Once state.delivered_records
          (apply_truth_navigation_record library state k time).0.delivered_records
          (events_of (apply_truth_navigation_record library state k time).1)
  unfolding apply_truth_navigation_record
  apply-Once state k time = elim (Bool-cases (valid_normalized_time time)) [
    | inr e ↦ rw (e, apply_truth_navigation_record) (λ i. inl (refl, refl))
    | inl e ↦ elim (Option-cases (index_in state.delivered_records k)) [
      | inl f ↦ rw (e, f, apply_truth_navigation_record) (λ i. inl (refl, refl))
      | inr (n, f) ↦ elim (Bool-cases (delivered_at state.delivered_records n)) [
        | inl g ↦ rw (e, f, g, apply_truth_navigation_record) (λ i. inl (refl, refl))
        | inr g ↦
            rw (e, f, g, apply_truth_navigation_record)
              (deliver-Once state n time (in_range state.delivered_records k n f) g)
      ]
    ]
  ]

  -- One request after another, whether they succeed or not, with the events emitted.
  abbrev pub deliveries :
      NavigationState Store
      → List (ℤ × SimTime)
      → NavigationState Store × List NavigationUpdateEvent
  deliveries state [] = (state, [])
  deliveries state ((k, time) ∷ requests) =
      let (next, outcome) = apply_truth_navigation_record library state k time in
      let (final, events) = deliveries next requests in (final, events_of outcome ++ events)

  -- In every sequence of requests, also such as fail, each record is announced at most once: it is
  -- as it was and is not announced, or it had not been delivered, has been now, and is announced
  -- exactly once.
  pub deliveries-Once :
      (requests : List (ℤ × SimTime)) (state : NavigationState Store)
      → Once state.delivered_records
          (deliveries state requests).0.delivered_records
          (deliveries state requests).1
  deliveries-Once [] state = λ i. inl (refl, refl)
  deliveries-Once ((k, time) ∷ requests) state =
      let (next, outcome) = apply_truth_navigation_record library state k time in
      let final = (deliveries next requests).0 in
      Once-trans state.delivered_records next.delivered_records final.delivered_records
        (events_of outcome) (deliveries next requests).1 (apply-Once state k time)
        (deliveries-Once requests next)

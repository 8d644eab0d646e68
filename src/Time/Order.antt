-- ===== src/Time/Order.antt =====
-- `compare_sim_time` is the order of the totals.
use gnss_data_simulator.Prelude.{
  ℕ, ◌≤◌, false, sym, Bool-cases, ◌≡◌, ◌⊎◌, inl, inr, refl, ap, ◌↔◌, arith, ltb, lt→ltb,
}
use gnss_data_simulator.Prelude.Int.{ℤ, pos, negsuc, ltb_ℤ, ◌<ℤ◌, int_laws, Same-of_eq}
use gnss_data_simulator.Time.{SimTime, compare_sim_time}
use gnss_data_simulator.Time.Total.{IsNormal, total_ns, SimTime_eq}

not_lt→ltb : (a b : ℕ) → b ≤ a → ltb a b ≡ false
not_lt→ltb a b h = ground arith

not_self : {a b : SimTime} → a ≡ b → ¬ (total_ns a <ℤ total_ns b)
not_self {a} {b} e h = let same = Same-of_eq (ap total_ns e) in omega (arith, same, h)

-- The three outcomes, each with what it says of the totals.
module _ (a b : SimTime) where
  abbrev Outcome : ℤ → Type 0
  Outcome c =
      ((c ≡ negsuc 0) × (total_ns a <ℤ total_ns b))
      ⊎ ((c ≡ pos 0) × (a ≡ b))
      ⊎ ((c ≡ pos 1) × (total_ns b <ℤ total_ns a))

  compare_cases : IsNormal a → IsNormal b → Outcome (compare_sim_time a b)
  unfolding compare_sim_time
  compare_cases n m = elim (Bool-cases (ltb_ℤ a.gps_week b.gps_week)) [
    | inl e ↦ rw e (inl (refl, omega int_laws))
    | inr e ↦ elim (Bool-cases (ltb_ℤ b.gps_week a.gps_week)) [
      | inl f ↦ rw (e, f) (inr (inr (refl, omega int_laws)))
      | inr f ↦ elim (Bool-cases (ltb_ℤ a.tow_ns b.tow_ns)) [
        | inl g ↦ rw (e, f, g) (inl (refl, omega int_laws))
        | inr g ↦ elim (Bool-cases (ltb_ℤ b.tow_ns a.tow_ns)) [
          | inl h ↦ rw (e, f, g, h) (inr (inr (refl, omega int_laws)))
          | inr h ↦
              rw (e, f, g, h) (inr (inl (refl, SimTime_eq a b (omega int_laws) (omega int_laws))))
        ]
      ]
    ]
  ]

  -- The test that a time is before another is that of their totals.
  pub compare-lt_zero :
      IsNormal a
      → IsNormal b
      → ltb_ℤ (compare_sim_time a b) (pos 0) ≡ ltb_ℤ (total_ns a) (total_ns b)
  compare-lt_zero n m = elim (compare_cases n m) [
    | inl (e, h) ↦ rw e (sym (lt→ltb _ _ h))
    | inr (inl (e, h)) ↦ rw (e, h) (sym (not_lt→ltb _ _ (omega arith)))
    | inr (inr (e, h)) ↦ rw e (sym (not_lt→ltb _ _ (omega arith)))
  ]

  pub compare-zero_lt :
      IsNormal a
      → IsNormal b
      → ltb_ℤ (pos 0) (compare_sim_time a b) ≡ ltb_ℤ (total_ns b) (total_ns a)
  compare-zero_lt n m = elim (compare_cases n m) [
    | inl (e, h) ↦ rw e (sym (not_lt→ltb _ _ (omega arith)))
    | inr (inl (e, h)) ↦ rw (e, h) (sym (not_lt→ltb _ _ (omega arith)))
    | inr (inr (e, h)) ↦ rw e (sym (lt→ltb _ _ h))
  ]

  -- Of two normal times `compare_sim_time` is negative exactly when the total of the first is less,
  -- zero exactly when the times are equal, and positive exactly when the total of the second is
  -- less.
  pub compare_sim_time_iff :
      IsNormal a
      → IsNormal b
      → ((compare_sim_time a b ≡ negsuc 0) ↔ (total_ns a <ℤ total_ns b))
        × ((compare_sim_time a b ≡ pos 0) ↔ (a ≡ b))
        × ((compare_sim_time a b ≡ pos 1) ↔ (total_ns b <ℤ total_ns a))
  compare_sim_time_iff n m = elim (compare_cases n m) [
    | inl (e, h) ↦ (
      (λ _. h, λ _. e),
      (λ f. ground (arith, e, f), λ f. absurd (not_self f h)),
      (λ f. ground (arith, e, f), λ g. absurd (omega (arith, g, h))),
    )
    | inr (inl (e, h)) ↦ (
      (λ f. ground (arith, e, f), λ g. absurd (not_self h g)),
      (λ _. h, λ _. e),
      (λ f. ground (arith, e, f), λ g. absurd (not_self (sym h) g)),
    )
    | inr (inr (e, h)) ↦ (
      (λ f. ground (arith, e, f), λ g. absurd (omega (arith, g, h))),
      (λ f. ground (arith, e, f), λ f. absurd (not_self (sym f) h)),
      (λ _. h, λ _. e),
    )
  ]

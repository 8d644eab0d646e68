-- ===== src/NavSchedule/Completion.antt =====
-- A plan is complete exactly from its availability time on.
use Prim.Native.Nat.{bit_or}
use gnss_data_simulator.Prelude.{
  ℕ, ◌+◌, ◌≤◌, ◌<◌, ◌≡◌, ◌↔◌, Bool, true, false, not, ◌&&◌, ◌||◌, ◌==◌, ==_iff, List, [], ◌∷◌, inl,
  inr, Bool-cases, All, length, arith, refl, sym, ◌∙◌, if◌then◌else◌, lt→ltb, ltb→lt, ltb_false→le,
}
use gnss_data_simulator.Prelude.Bits.{bit, bit-bit_or, bit-pow, bit_nought, bit_and-eq_iff}
use gnss_data_simulator.Prelude.Int.{ℤ, pos, ltb_ℤ, leb_ℤ, ◌≤ℤ◌}
use gnss_data_simulator.Time.{SimTime, compare_sim_time, valid_normalized_time}
use gnss_data_simulator.Time.Total.{IsNormal, total_ns, valid_normalized_time_iff}
use gnss_data_simulator.Time.Order.{compare-zero_lt, compare-lt_zero}
use gnss_data_simulator.NavSchedule.{NavAcquisitionFragment, NavAcquisitionPlan}
use gnss_data_simulator.NavSchedule.Invariant.{
  IsPlan, Numbered, CompleteBy, CompleteBy-mono, HasNormalTime,
}
use gnss_data_simulator.NavSchedule.Reception.{
  received_by, nav_acquisition_received_mask, nav_acquisition_complete,
}

-- Whether the k-th fragment, counted from the i-th, is complete.
abbrev got : ℤ → ℕ → ℕ → List NavAcquisitionFragment → Bool
got now k i [] = false
got now k i (f ∷ fs) = (k == i && leb_ℤ (total_ns f.completion_time) now) || got now k (i + 1) fs

got-below : (now : ℤ) (k i : ℕ) (fs : List NavAcquisitionFragment) → k < i → got now k i fs ≡ false
got-below now k i [] h = refl
got-below now k i (f ∷ fs) h = ground (arith, got-below now k (i + 1) fs)

-- `<=` of the code on two times, as an order of totals.
not_after :
    (a b : SimTime)
    → IsNormal a
    → IsNormal b
    → leb_ℤ (compare_sim_time a b) (pos 0) ≡ leb_ℤ (total_ns a) (total_ns b)
not_after a b n m = flip (compare_sim_time a b) (total_ns a) (total_ns b) (compare-zero_lt a b n m)
  where
    flip : (c x y : ℤ) → ltb_ℤ (pos 0) c ≡ ltb_ℤ y x → leb_ℤ c (pos 0) ≡ leb_ℤ x y
    flip c x y h = ground arith

module _ (now : SimTime) (n : IsNormal now) where
  received_by_bits :
      (fs : List NavAcquisitionFragment) (i mask k : ℕ)
      → Numbered i fs
      → All HasNormalTime fs
      → bit k (received_by now fs mask) ≡ (bit k mask || got (total_ns now) k i fs)
  unfolding received_by
  received_by_bits [] i mask k h a = ground arith
  received_by_bits (f ∷ fs) i mask k (e, h) (m, a) =
      elim (Bool-cases (leb_ℤ (total_ns f.completion_time) (total_ns now))) [
        | inl c ↦
            rw
              (
                not_after f.completion_time now m n,
                c,
                received_by_bits fs (i + 1) (bit_or mask f.mask_bit) k h a,
                bit-bit_or k mask f.mask_bit,
                e,
                bit-pow k i,
              )
              (ground arith)
        | inr c ↦
            rw (not_after f.completion_time now m n, c, received_by_bits fs (i + 1) mask k h a)
              (ground arith)
      ]

  -- All bits are there exactly if all fragments are complete.
  complete_of_got :
      (fs : List NavAcquisitionFragment) (i : ℕ)
      → ((k : ℕ) → i ≤ k → k < i + length fs → got (total_ns now) k i fs ≡ true)
      → All (CompleteBy (total_ns now)) fs
  complete_of_got [] i h = tt
  complete_of_got (f ∷ fs) i h = (
    ground (arith, h i, got-below (total_ns now) i (i + 1) fs),
    complete_of_got fs (i + 1) λ k a b. ground (arith, h k),
  )

  got_of_complete :
      (fs : List NavAcquisitionFragment) (i k : ℕ)
      → All (CompleteBy (total_ns now)) fs
      → i ≤ k
      → k < i + length fs
      → got (total_ns now) k i fs ≡ true
  got_of_complete [] i k c a b = absurd (omega arith)
  got_of_complete (f ∷ fs) i k c a b = ground (arith, got_of_complete fs (i + 1) k c.1)

  module _ (p : NavAcquisitionPlan) (v : IsPlan p) where
    valid : valid_normalized_time now ≡ true
    valid = (valid_normalized_time_iff now n.week_le).1 n

    abbrev before : Bool
    before = ltb_ℤ (total_ns now) (total_ns p.acquisition_time)

    received_lem :
        nav_acquisition_received_mask p now ≡ (if before then 0 else received_by now p.fragments 0)
    unfolding nav_acquisition_received_mask
    received_lem = rw (valid, compare-lt_zero now p.acquisition_time n v.acquisition) refl

    -- Before the acquisition there is nothing.
    received_bits :
        (k : ℕ)
        → bit k (nav_acquisition_received_mask p now)
          ≡ (not before && got (total_ns now) k 0 p.fragments)
    received_bits k = elim (Bool-cases before) [
      | inl e ↦ rw (received_lem, e) (bit_nought k)
      | inr e ↦
          rw (received_lem, e)
            (received_by_bits p.fragments 0 0 k v.numbered v.normal ∙ rw (bit_nought k) refl)
    ]

    required_ne_zero : 0 < length p.fragments → (p.required_mask == 0) ≡ false
    required_ne_zero h = elim (Bool-cases (p.required_mask == 0)) [
      | inr e ↦ e
      | inl e ↦
          let z : p.required_mask ≡ 0 = (==_iff _ _).0 e in
          let b : bit 0 p.required_mask ≡ true = v.required 0 ∙ lt→ltb 0 (length p.fragments) h in
          absurd (ground (arith, z, b))
    ]

    complete_lem :
        0 < length p.fragments
        → (nav_acquisition_complete p now ≡ true) ↔ (
            (k : ℕ)
            → bit k p.required_mask ≡ true
            → bit k (nav_acquisition_received_mask p now) ≡ true)
    unfolding nav_acquisition_complete
    complete_lem h =
        let z = required_ne_zero h in
        let e = bit_and-eq_iff (nav_acquisition_received_mask p now) p.required_mask in
        (λ c. e.0 ((==_iff _ _).0 (rw z at c)), λ c. rw z ((==_iff _ _).1 (e.1 c)))

    -- At a normal time a plan with fragments is complete exactly if its availability time has come.
    pub nav_acquisition_complete_iff :
        0 < length p.fragments
        → (nav_acquisition_complete p now ≡ true) ↔ (total_ns p.availability_time ≤ℤ total_ns now)
    nav_acquisition_complete_iff h = (
      λ c.
          let bits = (complete_lem h).0 c in
          let first = bits 0 (v.required 0 ∙ lt→ltb 0 (length p.fragments) h) in
          let b : before ≡ false = ground (arith, received_bits 0, first) in
          v.least (total_ns now) (after b) (
            complete_of_got p.fragments 0 λ k a l. ground (
              arith,
              received_bits k,
              bits k (v.required k ∙ lt→ltb k (length p.fragments) (omega (arith, l))),
            )),
      λ c.
          let b : before ≡ false = not_before (omega (arith, v.not_before, c)) in
          let all = CompleteBy-mono _ _ p.fragments c v.bounded in
          (complete_lem h).1 λ k e.
            let l : k < length p.fragments = ltb→lt _ _ (sym (v.required k) ∙ e) in
            received_bits k
            ∙ rw b (got_of_complete p.fragments 0 k all (omega arith) (omega (arith, l))),
    )
      where
        after : before ≡ false → total_ns p.acquisition_time ≤ℤ total_ns now
        after b = ltb_false→le _ _ b

        not_before : total_ns p.acquisition_time ≤ℤ total_ns now → before ≡ false
        not_before b = ground arith

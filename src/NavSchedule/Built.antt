-- ===== src/NavSchedule/Built.antt =====
-- The invariant of plans holds of every plan that `build_cold_nav_acquisition_plan` returns.
use mathlib.Core.Option.{some-injective}
use gnss_data_simulator.Prelude.{
  ℕ, zero, suc, ◌+◌, ◌*◌, ◌<◌, ◌≡◌, ◌||◌, ◌==◌, Option, some, none, inl, inr, ap, Option-cases,
  Bool-cases, leb, length, arith, refl, ◌∙◌,
}
use gnss_data_simulator.Prelude.Opt.{◌>>=◌, >>=-eq-some}
use gnss_data_simulator.Prelude.Result
use gnss_data_simulator.Prelude.Result.{Result, ok, err, ok-injective, >>=-eq-ok}
use gnss_data_simulator.Prelude.Int.{ℤ, pos, ◌≤ℤ◌, int_max}
use gnss_data_simulator.Prelude.Bits.{bit_nought}
use gnss_data_simulator.Double.{Double}
use gnss_data_simulator.Time.{SimTime, valid_normalized_time}
use gnss_data_simulator.Time.Total.{IsNormal, valid_normalized_time_iff}
use gnss_data_simulator.Signals.{SignalId, NavMessageFamily}
use gnss_data_simulator.NavSchedule.{
  NavAcquisitionPlan, NavScheduleVariant, beidou_d1, beidou_d2, add_periodic_fragment,
  bdt_from_gpst_offset_ns,
}
use gnss_data_simulator.NavSchedule.Plans.{
  Builder, build_lnav_plan, build_cnav_plan, build_cnav2_plan, build_glonass_fdma_plan,
  build_glonass_l3oc_plan, build_galileo_inav_e1_plan, build_galileo_inav_e5b_plan,
  build_galileo_fnav_plan, build_beidou_d1_plan, add_d2_pages, d2_page, build_beidou_d2_plan,
  build_beidou_bcnav1_plan, build_beidou_bcnav2_plan, build_beidou_bcnav3_plan,
  build_beidou_d1d2_plan, build_for_signal, checked_plan, empty_plan, PlanError, variant_is_default,
  plain, nav_family, build_cold_nav_acquisition_plan_with_variant,
}
use gnss_data_simulator.NavSchedule.Invariant.{IsPlan, Grown, add_periodic_fragment_ns-Grown}

Grown-trans : {p q r : NavAcquisitionPlan} → Grown p q → Grown q r → Grown p r
Grown-trans g h = record {
  plan = h.plan;
  same_acquisition = h.same_acquisition ∙ g.same_acquisition;
  same_issue = h.same_issue ∙ g.same_issue;
  same_signal = h.same_signal ∙ g.same_signal;
}

-- A builder that only adds fragments.
abbrev Grows : Builder → Type 0
Grows b = (p q : NavAcquisitionPlan) → IsPlan p → b p ≡ some q → Grown p q

Grows-bind : (b c : Builder) → Grows b → Grows c → Grows (λ p. b p >>= c)
Grows-bind b c g h p q v e =
    let (r, hr, hq) = >>=-eq-some (b p) c e in
    let first = g p r v hr in Grown-trans first (h r q first.plan hq)

module _ (t : SimTime) (h : t.gps_week ≤ℤ int_max) where
  Grows-slot : (c s d i : ℕ) (o : ℤ) → Grows (add_periodic_fragment t c s d i o)
  unfolding add_periodic_fragment
  Grows-slot c s d i o p q v e = add_periodic_fragment_ns-Grown t _ _ _ _ _ p q h e v

  two : (b1 b2 : Builder) → Grows b1 → Grows b2 → Grows (λ p. b1 p >>= b2)
  two b1 b2 = Grows-bind b1 b2

  three :
      (b1 b2 b3 : Builder)
      → Grows b1
      → Grows b2
      → Grows b3
      → Grows (λ p. b1 p >>= λ p1. b2 p1 >>= b3)
  three b1 b2 b3 g1 g2 g3 = Grows-bind b1 (λ p1. b2 p1 >>= b3) g1 (Grows-bind b2 b3 g2 g3)

  four :
      (b1 b2 b3 b4 : Builder)
      → Grows b1
      → Grows b2
      → Grows b3
      → Grows b4
      → Grows (λ p. b1 p >>= λ p1. b2 p1 >>= λ p2. b3 p2 >>= b4)
  four b1 b2 b3 b4 g1 g2 g3 g4 =
      Grows-bind b1 (λ p1. b2 p1 >>= λ p2. b3 p2 >>= b4) g1 (three b2 b3 b4 g2 g3 g4)

  build_lnav_plan-Grows : Grows (build_lnav_plan t)
  unfolding build_lnav_plan
  build_lnav_plan-Grows =
      three _ _ _ (Grows-slot 30 0 6 1 (pos 0)) (Grows-slot 30 6 6 2 (pos 0))
        (Grows-slot 30 12 6 3 (pos 0))

  build_cnav2_plan-Grows : Grows (build_cnav2_plan t)
  unfolding build_cnav2_plan
  build_cnav2_plan-Grows = Grows-slot 18 0 18 2 (pos 0)

  build_glonass_fdma_plan-Grows : Grows (build_glonass_fdma_plan t)
  unfolding build_glonass_fdma_plan
  build_glonass_fdma_plan-Grows =
      four _ _ _ _ (Grows-slot 30 0 2 1 (pos 0)) (Grows-slot 30 2 2 2 (pos 0))
        (Grows-slot 30 4 2 3 (pos 0)) (Grows-slot 30 6 2 4 (pos 0))

  build_glonass_l3oc_plan-Grows : Grows (build_glonass_l3oc_plan t)
  unfolding build_glonass_l3oc_plan
  build_glonass_l3oc_plan-Grows =
      three _ _ _ (Grows-slot 18 0 3 10 (pos 0)) (Grows-slot 18 3 3 11 (pos 0))
        (Grows-slot 18 6 3 12 (pos 0))

  build_galileo_inav_e1_plan-Grows : Grows (build_galileo_inav_e1_plan t)
  unfolding build_galileo_inav_e1_plan
  build_galileo_inav_e1_plan-Grows =
      four _ _ _ _ (Grows-slot 30 1 2 2 (pos 0)) (Grows-slot 30 3 2 4 (pos 0))
        (Grows-slot 30 21 2 1 (pos 0)) (Grows-slot 30 23 2 3 (pos 0))

  build_galileo_inav_e5b_plan-Grows : Grows (build_galileo_inav_e5b_plan t)
  unfolding build_galileo_inav_e5b_plan
  build_galileo_inav_e5b_plan-Grows =
      four _ _ _ _ (Grows-slot 30 0 2 1 (pos 0)) (Grows-slot 30 2 2 3 (pos 0))
        (Grows-slot 30 20 2 2 (pos 0)) (Grows-slot 30 22 2 4 (pos 0))

  build_galileo_fnav_plan-Grows : Grows (build_galileo_fnav_plan t)
  unfolding build_galileo_fnav_plan
  build_galileo_fnav_plan-Grows =
      four _ _ _ _ (Grows-slot 50 0 10 1 (pos 0)) (Grows-slot 50 10 10 2 (pos 0))
        (Grows-slot 50 20 10 3 (pos 0)) (Grows-slot 50 30 10 4 (pos 0))

  build_beidou_d1_plan-Grows : Grows (build_beidou_d1_plan t)
  unfolding build_beidou_d1_plan
  build_beidou_d1_plan-Grows =
      three _ _ _ (Grows-slot 30 0 6 1 bdt_from_gpst_offset_ns)
        (Grows-slot 30 6 6 2 bdt_from_gpst_offset_ns) (Grows-slot 30 12 6 3 bdt_from_gpst_offset_ns)

  build_beidou_bcnav1_plan-Grows : Grows (build_beidou_bcnav1_plan t)
  unfolding build_beidou_bcnav1_plan
  build_beidou_bcnav1_plan-Grows = Grows-slot 18 0 18 2 bdt_from_gpst_offset_ns

  build_beidou_bcnav2_plan-Grows : Grows (build_beidou_bcnav2_plan t)
  unfolding build_beidou_bcnav2_plan
  build_beidou_bcnav2_plan-Grows =
      three _ _ _ (Grows-slot 9 0 3 10 bdt_from_gpst_offset_ns)
        (Grows-slot 9 3 3 11 bdt_from_gpst_offset_ns) (Grows-slot 9 6 3 30 bdt_from_gpst_offset_ns)

  build_beidou_bcnav3_plan-Grows : Grows (build_beidou_bcnav3_plan t)
  unfolding build_beidou_bcnav3_plan
  build_beidou_bcnav3_plan-Grows =
      two _ _ (Grows-slot 2 0 1 10 bdt_from_gpst_offset_ns)
        (Grows-slot 2 1 1 30 bdt_from_gpst_offset_ns)

  build_cnav_plan-Grows : (n : ℕ) → Grows (build_cnav_plan t n)
  unfolding build_cnav_plan
  build_cnav_plan-Grows n =
      three _ _ _ (Grows-slot (3 * n) 0 n 10 (pos 0)) (Grows-slot (3 * n) n n 11 (pos 0))
        (Grows-slot (3 * n) (2 * n) n 30 (pos 0))

  d2_page-Grows : (page : ℕ) → Grows (d2_page t page)
  unfolding d2_page
  d2_page-Grows page p q v e = add_periodic_fragment_ns-Grown t _ _ _ _ _ p q h e v

  add_d2_pages-Grows : (left page : ℕ) → Grows (add_d2_pages t left page)
  unfolding add_d2_pages
  add_d2_pages-Grows zero page p q v e =
      rw (← some-injective _ _ e)
        (record { plan = v; same_acquisition = refl; same_issue = refl; same_signal = refl })
  add_d2_pages-Grows (suc left) page p q v e =
      Grows-bind (d2_page t page) (add_d2_pages t left (page + 1)) (d2_page-Grows page)
        (add_d2_pages-Grows left (page + 1)) p q v e

  renamed-Grows :
      (v : NavScheduleVariant) (b : Builder) → Grows b → Grows (λ p. b (record p { variant = v }))
  renamed-Grows v b g p q n e =
      let grown = g (record p { variant = v }) q (renamed n) e in
      record {
        plan = grown.plan;
        same_acquisition = grown.same_acquisition;
        same_issue = grown.same_issue;
        same_signal = grown.same_signal;
      }
    where
      renamed : IsPlan p → IsPlan (record p { variant = v })
      renamed i = record {
        acquisition = i.acquisition;
        availability = i.availability;
        count_le = i.count_le;
        numbered = i.numbered;
        required = i.required;
        normal = i.normal;
        not_before = i.not_before;
        bounded = i.bounded;
        least = i.least;
      }

  build_beidou_d1d2_plan-Grows : (v : NavScheduleVariant) → Grows (build_beidou_d1d2_plan v t)
  unfolding build_beidou_d1d2_plan build_beidou_d2_plan
  build_beidou_d1d2_plan-Grows beidou_d2 = add_d2_pages-Grows 10 1
  build_beidou_d1d2_plan-Grows _ =
      renamed-Grows beidou_d1 (build_beidou_d1_plan t) build_beidou_d1_plan-Grows

  -- What the switch over the signals returns.
  abbrev Returns : NavAcquisitionPlan → Result PlanError (Option NavAcquisitionPlan) → Type 0
  Returns p r = (q : NavAcquisitionPlan) → r ≡ ok (some q) → Grown p q

  plain-Returns :
      (v : NavScheduleVariant) (e : PlanError) (b : Builder)
      → Grows b
      → (p : NavAcquisitionPlan) → IsPlan p
      → Returns p (plain v e (b p))
  plain-Returns v e b g p n q h = elim (Bool-cases (variant_is_default v)) [
    | inl f ↦ g p q n (ok-injective (rw f at h))
    | inr f ↦ ground (arith, rw f at h)
  ]

  ok-Returns : (b : Builder) → Grows b → (p : NavAcquisitionPlan) → IsPlan p → Returns p (ok (b p))
  ok-Returns b g p n q h = g p q n (ok-injective h)

  build_for_signal-Returns :
      (id : SignalId) (v : NavScheduleVariant) (p : NavAcquisitionPlan)
      → IsPlan p
      → Returns p (build_for_signal id v t p)
  unfolding build_for_signal
  build_for_signal-Returns SignalId.gps_l1_ca v p n =
      plain-Returns v _ (build_lnav_plan t) build_lnav_plan-Grows p n
  build_for_signal-Returns SignalId.gps_l2p v p n =
      plain-Returns v _ (build_lnav_plan t) build_lnav_plan-Grows p n
  build_for_signal-Returns SignalId.qzss_l1_ca v p n =
      plain-Returns v _ (build_lnav_plan t) build_lnav_plan-Grows p n
  build_for_signal-Returns SignalId.gps_l2c v p n =
      plain-Returns v _ (build_cnav_plan t 12) (build_cnav_plan-Grows 12) p n
  build_for_signal-Returns SignalId.qzss_l2c v p n =
      plain-Returns v _ (build_cnav_plan t 12) (build_cnav_plan-Grows 12) p n
  build_for_signal-Returns SignalId.gps_l5q v p n =
      plain-Returns v _ (build_cnav_plan t 6) (build_cnav_plan-Grows 6) p n
  build_for_signal-Returns SignalId.qzss_l5q v p n =
      plain-Returns v _ (build_cnav_plan t 6) (build_cnav_plan-Grows 6) p n
  build_for_signal-Returns SignalId.gps_l1c v p n =
      plain-Returns v _ (build_cnav2_plan t) build_cnav2_plan-Grows p n
  build_for_signal-Returns SignalId.qzss_l1c v p n =
      plain-Returns v _ (build_cnav2_plan t) build_cnav2_plan-Grows p n
  build_for_signal-Returns SignalId.glonass_g1 v p n =
      plain-Returns v _ (build_glonass_fdma_plan t) build_glonass_fdma_plan-Grows p n
  build_for_signal-Returns SignalId.glonass_g2 v p n =
      plain-Returns v _ (build_glonass_fdma_plan t) build_glonass_fdma_plan-Grows p n
  build_for_signal-Returns SignalId.glonass_g3 v p n =
      plain-Returns v _ (build_glonass_l3oc_plan t) build_glonass_l3oc_plan-Grows p n
  build_for_signal-Returns SignalId.galileo_e1 v p n =
      plain-Returns v _ (build_galileo_inav_e1_plan t) build_galileo_inav_e1_plan-Grows p n
  build_for_signal-Returns SignalId.galileo_e5b v p n =
      plain-Returns v _ (build_galileo_inav_e5b_plan t) build_galileo_inav_e5b_plan-Grows p n
  build_for_signal-Returns SignalId.galileo_e5a v p n =
      plain-Returns v _ (build_galileo_fnav_plan t) build_galileo_fnav_plan-Grows p n
  build_for_signal-Returns SignalId.beidou_b1c v p n =
      plain-Returns v _ (build_beidou_bcnav1_plan t) build_beidou_bcnav1_plan-Grows p n
  build_for_signal-Returns SignalId.beidou_b2a v p n =
      plain-Returns v _ (build_beidou_bcnav2_plan t) build_beidou_bcnav2_plan-Grows p n
  build_for_signal-Returns SignalId.beidou_b2b v p n =
      plain-Returns v _ (build_beidou_bcnav3_plan t) build_beidou_bcnav3_plan-Grows p n
  build_for_signal-Returns SignalId.galileo_e6 v p n = λ q h. ground arith
  build_for_signal-Returns SignalId.beidou_b1i v p n =
      ok-Returns (build_beidou_d1d2_plan v t) (build_beidou_d1d2_plan-Grows v) p n
  build_for_signal-Returns SignalId.beidou_b3i v p n =
      ok-Returns (build_beidou_d1d2_plan v t) (build_beidou_d1d2_plan-Grows v) p n

empty_plan-IsPlan :
    (id : SignalId) (family : NavMessageFamily) (v : NavScheduleVariant) (t : SimTime) (issue : ℤ)
    → IsNormal t
    → IsPlan (empty_plan id family v t issue)
empty_plan-IsPlan id family v t issue n = record {
  acquisition = n;
  availability = n;
  count_le = omega arith;
  numbered = tt;
  required = λ k. ground (arith, bit_nought k);
  normal = tt;
  not_before = omega arith;
  bounded = tt;
  least = λ x h a. h;
}

checked_plan_lem :
    (r : Option NavAcquisitionPlan) (q : NavAcquisitionPlan)
    → checked_plan r ≡ ok q
    → (r ≡ some q) × (0 < length q.fragments)
unfolding checked_plan
checked_plan_lem none q h = ground arith
checked_plan_lem (some p) q h =
    elim (Bool-cases (leb (length p.fragments) 0 || p.required_mask == 0)) [
      | inl e ↦ ground (arith, rw e at h)
      | inr e ↦ let f = ok-injective (rw e at h) in (ap some f, rw (← f) (ground (arith, e)))
    ]

-- A plan that is returned is for the signal, the time and the issue of data that were asked for, is
-- a plan in the sense of the invariant, and has a fragment.
pub build_cold_nav_acquisition_plan-IsPlan :
    (F : Type 0) ⦃d : Double F⦄ (id : SignalId) (v : NavScheduleVariant) (t : SimTime) (issue : ℤ)
    {q : NavAcquisitionPlan}
    → t.gps_week ≤ℤ int_max
    → build_cold_nav_acquisition_plan_with_variant F id v t issue ≡ ok q
    → IsPlan q
      × (0 < length q.fragments)
      × (q.signal_id ≡ id)
      × (q.acquisition_time ≡ t)
      × (q.issue_data ≡ issue)
unfolding build_cold_nav_acquisition_plan_with_variant
build_cold_nav_acquisition_plan-IsPlan F id v t issue {q} h e =
    elim (Bool-cases (valid_normalized_time t)) [
      | inr f ↦ ground (arith, rw f at e)
      | inl f ↦ elim (Option-cases (nav_family F id)) [
        | inl g ↦ ground (arith, rw (f, g, build_cold_nav_acquisition_plan_with_variant) at e)
        | inr (family, g) ↦
            let e' : Result.◌>>=◌ (build_for_signal id v t (empty_plan id family v t issue))
                  checked_plan
                ≡ ok q =
              rw (f, g, build_cold_nav_acquisition_plan_with_variant) at e in
            let (r, hr, hq) = >>=-eq-ok _ _ e' in
            let (hs, pos_len) = checked_plan_lem r q hq in
            let n = (valid_normalized_time_iff t h).0 f in
            let grown =
              build_for_signal-Returns t h id v (empty_plan id family v t issue)
                (empty_plan-IsPlan id family v t issue n) q (hr ∙ ap ok hs) in
            (grown.plan, pos_len, grown.same_signal, grown.same_acquisition, grown.same_issue)
      ]
    ]

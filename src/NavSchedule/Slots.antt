-- ===== src/NavSchedule/Slots.antt =====
-- When a fragment completes: at the end of the first occurrence of its slot that starts at or after
-- the acquisition.
use native.Mathlib.Nat.{mod-lt}
use mathlib.Core.Option.{some-injective}
use gnss_data_simulator.Prelude.{
  ℕ, Bool, ◌||◌, ◌+◌, ◌*◌, ◌/◌, ◌%◌, ◌<◌, ◌≡◌, ◌⊎◌, false, some, inl, inr, Bool-cases, arith, ap,
  refl,
}
use gnss_data_simulator.Prelude.Opt.{>>=-eq-some}
use gnss_data_simulator.Prelude.Int.{
  ℤ, pos, pos_part, neg_part, ◌+ℤ◌, ◌-ℤ◌, ◌%ℤ◌, ◌/ℤ◌, ◌*ℤ◌, ◌≤ℤ◌, ◌<ℤ◌, leb_ℤ, ltb_ℤ, int_max,
  int_laws, Same, Same-of_eq, /ℤ_parts, %ℤ_parts, *ℤ_parts,
}
use gnss_data_simulator.Time.{SimTime}
use gnss_data_simulator.Time.Total.{IsNormal, total_ns}
use gnss_data_simulator.Time.Arithmetic.{add_time_ns_iff}
use gnss_data_simulator.NavSchedule.{
  NavAcquisitionFragment, set_fragment, positive_mod, delta_to_slot_start,
}

whole : (n m : ℕ) → n ≡ n % m + n / m * m
whole n m = grind arith

div_mod : (v : ℤ) (m : ℕ) → v ≡ v %ℤ pos m +ℤ (v /ℤ pos m) *ℤ pos m
div_mod v m =
    let (a, b) = /ℤ_parts v m in
    let (c, d) = *ℤ_parts (v /ℤ pos m) m in
    let c' : pos_part ((v /ℤ pos m) *ℤ pos m) ≡ pos_part v / m * m = rw a at c in
    let d' : neg_part ((v /ℤ pos m) *ℤ pos m) ≡ neg_part v / m * m = rw b at d in
    omega (int_laws, c', d', %ℤ_parts v m, whole (pos_part v) m, whole (neg_part v) m)

distrib : (a b c d m : ℕ) → a + b ≡ c + d + 1 → a * m + b * m ≡ c * m + d * m + m
distrib a b c d m h = let e : (a + b) * m ≡ (c + d + 1) * m = ap (λ x. x * m) h in grind arith

next_multiple : (a b : ℤ) (m : ℕ) → a ≡ b +ℤ pos 1 → a *ℤ pos m ≡ b *ℤ pos m +ℤ pos m
next_multiple a b m h =
    let same = Same-of_eq h in
    let e =
      distrib (pos_part a) (neg_part b) (neg_part a) (pos_part b) m (omega (int_laws, same)) in
    omega (int_laws, *ℤ_parts a m, *ℤ_parts b m, e)

-- `positive_mod` is the residue: it differs by whole moduli, and is in range.
positive_mod_lem :
    (v : ℤ) (m : ℕ)
    → 0 < m
    → (pos 0 ≤ℤ positive_mod v (pos m))
      × (positive_mod v (pos m) <ℤ pos m)
      × ((k : ℤ) × (v ≡ positive_mod v (pos m) +ℤ k *ℤ pos m))
unfolding positive_mod
positive_mod_lem v m h =
    let q = v /ℤ pos m in
    let d = Same-of_eq (div_mod v m) in
    let step = Same-of_eq (next_multiple q (q -ℤ pos 1) m (omega int_laws)) in
    elim (Bool-cases (ltb_ℤ (v %ℤ pos m) (pos 0))) [
      | inl e ↦ rw e (
        omega (int_laws, mod-lt (neg_part v) h),
        omega (int_laws, mod-lt (neg_part v) h),
        (q -ℤ pos 1, omega (int_laws, d, step)),
      )
      | inr e ↦ rw e (omega int_laws, omega (int_laws, mod-lt (pos_part v) h), (q, div_mod v m))
    ]

delta_lem :
    (m s : ℕ) (phase : ℤ)
    → s < m
    → pos 0 ≤ℤ phase
    → phase <ℤ pos m
    → let d = delta_to_slot_start (pos m) (pos s) phase in
      (pos 0 ≤ℤ d) × (d <ℤ pos m) × (Same (phase +ℤ d) (pos s) ⊎ Same (phase +ℤ d) (pos (s + m)))
unfolding delta_to_slot_start
delta_lem m s phase h a b = elim (Bool-cases (ltb_ℤ (pos s -ℤ phase) (pos 0))) [
  | inl e ↦ rw e (omega int_laws, omega int_laws, inr (omega int_laws, omega int_laws))
  | inr e ↦ rw e (omega int_laws, omega int_laws, inl (omega int_laws, omega int_laws))
]

-- The guard of `set_fragment`.
abbrev bad_slot : ℤ → ℤ → ℤ → Bool
bad_slot cycle_ns slot_start_ns duration_ns =
    leb_ℤ cycle_ns (pos 0)
    || ltb_ℤ slot_start_ns (pos 0)
    || leb_ℤ cycle_ns slot_start_ns
    || leb_ℤ duration_ns (pos 0)

bad_slot-false :
    (c s d : ℤ)
    → bad_slot c s d ≡ false
    → (c ≡ pos (pos_part c)) × (s ≡ pos (pos_part s)) × (s <ℤ c) × (pos 0 <ℤ d)
bad_slot-false c s d e = ground arith

-- A wait is shorter than a cycle and leads to a start of the slot: to the slot's place in one of the
-- cycles, which are counted from the start of the week less the offset.
pub record LeadsToSlot (t : SimTime) (cycle_ns slot_start_ns phase_offset_ns wait_ns : ℤ)
    : Type 0 where
  pub nonneg : pos 0 ≤ℤ wait_ns
  pub shorter : wait_ns <ℤ cycle_ns
  pub cycles : ℤ
  pub at_start : t.tow_ns +ℤ phase_offset_ns +ℤ wait_ns ≡ slot_start_ns +ℤ cycles *ℤ cycle_ns

wait-LeadsToSlot :
    (t : SimTime) (m s : ℕ) (offset : ℤ)
    → s < m
    → LeadsToSlot t
        (pos m)
        (pos s)
        offset
        (delta_to_slot_start (pos m) (pos s) (positive_mod (t.tow_ns +ℤ offset) (pos m)))
wait-LeadsToSlot t m s offset h =
    let (a, b, (k, r)) = positive_mod_lem (t.tow_ns +ℤ offset) m (omega (arith, h)) in
    let (c, d, e) = delta_lem m s (positive_mod (t.tow_ns +ℤ offset) (pos m)) h a b in
    let same = Same-of_eq r in
    let step = Same-of_eq (next_multiple (k +ℤ pos 1) k m refl) in
    elim e [
      | inl x ↦ record { nonneg = c; shorter = d; cycles = k; at_start = omega (int_laws, x, same) }
      | inr x ↦ record {
        nonneg = c;
        shorter = d;
        cycles = k +ℤ pos 1;
        at_start = omega (int_laws, x, same, step);
      }
    ]

-- A fragment that is set has the given identifier and bit, and completes its duration, which is
-- positive, after a wait from the acquisition. The wait is not negative, shorter than a cycle, and
-- leads to a start of the slot, so that this is the first one at or after the acquisition.
pub set_fragment_lem :
    (t : SimTime) (cycle_ns slot_start_ns duration_ns phase_offset_ns id : ℤ) (mask : ℕ)
    {f : NavAcquisitionFragment}
    → t.gps_week ≤ℤ int_max
    → set_fragment t cycle_ns slot_start_ns duration_ns phase_offset_ns id mask ≡ some f
    → (f.fragment_id ≡ id)
      × (f.mask_bit ≡ mask)
      × IsNormal f.completion_time
      × (pos 0 <ℤ duration_ns)
      × ((wait_ns : ℤ) × LeadsToSlot t cycle_ns slot_start_ns phase_offset_ns wait_ns
          × (total_ns f.completion_time ≡ total_ns t +ℤ (wait_ns +ℤ duration_ns)))
unfolding set_fragment
set_fragment_lem t c s duration offset id mask {f} h e = elim (Bool-cases (bad_slot c s duration)) [
  | inl g ↦ ground (arith, rw g at e)
  | inr g ↦
      let (a, b, l, p) = bad_slot-false c s duration g in
      let (u, hu, hf) = >>=-eq-some _ _ (rw g at e) in
      let (_, n, tot) = (add_time_ns_iff t _ u h).0 hu in
      let w : LeadsToSlot t c s offset
          (delta_to_slot_start c s (positive_mod (t.tow_ns +ℤ offset) c)) =
        rw (a, b)
          (wait-LeadsToSlot t (pos_part c) (pos_part s) offset
            (omega (arith, ap pos_part a, ap neg_part a, ap pos_part b, ap neg_part b, l))) in
      let f' = some-injective _ _ hf in rw (← f') (refl, refl, n, p, (_, w, tot))
]

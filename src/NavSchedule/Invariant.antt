-- ===== src/NavSchedule/Invariant.antt =====
-- What holds of every plan while it is built: the fragments take the bits of the mask in order, and
-- the availability time is the latest completion.
use mathlib.Core.Option.{some-injective}
use gnss_data_simulator.Prelude.{
  ℕ, ◌+◌, ◌^◌, ◌≤◌, ◌<◌, ◌≡◌, ◌||◌, List, [], ◌∷◌, ◌++◌, some, inl, inr, Bool-cases, ltb, leb, All,
  All-append, length, length-append, arith, ap, refl, sym, ◌∙◌,
}
use gnss_data_simulator.Prelude.Bits.{bit, bit-bit_or, bit-pow}
use gnss_data_simulator.Prelude.Opt.{>>=-eq-some}
use gnss_data_simulator.Prelude.Int.{ℤ, pos, ltb_ℤ, ◌≤ℤ◌, int_max, int_laws}
use gnss_data_simulator.Time.{SimTime, compare_sim_time}
use gnss_data_simulator.Time.Total.{IsNormal, total_ns}
use gnss_data_simulator.Time.Order.{compare-zero_lt}
use gnss_data_simulator.NavSchedule.{
  NavAcquisitionFragment, NavAcquisitionPlan, with_fragment, update_availability_time,
  add_periodic_fragment_ns,
}
use gnss_data_simulator.NavSchedule.Slots.{set_fragment_lem}

-- The fragments from the i-th on have the bits from the i-th on.
abbrev pub Numbered : ℕ → List NavAcquisitionFragment → Type 0
Numbered i [] = Unit
Numbered i (f ∷ fs) = (f.mask_bit ≡ 2 ^ i) × Numbered (i + 1) fs

abbrev pub CompleteBy : ℤ → NavAcquisitionFragment → Type 0
CompleteBy x f = total_ns f.completion_time ≤ℤ x

abbrev pub HasNormalTime : NavAcquisitionFragment → Type 0
HasNormalTime f = IsNormal f.completion_time

pub record IsPlan (p : NavAcquisitionPlan) : Type 0 where
  pub acquisition : IsNormal p.acquisition_time
  pub availability : IsNormal p.availability_time
  pub count_le : length p.fragments ≤ 12
  pub numbered : Numbered 0 p.fragments
  pub required : (k : ℕ) → bit k p.required_mask ≡ ltb k (length p.fragments)
  pub normal : All HasNormalTime p.fragments
  pub not_before : total_ns p.acquisition_time ≤ℤ total_ns p.availability_time
  pub bounded : All (CompleteBy (total_ns p.availability_time)) p.fragments
  pub least :
      (x : ℤ)
      → total_ns p.acquisition_time ≤ℤ x
      → All (CompleteBy x) p.fragments
      → total_ns p.availability_time ≤ℤ x

-- The plan grows by fragments and keeps what it is for.
pub record Grown (p q : NavAcquisitionPlan) : Type 0 where
  pub plan : IsPlan q
  pub same_acquisition : q.acquisition_time ≡ p.acquisition_time
  pub same_issue : q.issue_data ≡ p.issue_data
  pub same_signal : q.signal_id ≡ p.signal_id

Numbered-append :
    (i : ℕ) (fs : List NavAcquisitionFragment) (f : NavAcquisitionFragment)
    → Numbered i fs
    → f.mask_bit ≡ 2 ^ (i + length fs)
    → Numbered i (fs ++ (f ∷ []))
Numbered-append i [] f h e = (e ∙ ap (λ k. 2 ^ k) (omega arith), tt)
Numbered-append i (g ∷ fs) f h e =
    (h.0, Numbered-append (i + 1) fs f h.1 (e ∙ ap (λ k. 2 ^ k) (omega arith)))

pub CompleteBy-mono :
    (x y : ℤ) (fs : List NavAcquisitionFragment)
    → x ≤ℤ y
    → All (CompleteBy x) fs
    → All (CompleteBy y) fs
CompleteBy-mono x y [] h a = tt
CompleteBy-mono x y (f ∷ fs) h a = (omega (arith, h, a.0), CompleteBy-mono x y fs h a.1)

pub All-of_append {ℓ κ} :
    {A : Type ℓ} (P : A → Type κ) (xs ys : List A) → All P (xs ++ ys) → All P xs × All P ys
All-of_append P [] ys a = (tt, a)
All-of_append P (x ∷ xs) ys (a, as') = let (b, c) = All-of_append P xs ys as' in ((a, b), c)

-- The later of two times.
update_lem :
    (a c : SimTime)
    → IsNormal a
    → IsNormal c
    → let u = update_availability_time a c in
      IsNormal u
      × (total_ns a ≤ℤ total_ns u)
      × (total_ns c ≤ℤ total_ns u)
      × ((x : ℤ) → total_ns a ≤ℤ x → total_ns c ≤ℤ x → total_ns u ≤ℤ x)
unfolding update_availability_time
update_lem a c n m =
    let e = compare-zero_lt c a m n in
    elim (Bool-cases (ltb_ℤ (pos 0) (compare_sim_time c a))) [
      | inl f ↦ rw f (m, omega (int_laws, sym e ∙ f), omega arith, λ x h k. k)
      | inr f ↦ rw f (n, omega arith, omega (int_laws, sym e ∙ f), λ x h k. h)
    ]

with_fragment-Grown :
    (p : NavAcquisitionPlan) (f : NavAcquisitionFragment)
    → IsPlan p
    → length p.fragments < 12
    → f.mask_bit ≡ 2 ^ length p.fragments
    → IsNormal f.completion_time
    → Grown p (with_fragment p f)
unfolding with_fragment
with_fragment-Grown p f v h e n =
    let (un, ua, uc, ul) = update_lem p.availability_time f.completion_time v.availability n in
    let len = length-append p.fragments (f ∷ []) in
    record {
      plan = record {
        acquisition = v.acquisition;
        availability = un;
        count_le = omega (arith, len);
        numbered = Numbered-append 0 p.fragments f v.numbered (e ∙ ap (λ k. 2 ^ k) (omega arith));
        required = λ k.
            rw
              (
                len,
                bit-bit_or k p.required_mask f.mask_bit,
                v.required k,
                e,
                bit-pow k (length p.fragments),
              )
              (ground arith);
        normal = All-append HasNormalTime p.fragments (f ∷ []) v.normal (n, tt);
        not_before = omega (arith, ua, v.not_before);
        bounded =
            All-append (CompleteBy _) p.fragments (f ∷ [])
              (CompleteBy-mono _ _ p.fragments ua v.bounded) (uc, tt);
        least = λ x h' a.
            let (b, c) = All-of_append (CompleteBy x) p.fragments (f ∷ []) a in
            ul x (v.least x h' b) c.0;
      };
      same_acquisition = refl;
      same_issue = refl;
      same_signal = refl;
    }

pub add_periodic_fragment_ns-Grown :
    (t : SimTime) (c s d o id : ℤ) (p q : NavAcquisitionPlan)
    → t.gps_week ≤ℤ int_max
    → add_periodic_fragment_ns t c s d o id p ≡ some q
    → IsPlan p
    → Grown p q
unfolding add_periodic_fragment_ns
add_periodic_fragment_ns-Grown t c s d o id p q h e v =
    elim (Bool-cases (leb 12 (length p.fragments) || leb 32 (length p.fragments))) [
      | inl g ↦ ground (arith, rw g at e)
      | inr g ↦
          let (f, hf, hq) = >>=-eq-some _ _ (rw g at e) in
          let lem = set_fragment_lem t c s d o id _ h hf in
          rw (← some-injective _ _ hq) (with_fragment-Grown p f v (ground (arith, g)) lem.1 lem.2)
    ]

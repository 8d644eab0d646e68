-- ===== src/NavSchedule/Collector.antt =====
-- The fragment collector against the history of the fragments it took.
use Prim.Native.Nat.{bit_and}
use mathlib.Core.Option.{some-injective}
use gnss_data_simulator.Prelude.{
  ℕ, ◌≡◌, ◌↔◌, Bool, true, false, ◌&&◌, ◌||◌, ◌==◌, ==_iff, List, [], ◌∷◌, some, inl, inr,
  Bool-cases, arith, refl, sym, ◌∙◌, ap,
}
use gnss_data_simulator.Prelude.Bits.{bit, bit-bit_or, bit_nought, bit_and-eq_iff}
use gnss_data_simulator.Prelude.Int.{ℤ, eq_ℤ}
use gnss_data_simulator.NavSchedule.Reception.{
  NavFragmentCollector, reset_nav_fragment_collector, ingest_nav_fragment, collected, mask_of_issue,
}

abbrev pub Fragment : Type 0
Fragment = record { mask_bit : ℕ; issue : ℤ }

-- The fragments that were taken, the latest first.
abbrev pub History : Type 0
History = List Fragment

-- Whether the latest fragments with the issue of the latest one hold the bit.
abbrev holds : ℤ → ℕ → History → Bool
holds issue k [] = false
holds issue k (f ∷ rest) = eq_ℤ f.issue issue && (bit k f.mask_bit || holds issue k rest)

abbrev pub latest_holds : ℕ → History → Bool
latest_holds k [] = false
latest_holds k (f ∷ rest) = bit k f.mask_bit || holds f.issue k rest

-- The collector knows the issue of the latest fragment and the bits of its run.
abbrev pub HasIssue : NavFragmentCollector → History → Type 0
HasIssue c [] = c.has_issue_data ≡ false
HasIssue c (f ∷ rest) = (c.has_issue_data ≡ true) × (c.issue_data ≡ f.issue)

pub record Collects (required : ℕ) (c : NavFragmentCollector) (h : History) : Type 0 where
  pub same_required : c.required_mask ≡ required
  pub has_issue : HasIssue c h
  pub bits : (k : ℕ) → bit k c.received_mask ≡ latest_holds k h

pub reset-Collects : (required : ℕ) → Collects required (reset_nav_fragment_collector required) []
unfolding reset_nav_fragment_collector
reset-Collects required = record { same_required = refl; has_issue = refl; bits = bit_nought }

mask_of_issue_lem :
    (r : ℕ) (c : NavFragmentCollector) (h : History) (issue : ℤ) (k : ℕ)
    → Collects r c h
    → bit k (mask_of_issue c issue) ≡ holds issue k h
mask_of_issue_lem r c [] issue k v = ground (arith, v.has_issue, bit_nought k)
mask_of_issue_lem r c (f ∷ rest) issue k v = ground (arith, v.has_issue, bit_nought k, v.bits k)

-- Taking a fragment keeps the collector in step with the history, and it reports completeness exactly
-- when the fragments since the last change of issue hold every required bit.
pub ingest_nav_fragment-Collects :
    (r : ℕ) (c : NavFragmentCollector) (h : History) (mask : ℕ) (issue : ℤ)
    {c' : NavFragmentCollector} {done : Bool}
    → Collects r c h
    → ingest_nav_fragment c mask issue ≡ some (c', done)
    → let h' : History = record { mask_bit = mask; issue = issue } ∷ h in
      Collects r c' h' × ((done ≡ true) ↔ ((k : ℕ) → bit k r ≡ true → latest_holds k h' ≡ true))
unfolding ingest_nav_fragment
ingest_nav_fragment-Collects r c h mask issue {c'} {done} v e =
    elim (Bool-cases (c.required_mask == 0 || mask == 0 || bit_and mask c.required_mask == 0)) [
      | inl g ↦ ground (arith, rw g at e)
      | inr g ↦
          let same = some-injective _ _ (rw g at e) in
          let n = collected c mask issue in
          let test = bit_and-eq_iff n.received_mask r in
          rw (← ap (λ x. x.0) same, ← ap (λ x. x.1) same, v.same_required)
            (
              record { same_required = refl; has_issue = (refl, refl); bits = joined },
              (
                λ d k b. sym (joined k) ∙ test.0 ((==_iff _ _).0 d) k b,
                λ a. (==_iff _ _).1 (test.1 λ k b. joined k ∙ a k b),
              ),
            )
    ]
  where
    joined :
        (k : ℕ) → bit k (collected c mask issue).received_mask ≡ (bit k mask || holds issue k h)
    joined k =
        ground (arith, bit-bit_or k (mask_of_issue c issue) mask, mask_of_issue_lem r c h issue k v)

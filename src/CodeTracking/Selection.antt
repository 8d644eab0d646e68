-- ===== src/CodeTracking/Selection.antt =====
-- The choice of a root of src/model/code_tracking_dll.cpp is the best of the stable ones.
use gnss_data_simulator.Prelude.{
  ◌≡◌, ◌⊎◌, inl, inr, sym, ◌∙◌, Bool, true, false, not, Bool-cases, if◌then◌else◌, arith,
}
use gnss_data_simulator.Double.{Double, IsOrdered, eq}
use gnss_data_simulator.CodeTracking.{
  CodeTrackingDllRoot, CodeTrackingDllSelectionMode, prefer, prefer_tracked_candidate,
  prefer_acquisition_candidate,
}

module _ {F : Type 0} ⦃d : Double F⦄ where
  open d use {sub, absolute, le}

  -- One number is at most another, and with equal numbers the rest decides.
  abbrev pub AtMost : F → F → Type 0 → Type 0
  AtMost x y Rest = (le x y ≡ true) × (le y x ≡ true → Rest)

  -- One root is as good a choice as another. To track a signal it is not farther from the previous
  -- phase, of those as far it has no less power, and of those as strong no greater phase. To acquire
  -- one it has no less power, of those as strong it is not farther from nought, and of those as far
  -- has no greater phase.
  abbrev pub IsAsGood :
      CodeTrackingDllSelectionMode → F → CodeTrackingDllRoot F → CodeTrackingDllRoot F → Type 0
  IsAsGood CodeTrackingDllSelectionMode.tracked previous r x =
      AtMost (absolute (sub r.code_phase_sec previous)) (absolute (sub x.code_phase_sec previous))
        (AtMost x.prompt_power r.prompt_power (le r.code_phase_sec x.code_phase_sec ≡ true))
  IsAsGood CodeTrackingDllSelectionMode.acquisition previous r x =
      AtMost x.prompt_power r.prompt_power (
        AtMost (absolute r.code_phase_sec) (absolute x.code_phase_sec)
          (le r.code_phase_sec x.code_phase_sec ≡ true))

module _ {F : Type 0} ⦃d : Double F⦄ (o : IsOrdered F) where
  open d use {sub, absolute, lt, le, is_finite}

  Finite : F → Type 0
  Finite x = is_finite x ≡ true

  -- Of two finite numbers one is less, or they are equal.
  data Order (x y : F) : Type 0 where
    before : lt x y ≡ true → le y x ≡ false → Order x y
    same : le x y ≡ true → le y x ≡ true → lt x y ≡ false → Order x y
    after : lt y x ≡ true → le x y ≡ false → lt x y ≡ false → Order x y

  not_both : (x y : F) → lt x y ≡ true → le y x ≡ false
  not_both x y h = elim (Bool-cases (le y x)) [
    | inl e ↦ cc (o.lt-le_trans x y x h e, o.lt_irrefl x)
    | inr e ↦ e
  ]

  asymmetric : (x y : F) → lt x y ≡ true → lt y x ≡ false
  asymmetric x y h = elim (Bool-cases (lt y x)) [
    | inl e ↦ cc (o.lt_trans x y x h e, o.lt_irrefl x)
    | inr e ↦ e
  ]

  order : (x y : F) → Finite x → Finite y → Order x y
  unfolding Finite
  order x y p q = elim (Bool-cases (lt x y)) [
    | inl h ↦ before h (not_both x y h)
    | inr h ↦ elim (Bool-cases (lt y x)) [
      | inl k ↦ after k (not_both y x k) h
      | inr k ↦ same (o.le_of_not_lt y x q p k) (o.le_of_not_lt x y p q h) h
    ]
  ]

  -- One key of a lexicographic order.
  abbrev by_key : F → F → Bool → Bool
  by_key x y rest = if not (eq x y) then lt x y else rest

  abbrev SameKey : F → F → Type 0
  SameKey x y = (le x y ≡ true) × (le y x ≡ true)

  by_key_inv :
      (x y : F) (p : Bool)
      → Order x y
      → by_key x y p ≡ true
      → (lt x y ≡ true) ⊎ (SameKey x y × (p ≡ true))
  by_key_inv x y p (before h k) e = inl h
  by_key_inv x y p (same h k n) e = inr ((h, k), rw (h, k) at e)
  by_key_inv x y p (after h k n) e = ground (arith, k, n, e)

  by_key-lt : (x y : F) (p : Bool) → lt x y ≡ true → by_key x y p ≡ true
  by_key-lt x y p h = let n = not_both x y h in ground (arith, h, n)

  by_key-same : (x y : F) (p : Bool) → SameKey x y → p ≡ true → by_key x y p ≡ true
  by_key-same x y p (h, k) e = ground (arith, h, k, e)

  SameKey-trans : (x y z : F) → Order x z → SameKey x y → SameKey y z → SameKey x z
  SameKey-trans x y z (before h k) (a, b) (c, e) =
      cc (o.lt-le_trans x y x (o.lt-le_trans x z y h e) b, o.lt_irrefl x)
  SameKey-trans x y z (same h k n) p q = (h, k)
  SameKey-trans x y z (after h k n) (a, b) (c, e) =
      cc (o.lt-le_trans z y z (o.lt-le_trans z x y h a) c, o.lt_irrefl z)

  by_key_trans :
      (x y z : F) (p q r : Bool)
      → Order x y
      → Order y z
      → Order x z
      → (p ≡ true → q ≡ true → r ≡ true)
      → by_key x y p ≡ true
      → by_key y z q ≡ true
      → by_key x z r ≡ true
  by_key_trans x y z p q r a b c step h k = elim (by_key_inv x y p a h) [
    | inl u ↦ elim (by_key_inv y z q b k) [
      | inl v ↦ by_key-lt x z r (o.lt_trans x y z u v)
      | inr (v, e) ↦ by_key-lt x z r (o.lt-le_trans x y z u v.0)
    ]
    | inr (u, f) ↦ elim (by_key_inv y z q b k) [
      | inl v ↦ by_key-lt x z r (o.le-lt_trans x y z u.0 v)
      | inr (v, e) ↦ by_key-same x z r (SameKey-trans x y z c u v) (step f e)
    ]
  ]

  by_key_self : (x : F) (p : Bool) → p ≡ false → by_key x x p ≡ false
  by_key_self x p e = let h = o.lt_irrefl x in ground (arith, e, h)

  -- The numbers that the choice compares are finite: the phase, its distance from the previous one
  -- (from nought in an acquisition), and the power.
  pub record IsComparable (previous_code_phase_sec : F) (root : CodeTrackingDllRoot F)
      : Type 0 where
    pub phase : is_finite root.code_phase_sec ≡ true
    pub size : is_finite (absolute root.code_phase_sec) ≡ true
    pub distance : is_finite (absolute (sub root.code_phase_sec previous_code_phase_sec)) ≡ true
    pub power : is_finite root.prompt_power ≡ true

  -- The same key with the greater number first.
  abbrev by_falling : F → F → Bool → Bool
  by_falling x y rest = if not (eq x y) then lt y x else rest

  by_falling_lem : (x y : F) (p : Bool) → by_falling x y p ≡ by_key y x p
  by_falling_lem x y p = ground arith

  by_falling_trans :
      (x y z : F) (p q r : Bool)
      → Finite x
      → Finite y
      → Finite z
      → (p ≡ true → q ≡ true → r ≡ true)
      → by_falling x y p ≡ true
      → by_falling y z q ≡ true
      → by_falling x z r ≡ true
  by_falling_trans x y z p q r a b c step h k =
      by_falling_lem x z r
      ∙ by_key_trans z y x q p r (order z y c b) (order y x b a) (order z x c a) (λ u v. step v u)
          (sym (by_falling_lem y z q) ∙ k) (sym (by_falling_lem x y p) ∙ h)

  pub prefer_trans :
      (mode : CodeTrackingDllSelectionMode) (previous : F) (a b c : CodeTrackingDllRoot F)
      → IsComparable previous a
      → IsComparable previous b
      → IsComparable previous c
      → prefer mode previous a b ≡ true
      → prefer mode previous b c ≡ true
      → prefer mode previous a c ≡ true
  unfolding prefer prefer_tracked_candidate prefer_acquisition_candidate Finite
  prefer_trans CodeTrackingDllSelectionMode.tracked previous a b c p q r =
      by_key_trans (absolute (sub a.code_phase_sec previous))
        (absolute (sub b.code_phase_sec previous)) (absolute (sub c.code_phase_sec previous)) _ _ _
        (order _ _ p.distance q.distance) (order _ _ q.distance r.distance)
        (order _ _ p.distance r.distance)
        (by_falling_trans a.prompt_power b.prompt_power c.prompt_power _ _ _ p.power q.power r.power
          (o.lt_trans a.code_phase_sec b.code_phase_sec c.code_phase_sec))
  prefer_trans CodeTrackingDllSelectionMode.acquisition previous a b c p q r =
      by_falling_trans a.prompt_power b.prompt_power c.prompt_power _ _ _ p.power q.power r.power (
        by_key_trans (absolute a.code_phase_sec) (absolute b.code_phase_sec)
          (absolute c.code_phase_sec) _ _ _ (order _ _ p.size q.size) (order _ _ q.size r.size)
          (order _ _ p.size r.size) (o.lt_trans a.code_phase_sec b.code_phase_sec c.code_phase_sec))

  pub prefer_self :
      (mode : CodeTrackingDllSelectionMode) (previous : F) (a : CodeTrackingDllRoot F)
      → prefer mode previous a a ≡ false
  unfolding prefer prefer_tracked_candidate prefer_acquisition_candidate
  prefer_self CodeTrackingDllSelectionMode.tracked previous a =
      by_key_self _ _ (by_key_self _ _ (o.lt_irrefl a.code_phase_sec))
  prefer_self CodeTrackingDllSelectionMode.acquisition previous a =
      by_key_self _ _ (by_key_self _ _ (o.lt_irrefl a.code_phase_sec))

  by_key-AtMost :
      (x y : F) (p : Bool) (Rest : Type 0)
      → Order x y
      → (p ≡ false → Rest)
      → by_key x y p ≡ false
      → AtMost y x Rest
  by_key-AtMost x y p Rest (before h k) rest e = absurd (ground (arith, h, k, e))
  by_key-AtMost x y p Rest (same h k n) rest e = (k, λ u. rest (ground (arith, h, k, e)))
  by_key-AtMost x y p Rest (after h k n) rest e =
      (o.le_of_lt y x h, λ u. absurd (ground (arith, k, u)))

  by_falling-AtMost :
      (x y : F) (p : Bool) (Rest : Type 0)
      → Order y x
      → (p ≡ false → Rest)
      → by_falling x y p ≡ false
      → AtMost x y Rest
  by_falling-AtMost x y p Rest c rest e =
      by_key-AtMost y x p Rest c rest (sym (by_falling_lem x y p) ∙ e)

  -- A root to which another is not preferred is as good a choice.
  pub prefer-IsAsGood :
      (mode : CodeTrackingDllSelectionMode) (previous : F) (x r : CodeTrackingDllRoot F)
      → IsComparable previous x
      → IsComparable previous r
      → prefer mode previous x r ≡ false
      → IsAsGood mode previous r x
  unfolding prefer prefer_tracked_candidate prefer_acquisition_candidate Finite
  prefer-IsAsGood CodeTrackingDllSelectionMode.tracked previous x r p q =
      by_key-AtMost _ _ _ _ (order _ _ p.distance q.distance) (
        by_falling-AtMost _ _ _ _ (order _ _ q.power p.power)
          (o.le_of_not_lt x.code_phase_sec r.code_phase_sec p.phase q.phase))
  prefer-IsAsGood CodeTrackingDllSelectionMode.acquisition previous x r p q =
      by_falling-AtMost _ _ _ _ (order _ _ q.power p.power) (
        by_key-AtMost _ _ _ _ (order _ _ p.size q.size)
          (o.le_of_not_lt x.code_phase_sec r.code_phase_sec p.phase q.phase))

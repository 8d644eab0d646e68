-- ===== src/CodeTracking/Best.antt =====
-- The root that src/model/code_tracking_dll.cpp selects.
use gnss_data_simulator.Prelude.{
  ℕ, suc, ◌+◌, ◌≡◌, inl, inr, refl, subst, if-split, ap, sym, ◌∙◌, Bool, true, false, not, ◌&&◌,
  Bool-cases, Option, none, some, List, [], ◌∷◌, All, get_elem?, arith,
}
use gnss_data_simulator.Prelude.Result.{Result, ok, err}
use gnss_data_simulator.Double.{Double, IsOrdered}
use gnss_data_simulator.CodeTracking.{
  CodeTrackingDllRoot, CodeTrackingDllSelectionMode, SelectionError, no_roots, previous_not_finite,
  no_stable_candidate, prefer, consider_root, select_from, select_code_tracking_dll_root,
  needs_previous,
}
use gnss_data_simulator.CodeTracking.Selection.{
  IsComparable, IsAsGood, prefer-IsAsGood, prefer_trans, prefer_self,
}

no_clash : (b : Bool) → b ≡ true → b ≡ false → ⊥
no_clash b h k = ground arith

module _ {F : Type 0} ⦃d : Double F⦄ (o : IsOrdered F) (mode : CodeTrackingDllSelectionMode)
    (previous : F) (all : List (CodeTrackingDllRoot F)) where
  -- What the loop holds: a stable root of the list, at its index.
  abbrev Held : Option (ℕ × CodeTrackingDllRoot F) → Type 0
  Held none = Unit {0}
  Held (some (i, r)) = (get_elem? all i ≡ some r) × (r.stable ≡ true) × IsComparable o previous r

  -- A root that the loop has passed is not stable, or not preferred to the one it holds.
  abbrev Settled : CodeTrackingDllRoot F → Option (ℕ × CodeTrackingDllRoot F) → Type 0
  Settled x none = x.stable ≡ false
  Settled x (some (i, r)) = x.stable ≡ true → prefer mode previous x r ≡ false

  module _ (k : ℕ) (c : CodeTrackingDllRoot F) where
    -- A property of what the body of the loop can leave.
    consider_root_cases {ℓ} :
        (P : Option (ℕ × CodeTrackingDllRoot F) → Type ℓ) (s : Option (ℕ × CodeTrackingDllRoot F))
        → (c.stable ≡ false → P s)
        → (c.stable ≡ true → s ≡ none → P (some (k, c)))
        → ((i : ℕ) (r : CodeTrackingDllRoot F)
            → c.stable ≡ true
            → s ≡ some (i, r)
            → prefer mode previous c r ≡ true
            → P (some (k, c)))
        → ((i : ℕ) (r : CodeTrackingDllRoot F)
            → s ≡ some (i, r)
            → prefer mode previous c r ≡ false
            → P (some (i, r)))
        → P (consider_root mode previous k c s)
    unfolding consider_root
    consider_root_cases P none skip first better worse =
        if-split P (not c.stable) (λ e. skip (ground arith)) (λ e. first (ground arith) refl)
    consider_root_cases P (some (i, r)) skip first better worse =
        if-split P (not c.stable) (λ e. skip (ground arith))
          (λ e.
            if-split P (prefer mode previous c r) (λ p. better i r (ground arith) refl p)
              (λ p. worse i r refl p))

    consider_root-Held :
        (s : Option (ℕ × CodeTrackingDllRoot F))
        → get_elem? all k ≡ some c
        → IsComparable o previous c
        → Held s
        → Held (consider_root mode previous k c s)
    consider_root-Held s at comparable held =
        consider_root_cases Held s (λ e. held) (λ e n. (at, e, comparable))
          (λ i r e q p. (at, e, comparable)) (λ i r q p. subst Held q held)

    -- The root itself is settled, and those before it stay settled.
    consider_root-Settled_self :
        (s : Option (ℕ × CodeTrackingDllRoot F)) → Settled c (consider_root mode previous k c s)
    consider_root-Settled_self none =
        consider_root_cases (Settled c) none (λ e. e) (λ e n u. prefer_self o mode previous c)
          (λ i r e q p u. prefer_self o mode previous c) (λ i r q p u. p)
    consider_root-Settled_self (some (i, r)) =
        consider_root_cases (Settled c) (some (i, r)) (λ e u. ground (arith, e, u))
          (λ e n u. prefer_self o mode previous c) (λ i r e q p u. prefer_self o mode previous c)
          (λ i r q p u. p)

    -- What is not preferred to a root is not preferred to one that is preferred to it.
    still :
        (x r : CodeTrackingDllRoot F)
        → IsComparable o previous x
        → IsComparable o previous c
        → IsComparable o previous r
        → prefer mode previous c r ≡ true
        → prefer mode previous x r ≡ false
        → prefer mode previous x c ≡ false
    still x r p q m better worse = elim (Bool-cases (prefer mode previous x c)) [
      | inl e ↦ cc (prefer_trans o mode previous x c r p q m e better, worse)
      | inr e ↦ e
    ]

    consider_root-Settled :
        (x : CodeTrackingDllRoot F) (s : Option (ℕ × CodeTrackingDllRoot F))
        → IsComparable o previous x
        → IsComparable o previous c
        → Held s
        → Settled x s
        → Settled x (consider_root mode previous k c s)
    consider_root-Settled x s p q held settled =
        consider_root_cases (Settled x) s (λ e. settled)
          (λ e n u. absurd (no_clash x.stable u (subst (Settled x) n settled)))
          (λ i r e same better u.
            still x r p q (subst Held same held).2 better (subst (Settled x) same settled u))
          (λ i r same worse. subst (Settled x) same settled)

  pub record IsBest (i : ℕ) (r : CodeTrackingDllRoot F) : Type 0 where
    pub found : get_elem? all i ≡ some r
    pub stable : r.stable ≡ true
    pub best : All (λ x. x.stable ≡ true → IsAsGood mode previous r x) all

  select_from-Settled :
      (rest : List (CodeTrackingDllRoot F)) (k : ℕ) (x : CodeTrackingDllRoot F)
      (s : Option (ℕ × CodeTrackingDllRoot F))
      → ((j : ℕ) → get_elem? rest j ≡ get_elem? all (k + j))
      → All (IsComparable o previous) rest
      → IsComparable o previous x
      → Held s
      → Settled x s
      → Settled x (select_from mode previous k rest s)
  unfolding select_from
  select_from-Settled [] k x s at cs p held settled = settled
  select_from-Settled (c ∷ rest) k x s at (q, cs) p held settled =
      select_from-Settled rest (suc k) x (consider_root mode previous k c s)
        (λ j. at (suc j) ∙ ap (get_elem? all) (omega arith)) cs p
        (consider_root-Held k c s (sym (at 0 ∙ ap (get_elem? all) (omega arith))) q held)
        (consider_root-Settled k c x s p q held settled)

  select_from-Held :
      (rest : List (CodeTrackingDllRoot F)) (k : ℕ) (s : Option (ℕ × CodeTrackingDllRoot F))
      → ((j : ℕ) → get_elem? rest j ≡ get_elem? all (k + j))
      → All (IsComparable o previous) rest
      → Held s
      → Held (select_from mode previous k rest s)
        × All (λ x. Settled x (select_from mode previous k rest s)) rest
  unfolding select_from
  select_from-Held [] k s at cs held = (held, tt)
  select_from-Held (c ∷ rest) k s at (q, cs) held =
      let here = sym (at 0 ∙ ap (get_elem? all) (omega arith)) in
      let later = λ (j : ℕ). at (suc j) ∙ ap (get_elem? all) (omega arith) in
      let next = consider_root mode previous k c s in
      let kept = consider_root-Held k c s here q held in
      let (final, settled) = select_from-Held rest (suc k) next later cs kept in
      (
        final,
        (
          select_from-Settled rest (suc k) c next later cs q kept
              (consider_root-Settled_self k c s),
          settled,
        ),
      )

  -- What a selection says of the roots: the index and the root selected, or why there is none.
  abbrev pub Selects : Result SelectionError (ℕ × CodeTrackingDllRoot F) → Type 0
  Selects (ok (i, r)) = IsBest i r
  Selects (err no_roots) = all ≡ []
  Selects (err previous_not_finite) =
      (mode ≡ CodeTrackingDllSelectionMode.tracked) × (d.is_finite previous ≡ false)
  Selects (err no_stable_candidate) = All (λ x. x.stable ≡ false) all

  tracked_only :
      (m : CodeTrackingDllSelectionMode)
      → (needs_previous m && not (d.is_finite previous)) ≡ true
      → (m ≡ CodeTrackingDllSelectionMode.tracked) × (d.is_finite previous ≡ false)
  tracked_only CodeTrackingDllSelectionMode.tracked h = (refl, ground arith)
  tracked_only CodeTrackingDllSelectionMode.acquisition h = ground arith

  -- The end of the selection.
  abbrev selection :
      Option (ℕ × CodeTrackingDllRoot F) → Result SelectionError (ℕ × CodeTrackingDllRoot F)
  selection none = err no_stable_candidate
  selection (some selected) = ok selected

  -- What is settled is no better.
  Settled-IsAsGood :
      (i : ℕ) (r : CodeTrackingDllRoot F)
      → IsComparable o previous r
      → (xs : List (CodeTrackingDllRoot F)) → All (IsComparable o previous) xs
      → All (λ x. Settled x (some (i, r))) xs
      → All (λ x. x.stable ≡ true → IsAsGood mode previous r x) xs
  Settled-IsAsGood i r q [] cs hs = tt
  Settled-IsAsGood i r q (x ∷ xs) (p, cs) (h, hs) =
      (λ u. prefer-IsAsGood o mode previous x r p q (h u), Settled-IsAsGood i r q xs cs hs)

  selection-Selects :
      (t : Option (ℕ × CodeTrackingDllRoot F))
      → All (IsComparable o previous) all
      → Held t
      → All (λ x. Settled x t) all
      → Selects (selection t)
  selection-Selects none cs held settled = settled
  selection-Selects (some (i, r)) cs (found, stable, comparable) settled = record {
    found = found;
    stable = stable;
    best = Settled-IsAsGood i r comparable all cs settled;
  }

module _ {F : Type 0} ⦃d : Double F⦄ (o : IsOrdered F) (mode : CodeTrackingDllSelectionMode)
    (previous : F) where
  -- With the laws of the order, the root selected from roots with comparable numbers is the one at
  -- the index, is stable, and is as good a choice as every stable root. Of two roots, the better one
  -- to track is nearer the previous phase, or as near with more power, or as near and as strong with
  -- the smaller phase; the better one to acquire has more power, or as much and is nearer nought, or
  -- the same of both and the smaller phase. Where no root is selected, the list is empty, or the
  -- previous phase of a tracked signal is not finite, or no root is stable.
  pub select_code_tracking_dll_root-Selects :
      (roots : List (CodeTrackingDllRoot F))
      → All (IsComparable o previous) roots
      → Selects o mode previous roots (select_code_tracking_dll_root roots mode previous)
  unfolding select_code_tracking_dll_root
  select_code_tracking_dll_root-Selects [] cs = refl
  select_code_tracking_dll_root-Selects (root ∷ roots) cs =
      let all = root ∷ roots in
      let (held, settled) =
        select_from-Held o mode previous all all 0 none (λ j. ap (get_elem? all) (omega arith)) cs
          tt in
      if-split (Selects o mode previous all) (needs_previous mode && not (d.is_finite previous))
        (tracked_only o mode previous all mode)
        (λ e.
          selection-Selects o mode previous all (select_from mode previous 0 all none) cs held
            settled)

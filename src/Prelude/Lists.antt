-- ===== src/Prelude/Lists.antt =====
-- Lists with native indices, and predicates on their elements.
use Prim.Native.Nat.{ℕ, zero, suc, ◌+◌}
use mathlib.Core.Path.{◌≡◌, refl, sym, subst}
use mathlib.Core.Logic.{◌⊎◌, inl, inr}
use mathlib.Core.Option.{Option, none, some, some-injective}
use mathlib.Core.List.{List, [], ◌∷◌, ◌++◌}
use native.Mathlib.Omega.{arith}

module _ {ℓ} {A : Type ℓ} where
  abbrev pub length : List A → ℕ
  length [] = 0
  length (x ∷ xs) = suc (length xs)

  abbrev pub get_elem? : List A → ℕ → Option A
  get_elem? [] i = none
  get_elem? (x ∷ xs) zero = some x
  get_elem? (x ∷ xs) (suc i) = get_elem? xs i

  -- A write out of bounds changes nothing.
  abbrev pub set : List A → ℕ → A → List A
  set [] i v = []
  set (x ∷ xs) zero v = v ∷ xs
  set (x ∷ xs) (suc i) v = x ∷ set xs i v

  pub length-append : (xs ys : List A) → length (xs ++ ys) ≡ length xs + length ys
  length-append [] ys = omega arith
  length-append (x ∷ xs) ys = omega (arith, length-append xs ys)

  pub length-set : (xs : List A) (i : ℕ) (v : A) → length (set xs i v) ≡ length xs
  length-set [] i v = refl
  length-set (x ∷ xs) zero v = refl
  length-set (x ∷ xs) (suc i) v = omega (arith, length-set xs i v)

  abbrev pub All {κ} : (A → Type κ) → List A → Type κ
  All P [] = Unit
  All P (x ∷ xs) = P x × All P xs

  pub All-append {κ} : (P : A → Type κ) (xs ys : List A) → All P xs → All P ys → All P (xs ++ ys)
  All-append P [] ys p q = q
  All-append P (x ∷ xs) ys (p, ps) q = (p, All-append P xs ys ps q)

  -- One element at least has the property.
  abbrev pub Any : (A → Type 0) → List A → Type 0
  Any P [] = ⊥
  Any P (x ∷ xs) = P x ⊎ Any P xs

  pub All-map {κ μ} :
      (P : A → Type κ) (Q : A → Type μ) (xs : List A) → ((x : A) → P x → Q x) → All P xs → All Q xs
  All-map P Q [] f p = tt
  All-map P Q (x ∷ xs) f (p, ps) = (f x p, All-map P Q xs f ps)

  pub All-set {κ} :
      (P : A → Type κ) (xs : List A) (i : ℕ) (v : A) → All P xs → P v → All P (set xs i v)
  All-set P [] i v ps q = ps
  All-set P (x ∷ xs) zero v (p, ps) q = (q, ps)
  All-set P (x ∷ xs) (suc i) v (p, ps) q = (p, All-set P xs i v ps q)

  pub All-get {κ} :
      (P : A → Type κ) (xs : List A) (i : ℕ) (v : A) → All P xs → get_elem? xs i ≡ some v → P v
  All-get P [] i v ps e = ground arith
  All-get P (x ∷ xs) zero v (p, ps) e = subst P (some-injective _ _ e) p
  All-get P (x ∷ xs) (suc i) v (p, ps) e = All-get P xs i v ps e

  pub Any-get :
      (P : A → Type 0) (xs : List A) (i : ℕ) (v : A) → get_elem? xs i ≡ some v → P v → Any P xs
  Any-get P [] i v e p = ground arith
  Any-get P (x ∷ xs) zero v e p = inl (subst P (sym (some-injective _ _ e)) p)
  Any-get P (x ∷ xs) (suc i) v e p = inr (Any-get P xs i v e p)

  pub Any-set :
      (P : A → Type 0) (xs : List A) (i : ℕ) (s v : A)
      → get_elem? xs i ≡ some s
      → (P s → P v)
      → Any P xs
      → Any P (set xs i v)
  Any-set P [] i s v e f p = elim p [ ]
  Any-set P (x ∷ xs) zero s v e f (inl p) = inl (f (subst P (some-injective _ _ e) p))
  Any-set P (x ∷ xs) zero s v e f (inr p) = inr p
  Any-set P (x ∷ xs) (suc i) s v e f (inl p) = inl p
  Any-set P (x ∷ xs) (suc i) s v e f (inr p) = inr (Any-set P xs i s v e f p)

  pub Any-set_at :
      (P : A → Type 0) (xs : List A) (i : ℕ) (s v : A)
      → get_elem? xs i ≡ some s
      → P v
      → Any P (set xs i v)
  Any-set_at P [] i s v e p = ground arith
  Any-set_at P (x ∷ xs) zero s v e p = inl p
  Any-set_at P (x ∷ xs) (suc i) s v e p = inr (Any-set_at P xs i s v e p)

  pub Any-append : (P : A → Type 0) (xs ys : List A) → Any P xs ⊎ Any P ys → Any P (xs ++ ys)
  Any-append P [] ys (inl p) = elim p [ ]
  Any-append P [] ys (inr q) = q
  Any-append P (x ∷ xs) ys (inl (inl p)) = inl p
  Any-append P (x ∷ xs) ys (inl (inr p)) = inr (Any-append P xs ys (inl p))
  Any-append P (x ∷ xs) ys (inr q) = inr (Any-append P xs ys (inr q))

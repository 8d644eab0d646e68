-- ===== src/Double.antt =====
-- What the code does with a `double`. The type and its operations belong to the platform, so they
-- are an instance argument of the code that uses them, with IEEE comparisons as Boolean tests:
-- `a > b` is `lt b a`, and `a >= b` is `le b a`.
pub mod Milli
use gnss_data_simulator.Prelude.{ℕ, ◌≡◌, ◌⊎◌, Bool, true, false, ◌&&◌, ◌||◌, not, if◌then◌else◌}
use gnss_data_simulator.Prelude.Int.{ℤ, pos}

pub record Double (F : Type 0) : Type 0 where
  -- `decimal m e` is the literal m / 10^e.
  pub decimal : ℤ → ℕ → F
  pub add : F → F → F
  pub sub : F → F → F
  pub mul : F → F → F
  pub div : F → F → F
  pub negate : F → F
  pub absolute : F → F
  pub sqrt : F → F
  pub exp : F → F
  pub log : F → F
  pub cos : F → F
  pub pow : F → F → F
  pub lt : F → F → Bool
  pub le : F → F → Bool
  pub is_finite : F → Bool
  pub is_inf : F → Bool

module _ {F : Type 0} ⦃d : Double F⦄ where
  open d use {decimal, lt, le, is_finite}

  abbrev pub nought : F
  nought = decimal (pos 0) 0

  -- `==` on numbers that are not NaN, and false on NaN.
  abbrev pub eq : F → F → Bool
  eq a b = le a b && le b a

  -- `std::max` and `std::clamp`.
  unfoldable pub max : F → F → F
  max a b = if lt a b then b else a

  unfoldable pub clamp : F → F → F → F
  clamp v low high = if lt v low then low else if lt high v then high else v

  unfoldable pub finite_nonnegative : F → Bool
  finite_nonnegative value = is_finite value && le nought value

  unfoldable pub positive_finite : F → Bool
  positive_finite value = is_finite value && lt nought value

-- The order of IEEE numbers, as far as the proofs rely on it. NaN is not `<=` itself.
pub record IsOrdered (F : Type 0) ⦃d : Double F⦄ : Type 0 where
  pub lt_trans : (x y z : F) → d.lt x y ≡ true → d.lt y z ≡ true → d.lt x z ≡ true
  pub lt-le_trans : (x y z : F) → d.lt x y ≡ true → d.le y z ≡ true → d.lt x z ≡ true
  pub le-lt_trans : (x y z : F) → d.le x y ≡ true → d.lt y z ≡ true → d.lt x z ≡ true
  pub lt_irrefl : (x : F) → d.lt x x ≡ false
  pub le_of_lt : (x y : F) → d.lt x y ≡ true → d.le x y ≡ true
  pub le_of_not_lt :
      (x y : F) → d.is_finite x ≡ true → d.is_finite y ≡ true → d.lt x y ≡ false → d.le y x ≡ true

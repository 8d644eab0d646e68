-- ===== src/Prelude/Int.antt =====
-- Signed integers over the native numbers. A wide machine integer of the source is such an integer
-- wherever its range is stated; `/` and `%` of C++ truncate towards zero.
use Prim.Native.Nat.{ℕ, zero, suc, ◌+◌, ◌-◌, ◌*◌, ◌/◌, ◌%◌, ◌≤◌, ◌<◌}
use mathlib.Core.Path.{◌≡◌, refl, sym, ap}
use mathlib.Core.Logic.{◌⊎◌, inl, inr}
use mathlib.Core.Bool.{Bool}
use native.Mathlib.Omega.{arith}
use gnss_data_simulator.Prelude.Tests.{ltb, leb, ◌==◌, if◌then◌else◌, tests}

-- `negsuc n` is -(n + 1).
pub data ℤ : Type 0 where
  pos : ℕ → ℤ
  negsuc : ℕ → ℤ

abbrev pub pos_part : ℤ → ℕ
pos_part (pos n) = n
pos_part (negsuc n) = 0

abbrev pub neg_part : ℤ → ℕ
neg_part (pos n) = 0
neg_part (negsuc n) = suc n

-- a - b, as an integer.
abbrev pub sub_ℕ : ℕ → ℕ → ℤ
sub_ℕ a b = if leb b a then pos (a - b) else negsuc (b - a - 1)

-- - a, for a natural number.
abbrev pub neg : ℕ → ℤ
neg zero = pos 0
neg (suc n) = negsuc n

infixl 65 ◌+ℤ◌ ◌-ℤ◌
infixl 70 ◌*ℤ◌ ◌/ℤ◌ ◌%ℤ◌
infix 50 ◌≤ℤ◌ ◌<ℤ◌
unfoldable pub ◌+ℤ◌ : ℤ → ℤ → ℤ
a +ℤ b = sub_ℕ (pos_part a + pos_part b) (neg_part a + neg_part b)

unfoldable pub ◌-ℤ◌ : ℤ → ℤ → ℤ
a -ℤ b = sub_ℕ (pos_part a + neg_part b) (neg_part a + pos_part b)

unfoldable pub ◌*ℤ◌ : ℤ → ℤ → ℤ
a *ℤ b =
    sub_ℕ (pos_part a * pos_part b + neg_part a * neg_part b)
      (pos_part a * neg_part b + neg_part a * pos_part b)

-- The absolute value.
abbrev pub magnitude : ℤ → ℕ
magnitude a = pos_part a + neg_part a

-- The quotient towards zero. (By zero, which C++ leaves undefined, it is 0.)
unfoldable pub ◌/ℤ◌ : ℤ → ℤ → ℤ
pos a /ℤ pos b = pos (a / b)
pos a /ℤ negsuc b = neg (a / suc b)
negsuc a /ℤ pos b = neg (suc a / b)
negsuc a /ℤ negsuc b = pos (suc a / suc b)

-- The remainder takes the sign of the dividend.
unfoldable pub ◌%ℤ◌ : ℤ → ℤ → ℤ
pos a %ℤ b = pos (a % magnitude b)
negsuc a %ℤ b = neg (suc a % magnitude b)

abbrev pub ◌≤ℤ◌ : ℤ → ℤ → Type 0
a ≤ℤ b = pos_part a + neg_part b ≤ pos_part b + neg_part a

abbrev pub ◌<ℤ◌ : ℤ → ℤ → Type 0
a <ℤ b = pos_part a + neg_part b < pos_part b + neg_part a

abbrev pub ltb_ℤ : ℤ → ℤ → Bool
ltb_ℤ a b = ltb (pos_part a + neg_part b) (pos_part b + neg_part a)

abbrev pub leb_ℤ : ℤ → ℤ → Bool
leb_ℤ a b = leb (pos_part a + neg_part b) (pos_part b + neg_part a)

abbrev pub eq_ℤ : ℤ → ℤ → Bool
eq_ℤ a b = (pos_part a + neg_part b) == (pos_part b + neg_part a)

-- `int`, `std::int64_t`: the ranges of the machine integers.
abbrev pub int_max : ℤ
int_max = pos 2_147_483_647

abbrev pub int64_max : ℤ
int64_max = pos 9_223_372_036_854_775_807

abbrev pub int64_min : ℤ
int64_min = negsuc 9_223_372_036_854_775_807

abbrev pub IsInt64 : ℤ → Type 0
IsInt64 a = (int64_min ≤ℤ a) × (a ≤ℤ int64_max)

abbrev pub IsInt : ℤ → Type 0
IsInt a = (negsuc 2_147_483_647 ≤ℤ a) × (a ≤ℤ int_max)

-- One lemma for each operation: `omega` works with the operations shut.
pub +ℤ_parts :
    (a b : ℤ)
    → pos_part (a +ℤ b) + neg_part a + neg_part b ≡ neg_part (a +ℤ b) + pos_part a + pos_part b
unfolding ◌+ℤ◌
+ℤ_parts a b = ground arith

pub -ℤ_parts :
    (a b : ℤ)
    → pos_part (a -ℤ b) + neg_part a + pos_part b ≡ neg_part (a -ℤ b) + pos_part a + neg_part b
unfolding ◌-ℤ◌
-ℤ_parts a b = ground arith

-- Not both parts of an integer are positive.
pub parts_apart : (a : ℤ) → (pos_part a ≡ 0) ⊎ (neg_part a ≡ 0)
parts_apart (pos n) = inr refl
parts_apart (negsuc n) = inl refl

pub eq_of_parts : (a b : ℤ) → pos_part a + neg_part b ≡ pos_part b + neg_part a → a ≡ b
eq_of_parts a b h = ground arith

neg_parts : (n : ℕ) → (pos_part (neg n) ≡ 0) × (neg_part (neg n) ≡ n)
neg_parts zero = (refl, refl)
neg_parts (suc n) = (refl, refl)

pub zero-div : (d : ℕ) → 0 / d ≡ 0
zero-div d = grind arith

zero-mod : (d : ℕ) → 0 % d ≡ 0
zero-mod d = grind arith

-- The parts of quotient and remainder by a number that is not negative.
pub /ℤ_parts :
    (a : ℤ) (d : ℕ)
    → (pos_part (a /ℤ pos d) ≡ pos_part a / d) × (neg_part (a /ℤ pos d) ≡ neg_part a / d)
unfolding ◌/ℤ◌
/ℤ_parts (pos n) d = (refl, sym (zero-div d))
/ℤ_parts (negsuc n) d = ground (arith, neg_parts (suc n / d), zero-div d)

pub %ℤ_parts :
    (a : ℤ) (d : ℕ)
    → (pos_part (a %ℤ pos d) ≡ pos_part a % d) × (neg_part (a %ℤ pos d) ≡ neg_part a % d)
unfolding ◌%ℤ◌
%ℤ_parts (pos n) d = ground (arith, zero-mod d)
%ℤ_parts (negsuc n) d = ground (arith, neg_parts (suc n % (d + 0)), zero-mod d)

pub *ℤ_parts :
    (a : ℤ) (d : ℕ)
    → (pos_part (a *ℤ pos d) ≡ pos_part a * d) × (neg_part (a *ℤ pos d) ≡ neg_part a * d)
unfolding ◌*ℤ◌
*ℤ_parts (pos n) d = ground arith
*ℤ_parts (negsuc n) zero = ground arith
*ℤ_parts (negsuc n) (suc d) = ground arith

-- An integer that is not negative is its first part.
pub nonneg_eq : (a : ℤ) → pos 0 ≤ℤ a → a ≡ pos (pos_part a)
nonneg_eq (pos n) h = refl
nonneg_eq (negsuc n) h = absurd (omega arith)

-- Two integers with the same parts, in the form that `omega` reads.
abbrev pub Same : ℤ → ℤ → Type 0
Same a b = (pos_part a ≡ pos_part b) × (neg_part a ≡ neg_part b)

pub Same-of_eq : {a b : ℤ} → a ≡ b → Same a b
Same-of_eq e = (ap pos_part e, ap neg_part e)

-- For `omega`: the operations shut, and the tests read.
pub ruleset int_laws =
    (tests, +ℤ_parts, -ℤ_parts, *ℤ_parts, /ℤ_parts, %ℤ_parts, parts_apart, eq_of_parts)

pub product_pos : (a b : ℕ) → pos a *ℤ pos b ≡ pos (a * b)
unfolding ◌*ℤ◌
product_pos a b = ground arith

-- ===== src/Prelude/Bits.antt =====
-- Masks of an unsigned word, bit by bit: `bit k a` is the k-th bit of `a`.
use Prim.Native.Nat.{
  ℕ, zero, suc, ◌+◌, ◌*◌, ◌/◌, ◌%◌, ◌^◌, ◌≤◌, ◌<◌, min, max, bit_and, bit_or, digits,
  bit_and-bitwise, bit_or-bitwise,
}
use mathlib.Core.Path.{◌≡◌, refl, ap, ◌∙◌}
use mathlib.Core.Bool.{Bool, true, false, ◌&&◌, ◌||◌}
use mathlib.Core.Logic.{◌↔◌, ◌≢◌}
use native.Mathlib.Omega.{arith}
use native.Mathlib.Nat.{pow-suc}
use gnss_data_simulator.Prelude.Tests.{◌==◌}

-- More fuel than the number needs changes no digit.
module _ (rest : ℕ → ℕ) (op : ℕ → ℕ → ℕ) where
  enough_digits : (n m a b : ℕ) → a ≤ n → a ≤ m → digits rest op n a b ≡ digits rest op m a b
  enough_digits zero zero zero b h k = refl
  enough_digits zero (suc m) zero b h k = refl
  enough_digits (suc n) zero zero b h k = refl
  enough_digits (suc n) (suc m) zero b h k = refl
  enough_digits zero m (suc a) b h k = elim h [ ]
  enough_digits (suc n) zero (suc a) b h k = elim k [ ]
  enough_digits (suc n) (suc m) (suc a) b h k =
      let half = enough_digits n m (suc a / 2) (b / 2) (omega arith) (omega arith) in
      ap (λ q. q * 2 + op (suc a % 2) (b % 2)) half

-- The lowest digit of a disjunction and of a conjunction, and the digits above it.
bit_or_digits :
    (a b : ℕ) → (bit_or a b / 2 ≡ bit_or (a / 2) (b / 2)) × (bit_or a b % 2 ≡ max (a % 2) (b % 2))
bit_or_digits zero b = omega (arith, bit_or-bitwise 0 b, bit_or-bitwise 0 (b / 2))
bit_or_digits (suc a) b =
    let e = bit_or-bitwise (suc a) b in
    let f = bit_or-bitwise (suc a / 2) (b / 2) in
    let g =
      enough_digits (λ y. y) max a (suc a / 2) (suc a / 2) (b / 2) (omega arith) (omega arith) in
    omega (arith, e, f, g)

bit_and_digits :
    (a b : ℕ)
    → (bit_and a b / 2 ≡ bit_and (a / 2) (b / 2)) × (bit_and a b % 2 ≡ min (a % 2) (b % 2))
bit_and_digits zero b = omega (arith, bit_and-bitwise 0 b, bit_and-bitwise 0 (b / 2))
bit_and_digits (suc a) b =
    let e = bit_and-bitwise (suc a) b in
    let f = bit_and-bitwise (suc a / 2) (b / 2) in
    let g =
      enough_digits (λ y. 0) min a (suc a / 2) (suc a / 2) (b / 2) (omega arith) (omega arith) in
    omega (arith, e, f, g)

abbrev pub bit : ℕ → ℕ → Bool
bit zero a = a % 2 == 1
bit (suc k) a = bit k (a / 2)

pub bit-bit_or : (k a b : ℕ) → bit k (bit_or a b) ≡ (bit k a || bit k b)
bit-bit_or zero a b = ground (arith, bit_or_digits a b)
bit-bit_or (suc k) a b = rw ((bit_or_digits a b).0) (bit-bit_or k (a / 2) (b / 2))

pub bit-bit_and : (k a b : ℕ) → bit k (bit_and a b) ≡ (bit k a && bit k b)
bit-bit_and zero a b = ground (arith, bit_and_digits a b)
bit-bit_and (suc k) a b = rw ((bit_and_digits a b).0) (bit-bit_and k (a / 2) (b / 2))

pub bit_nought : (k : ℕ) → bit k 0 ≡ false
bit_nought zero = refl
bit_nought (suc k) = bit_nought k

pub bit-pow : (k i : ℕ) → bit k (2 ^ i) ≡ (k == i)
bit-pow zero zero = refl
bit-pow (suc k) zero = ground (arith, bit_nought k)
bit-pow zero (suc i) = ground (arith, pow-suc 2 i)
bit-pow (suc k) (suc i) =
    let e : 2 ^ suc i / 2 ≡ 2 ^ i = omega (arith, pow-suc 2 i) in rw e (ground (arith, bit-pow k i))

-- Masks with the same bits are equal.
ext_fuel : (n a b : ℕ) → a ≤ n → b ≤ n → ((k : ℕ) → bit k a ≡ bit k b) → a ≡ b
ext_fuel zero a b h h' e = omega arith
ext_fuel (suc n) a b h h' e =
    let half = ext_fuel n (a / 2) (b / 2) (omega arith) (omega arith) (λ k. e (suc k)) in
    ground (arith, e 0, half)

pub eq_of_bits : (a b : ℕ) → ((k : ℕ) → bit k a ≡ bit k b) → a ≡ b
eq_of_bits a b = ext_fuel (a + b) a b (omega arith) (omega arith)

-- `a` has every bit of `b`, in the way the code tests it.
pub bit_and-eq_iff : (a b : ℕ) → (bit_and a b ≡ b) ↔ ((k : ℕ) → bit k b ≡ true → bit k a ≡ true)
bit_and-eq_iff a b = (
  λ e k h. ground (arith, bit-bit_and k a b, ap (bit k) e),
  λ h. eq_of_bits _ _ λ k. ground (arith, bit-bit_and k a b, h k),
)

-- The two have a bit in common.
pub ne_zero_bit : (n a : ℕ) → a ≤ n → a ≢ 0 → (k : ℕ) × (bit k a ≡ true)
ne_zero_bit zero a h n = absurd (omega arith)
ne_zero_bit (suc m) a h n =
    elim (a % 2 == 1) as (λ b. (a % 2 == 1) ≡ b → (k : ℕ) × (bit k a ≡ true)) [
      | true ↦ λ e. (0, e)
      | false ↦
          λ e. let (k, b) = ne_zero_bit m (a / 2) (omega arith) (ground (arith, e)) in (suc k, b)
    ]
      refl

-- A disjunction needs no more bits than its parts, and with free low bits it is a sum.
pub bit_or-lt : (k a b : ℕ) → a < 2 ^ k → b < 2 ^ k → bit_or a b < 2 ^ k
bit_or-lt zero a b h h' =
    let z : a ≡ 0 = omega arith in let z' : b ≡ 0 = omega arith in rw (z, z') (omega arith)
bit_or-lt (suc k) a b h h' =
    let half =
      bit_or-lt k (a / 2) (b / 2) (omega (arith, pow-suc 2 k)) (omega (arith, pow-suc 2 k)) in
    ground (arith, half, bit_or_digits a b, pow-suc 2 k)

bit_or-zero : (n a : ℕ) → a ≤ n → bit_or a 0 ≡ a
bit_or-zero zero a h = let z : a ≡ 0 = omega arith in rw z
bit_or-zero (suc n) zero h = refl
bit_or-zero (suc n) (suc a) h =
    ground (arith, bit_or_digits (suc a) 0, bit_or-zero n (suc a / 2) (omega arith))

pub bit_or-add : (k q r : ℕ) → r < 2 ^ k → bit_or (q * 2 ^ k) r ≡ q * 2 ^ k + r
bit_or-add zero q r h =
    let z : r ≡ 0 = omega arith in rw z (ground (arith, bit_or-zero (q * 1) (q * 1) (omega arith)))
bit_or-add (suc k) q r h =
    let e : q * 2 ^ suc k ≡ 2 * (q * 2 ^ k) = omega (arith, ap (λ (t : ℕ). q * t) (pow-suc 2 k)) in
    let half = bit_or-add k q (r / 2) (omega (arith, pow-suc 2 k)) in
    let p : q * 2 ^ suc k / 2 ≡ q * 2 ^ k = omega (arith, e) in
    let (d, m) = bit_or_digits (q * 2 ^ suc k) r in
    let d' : bit_or (q * 2 ^ suc k) r / 2 ≡ q * 2 ^ k + r / 2 = rw p at d ∙ half in
    omega (arith, e, d', m)

-- ===== src/Double/Milli.antt =====
-- A type of numbers with which the interface of doubles can be met: thousandths, NaN and the two
-- infinities. No law is assumed of the square root, the exponential, the power, the logarithm and
-- the cosine, and they are stand-ins here.
use gnss_data_simulator.Prelude.{◌≡◌, ◌^◌, Bool, true, false, arith}
use gnss_data_simulator.Prelude.Int.{ℤ, pos, ◌+ℤ◌, ◌-ℤ◌, ◌*ℤ◌, ◌/ℤ◌, ltb_ℤ, leb_ℤ, magnitude}
use gnss_data_simulator.Double.{Double, IsOrdered}

pub data Milli : Type 0 where
  num : ℤ → Milli
  nan inf minus_inf : Milli

abbrev on_numbers : (ℤ → ℤ → ℤ) → Milli → Milli → Milli
on_numbers f (num a) (num b) = num (f a b)
on_numbers f _ _ = nan

abbrev lt_milli : Milli → Milli → Bool
lt_milli nan b = false
lt_milli inf b = false
lt_milli (num a) (num b) = ltb_ℤ a b
lt_milli (num a) inf = true
lt_milli (num a) _ = false
lt_milli minus_inf (num b) = true
lt_milli minus_inf inf = true
lt_milli minus_inf _ = false

abbrev le_milli : Milli → Milli → Bool
le_milli nan b = false
le_milli inf inf = true
le_milli inf b = false
le_milli (num a) (num b) = leb_ℤ a b
le_milli (num a) inf = true
le_milli (num a) _ = false
le_milli minus_inf nan = false
le_milli minus_inf _ = true

abbrev is_num : Milli → Bool
is_num (num a) = true
is_num _ = false

abbrev infinite : Milli → Bool
infinite inf = true
infinite minus_inf = true
infinite _ = false

abbrev negated : Milli → Milli
negated (num a) = num (pos 0 -ℤ a)
negated inf = minus_inf
negated minus_inf = inf
negated nan = nan

abbrev absolute_of : Milli → Milli
absolute_of (num a) = num (pos (magnitude a))
absolute_of nan = nan
absolute_of _ = inf

instance abbrev pub milli_double : Double Milli
milli_double = record {
  decimal = λ m e. num ((m *ℤ pos 1000) /ℤ pos (10 ^ e));
  add = on_numbers ◌+ℤ◌;
  sub = on_numbers ◌-ℤ◌;
  mul = on_numbers (λ a b. (a *ℤ b) /ℤ pos 1000);
  div = on_numbers (λ a b. (a *ℤ pos 1000) /ℤ b);
  negate = negated;
  absolute = absolute_of;
  sqrt = λ x. x;
  exp = λ x. on_numbers ◌+ℤ◌ (num (pos 1000)) x;
  log = λ x. x;
  cos = λ x. x;
  pow = λ x y. on_numbers (λ a b. a) x y;
  lt = lt_milli;
  le = le_milli;
  is_finite = is_num;
  is_inf = infinite;
}

lt_trans : (x y z : Milli) → lt_milli x y ≡ true → lt_milli y z ≡ true → lt_milli x z ≡ true
lt_trans x y z h k = ground arith

lt-le_trans : (x y z : Milli) → lt_milli x y ≡ true → le_milli y z ≡ true → lt_milli x z ≡ true
lt-le_trans x y z h k = ground arith

le-lt_trans : (x y z : Milli) → le_milli x y ≡ true → lt_milli y z ≡ true → lt_milli x z ≡ true
le-lt_trans x y z h k = ground arith

lt_irrefl : (x : Milli) → lt_milli x x ≡ false
lt_irrefl x = ground arith

le_of_lt : (x y : Milli) → lt_milli x y ≡ true → le_milli x y ≡ true
le_of_lt x y h = ground arith

le_of_not_lt :
    (x y : Milli) → is_num x ≡ true → is_num y ≡ true → lt_milli x y ≡ false → le_milli y x ≡ true
le_of_not_lt x y h k l = ground arith

pub Milli-IsOrdered : IsOrdered Milli
Milli-IsOrdered = record {
  lt_trans = lt_trans;
  lt-le_trans = lt-le_trans;
  le-lt_trans = le-lt_trans;
  lt_irrefl = lt_irrefl;
  le_of_lt = le_of_lt;
  le_of_not_lt = le_of_not_lt;
}

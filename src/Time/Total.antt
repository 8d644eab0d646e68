-- ===== src/Time/Total.antt =====
-- The nanoseconds since the first GPS week, and normal times.
use gnss_data_simulator.Prelude.{true, ◌≡◌, ◌↔◌, arith}
use gnss_data_simulator.Prelude.Int.{
  ℤ, pos, ◌+ℤ◌, ◌*ℤ◌, ◌≤ℤ◌, ◌<ℤ◌, int_max, Same, eq_of_parts, Same-of_eq, int_laws,
}
use gnss_data_simulator.Time.{SimTime, gps_week_nanoseconds, valid_normalized_time}

abbrev pub total_ns : SimTime → ℤ
total_ns t = t.gps_week *ℤ gps_week_nanoseconds +ℤ t.tow_ns

-- A normalised time, as the functions make and want it.
pub record IsNormal (t : SimTime) : Type 0 where
  pub week_ge : pos 0 ≤ℤ t.gps_week
  pub week_le : t.gps_week ≤ℤ int_max
  pub tow_ge : pos 0 ≤ℤ t.tow_ns
  pub tow_lt : t.tow_ns <ℤ gps_week_nanoseconds

eq_of_Same : {a b : ℤ} → Same a b → a ≡ b
eq_of_Same {a} {b} h = eq_of_parts a b (omega arith)

pub SimTime_eq : (s t : SimTime) → Same s.gps_week t.gps_week → Same s.tow_ns t.tow_ns → s ≡ t
SimTime_eq s t a b = λ i. record { gps_week = eq_of_Same a i; tow_ns = eq_of_Same b i }

-- The guard of the source; the upper bound on the week is that of `int`.
pub valid_normalized_time_iff :
    (t : SimTime) → t.gps_week ≤ℤ int_max → (valid_normalized_time t ≡ true) ↔ IsNormal t
unfolding valid_normalized_time
valid_normalized_time_iff t h = (λ e. ground arith, λ n. ground arith)

-- A normal time is its total.
pub total_ns_injective : (s t : SimTime) → IsNormal s → IsNormal t → total_ns s ≡ total_ns t → s ≡ t
total_ns_injective s t n m e =
    let same = Same-of_eq e in SimTime_eq s t (omega int_laws) (omega int_laws)

-- ===== src/Time/Normalize.antt =====
-- `checked_week_adjustment` and `normalize_sim_time`: the one normal time of a given total.
use gnss_data_simulator.Prelude.{◌≡◌, ◌↔◌, some, inl, inr, Bool-cases, arith}
use gnss_data_simulator.Prelude.Int.{
  ℤ, pos, ltb_ℤ, ◌/ℤ◌, ◌%ℤ◌, ◌+ℤ◌, ◌-ℤ◌, ◌*ℤ◌, ◌≤ℤ◌, int_max, int_laws, Same, Same-of_eq,
}
use gnss_data_simulator.Time.{
  SimTime, gps_week_nanoseconds, checked_week_adjustment, with_week, normalize_sim_time,
}
use gnss_data_simulator.Time.Total.{IsNormal, total_ns, SimTime_eq}

with_week_lem :
    (week by tow : ℤ) (t : SimTime)
    → with_week week by tow ≡ some t
    → Same t.gps_week (week +ℤ by)
      × Same t.tow_ns tow
      × (pos 0 ≤ℤ t.gps_week)
      × (t.gps_week ≤ℤ int_max)
unfolding with_week checked_week_adjustment
with_week_lem week by tow t h = ground arith

pub normalize_sim_time_lem :
    (week tow : ℤ) {t : SimTime}
    → normalize_sim_time week tow ≡ some t
    → IsNormal t × (total_ns t ≡ week *ℤ gps_week_nanoseconds +ℤ tow)
unfolding normalize_sim_time
normalize_sim_time_lem week tow {t} h =
    let q = tow /ℤ gps_week_nanoseconds in
    let r = tow %ℤ gps_week_nanoseconds in
    elim (Bool-cases (ltb_ℤ week (pos 0))) [
      | inl e ↦ ground (arith, e)
      | inr e ↦ elim (Bool-cases (ltb_ℤ r (pos 0))) [
        | inl e' ↦
            let lem =
              with_week_lem week (q -ℤ pos 1) (r +ℤ gps_week_nanoseconds) t (rw (e, e') at h) in
            (omega (int_laws, lem), omega (int_laws, lem))
        | inr e' ↦
            let lem = with_week_lem week q r t (rw (e, e') at h) in
            (omega (int_laws, lem), omega (int_laws, lem))
      ]
    ]

with_week-some :
    (week by tow : ℤ) (t : SimTime)
    → IsNormal t
    → Same (week +ℤ by) t.gps_week
    → Same tow t.tow_ns
    → with_week week by tow ≡ some t
unfolding with_week checked_week_adjustment
with_week-some week by tow t n a b =
    let e = SimTime_eq (record { gps_week = week +ℤ by; tow_ns = tow }) t a b in ground (arith, e)

-- The only normal time with the given total is found.
pub normalize_sim_time-some :
    (week tow : ℤ) (t : SimTime)
    → pos 0 ≤ℤ week
    → IsNormal t
    → total_ns t ≡ week *ℤ gps_week_nanoseconds +ℤ tow
    → normalize_sim_time week tow ≡ some t
unfolding normalize_sim_time
normalize_sim_time-some week tow t h n e =
    let q = tow /ℤ gps_week_nanoseconds in
    let r = tow %ℤ gps_week_nanoseconds in
    let same = Same-of_eq e in
    elim (Bool-cases (ltb_ℤ week (pos 0))) [
      | inl f ↦ absurd (omega (int_laws, f))
      | inr f ↦ elim (Bool-cases (ltb_ℤ r (pos 0))) [
        | inl f' ↦
            rw (f, f')
              (with_week-some week (q -ℤ pos 1) (r +ℤ gps_week_nanoseconds) t n (omega int_laws)
                (omega int_laws))
        | inr f' ↦ rw (f, f') (with_week-some week q r t n (omega int_laws) (omega int_laws))
      ]
    ]

-- `normalize_sim_time` gives the one normal time whose total is that of the week and the nanoseconds
-- given, which may be negative or past the week's end, and fails exactly if there is none. (For a
-- week that is not negative; the other weeks are refused.)
pub normalize_sim_time_iff :
    (week tow : ℤ) (t : SimTime)
    → pos 0 ≤ℤ week
    → (normalize_sim_time week tow ≡ some t)
      ↔ (IsNormal t × (total_ns t ≡ week *ℤ gps_week_nanoseconds +ℤ tow))
normalize_sim_time_iff week tow t h =
    (normalize_sim_time_lem week tow, λ (n, e). normalize_sim_time-some week tow t h n e)

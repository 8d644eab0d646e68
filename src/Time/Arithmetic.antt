-- ===== src/Time/Arithmetic.antt =====
-- `add_time_ns` and `difference_time_ns` against the totals.
use mathlib.Core.Option.{some-injective}
use gnss_data_simulator.Prelude.{
  ℕ, ◌*◌, ◌<◌, ◌≤◌, Bool, true, false, ◌||◌, not, ◌≡◌, refl, ◌↔◌, ap, Option, if◌then◌else◌, some,
  none, inl, inr, Bool-cases, arith,
}
use gnss_data_simulator.Prelude.Opt.{>>=-eq-some, guard}
use gnss_data_simulator.Prelude.Int.{
  ℤ, pos, magnitude, ◌/ℤ◌, ◌+ℤ◌, ◌-ℤ◌, ◌*ℤ◌, ◌≤ℤ◌, int_max, int64_max, int64_min, parts_apart,
  -ℤ_parts, +ℤ_parts, IsInt64, int_laws, Same, Same-of_eq,
}
use gnss_data_simulator.Time.{
  SimTime, gps_week_nanoseconds, checked_week_adjustment, valid_normalized_time, add_time_ns,
  week_delta_overflows, sum_overflows, difference_time_ns,
}
use gnss_data_simulator.Time.Total.{IsNormal, total_ns, valid_normalized_time_iff}
use gnss_data_simulator.Time.Normalize.{normalize_sim_time_lem, normalize_sim_time-some}

guard_lem : (b : Bool) {u : Unit {0}} → guard b ≡ some u → b ≡ true
guard_lem true e = refl
guard_lem false e = ground arith

checked_week_adjustment_lem :
    (week by : ℤ) {w : ℤ}
    → checked_week_adjustment week by ≡ some w
    → Same w (week +ℤ by) × (pos 0 ≤ℤ w) × (w ≤ℤ int_max)
unfolding checked_week_adjustment
checked_week_adjustment_lem week by h = ground arith

checked_week_adjustment-some :
    (week by : ℤ)
    → pos 0 ≤ℤ week +ℤ by
    → week +ℤ by ≤ℤ int_max
    → checked_week_adjustment week by ≡ some (week +ℤ by)
unfolding checked_week_adjustment
checked_week_adjustment-some week by h k = ground arith

add_time_ns_lem :
    (t : SimTime) (d : ℤ) {u : SimTime}
    → t.gps_week ≤ℤ int_max
    → add_time_ns t d ≡ some u
    → IsNormal t × IsNormal u × (total_ns u ≡ total_ns t +ℤ d)
unfolding add_time_ns
add_time_ns_lem t d h e =
    let (_, g, rest) = >>=-eq-some _ _ e in
    let (w, c, rest') = >>=-eq-some _ _ rest in
    let lem = checked_week_adjustment_lem _ _ c in
    let (n, tot) = normalize_sim_time_lem _ _ rest' in
    let same = Same-of_eq tot in
    ((valid_normalized_time_iff t h).0 (guard_lem _ g), n, omega (int_laws, lem))

add_time_ns-some :
    (t : SimTime) (d : ℤ) (u : SimTime)
    → IsNormal t
    → IsNormal u
    → total_ns u ≡ total_ns t +ℤ d
    → add_time_ns t d ≡ some u
unfolding add_time_ns
add_time_ns-some t d u n m e =
    let same = Same-of_eq e in
    let by = d /ℤ gps_week_nanoseconds in
    rw
      (
        (valid_normalized_time_iff t n.week_le).1 n,
        checked_week_adjustment-some t.gps_week by (omega int_laws) (omega int_laws),
      )
      (normalize_sim_time-some _ _ u (omega int_laws) m (omega int_laws))

-- `add_time_ns` succeeds exactly when the given time is normal and a normal time with the total of
-- the sum exists, and gives that time. (The week of the given time is an `int`.)
pub add_time_ns_iff :
    (t : SimTime) (d : ℤ) (u : SimTime)
    → t.gps_week ≤ℤ int_max
    → (add_time_ns t d ≡ some u) ↔ (IsNormal t × IsNormal u × (total_ns u ≡ total_ns t +ℤ d))
add_time_ns_iff t d u h = (add_time_ns_lem t d h, λ (n, m, e). add_time_ns-some t d u n m e)

-- The weeks between two times, as `difference_time_ns` takes them, and their limit.
abbrev pub week_delta : SimTime → SimTime → ℤ
week_delta lhs rhs = lhs.gps_week -ℤ rhs.gps_week

abbrev pub max_week_delta : ℕ
max_week_delta = 15_250

week_delta_overflows_iff :
    (d : ℤ) → (week_delta_overflows d ≡ false) ↔ (magnitude d ≤ max_week_delta)
unfolding week_delta_overflows ◌-ℤ◌ ◌/ℤ◌
week_delta_overflows_iff d = (λ e. ground arith, λ n. ground arith)

sum_overflows_iff :
    (w t : ℤ)
    → magnitude w ≤ max_week_delta * 604_800_000_000_000
    → magnitude t < 604_800_000_000_000
    → (sum_overflows w t ≡ false) ↔ IsInt64 (w +ℤ t)
unfolding sum_overflows
sum_overflows_iff w t h k =
    let l = -ℤ_parts int64_max t in
    let l' = -ℤ_parts int64_min t in
    let l'' = +ℤ_parts w t in
    (
      λ e. ground (
        arith,
        l,
        l',
        l'',
        parts_apart w,
        parts_apart t,
        parts_apart (int64_max -ℤ t),
        parts_apart (int64_min -ℤ t),
      ),
      λ n. ground (
        arith,
        l,
        l',
        l'',
        parts_apart w,
        parts_apart t,
        parts_apart (int64_max -ℤ t),
        parts_apart (int64_min -ℤ t),
      ),
    )

module _ (a b : SimTime) (n : IsNormal a) (m : IsNormal b) where
  valid : (not (valid_normalized_time a) || not (valid_normalized_time b)) ≡ false
  valid =
      rw ((valid_normalized_time_iff a n.week_le).1 n, (valid_normalized_time_iff b m.week_le).1 m)
        refl

  after_guard : Option ℤ
  after_guard =
      if week_delta_overflows (week_delta a b)
      then none
      else if sum_overflows (week_delta a b *ℤ gps_week_nanoseconds) (a.tow_ns -ℤ b.tow_ns)
      then none
      else some (week_delta a b *ℤ gps_week_nanoseconds +ℤ (a.tow_ns -ℤ b.tow_ns))

  difference_time_ns_lem :
      (d : ℤ)
      → difference_time_ns a b ≡ some d
      → (total_ns a ≡ total_ns b +ℤ d) × IsInt64 d × (magnitude (week_delta a b) ≤ max_week_delta)
  unfolding difference_time_ns after_guard
  difference_time_ns_lem d h =
      let by = week_delta a b *ℤ gps_week_nanoseconds in
      let tow = a.tow_ns -ℤ b.tow_ns in
      let h' : after_guard ≡ some d = rw valid at h in
      elim (Bool-cases (week_delta_overflows (week_delta a b))) [
        | inl e ↦ ground (arith, e)
        | inr e ↦ elim (Bool-cases (sum_overflows by tow)) [
          | inl e' ↦ ground (arith, e, e')
          | inr e' ↦
              let k = (week_delta_overflows_iff _).0 e in
              let i = (sum_overflows_iff by tow (omega int_laws) (omega int_laws)).0 e' in
              let v : some (by +ℤ tow) ≡ some d = rw (e, e') at h' in
              let same = Same-of_eq (some-injective _ _ v) in (omega int_laws, omega int_laws, k)
        ]
      ]

  difference_time_ns-some :
      (d : ℤ)
      → total_ns a ≡ total_ns b +ℤ d
      → IsInt64 d
      → magnitude (week_delta a b) ≤ max_week_delta
      → difference_time_ns a b ≡ some d
  unfolding difference_time_ns
  difference_time_ns-some d h i k =
      let by = week_delta a b *ℤ gps_week_nanoseconds in
      let tow = a.tow_ns -ℤ b.tow_ns in
      let same = Same-of_eq h in
      let v : by +ℤ tow ≡ d = omega int_laws in
      rw
        (
          valid,
          (week_delta_overflows_iff (week_delta a b)).1 k,
          (sum_overflows_iff by tow (omega int_laws) (omega int_laws)).1 (omega int_laws),
        )
        (ap some v)

  -- On normal times `difference_time_ns` gives the difference of the totals, exactly when that fits
  -- 64 bits and the times are at most 15250 weeks apart.
  pub difference_time_ns_iff :
      (d : ℤ)
      → (difference_time_ns a b ≡ some d) ↔ (
          (total_ns a ≡ total_ns b +ℤ d)
          × IsInt64 d
          × (magnitude (week_delta a b) ≤ max_week_delta))
  difference_time_ns_iff d =
      (difference_time_ns_lem d, λ (h, i, k). difference_time_ns-some d h i k)

-- What `difference_time_ns` gives, added to the earlier time by `add_time_ns`, gives the later one back.
pub add-difference :
    (a b : SimTime) (d : ℤ)
    → IsNormal a
    → IsNormal b
    → difference_time_ns a b ≡ some d
    → add_time_ns b d ≡ some a
add-difference a b d n m h = add_time_ns-some b d a m n (difference_time_ns_lem a b n m d h).0

-- An offset of at most 15250 weeks, added to a normal time, is the difference of sum and time.
pub difference-add :
    (t u : SimTime) (d : ℤ)
    → t.gps_week ≤ℤ int_max
    → magnitude d ≤ max_week_delta * 604_800_000_000_000
    → add_time_ns t d ≡ some u
    → difference_time_ns u t ≡ some d
difference-add t u d h k e =
    let (n, m, tot) = add_time_ns_lem t d h e in
    let same = Same-of_eq tot in
    difference_time_ns-some u t m n d tot (omega int_laws) (omega int_laws)

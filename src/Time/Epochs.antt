-- ===== src/Time/Epochs.antt =====
-- The sampling grid: `sampling_interval_ns`, `epoch_time_at_index`, `epoch_index_at_or_after` and
-- `epoch_count_for_duration`.
use mathlib.Core.Option.{some-injective}
use gnss_data_simulator.Prelude.{
  ℕ, ◌+◌, ◌-◌, ◌*◌, ◌/◌, ◌∙◌, ◌≤◌, ◌<◌, ◌≡◌, ◌↔◌, refl, false, subst, if-split, if◌then◌else◌,
  Option, some, inl, inr, Bool-cases, ltb, arith,
}
use gnss_data_simulator.Prelude.Opt.{◌>>=◌, >>=-eq-some, none-ne-some}
use gnss_data_simulator.Prelude.Int.{
  ℤ, pos, pos_part, neg_part, leb_ℤ, eq_ℤ, eq_of_parts, ◌+ℤ◌, ◌-ℤ◌, ◌*ℤ◌, ◌/ℤ◌, ◌≤ℤ◌, ◌<ℤ◌, int_max,
  int64_max, int_laws, Same-of_eq, *ℤ_parts, /ℤ_parts, zero-div,
}
use gnss_data_simulator.Time.{
  SimTime, nanoseconds_per_second, sampling_interval_ns, epoch_time_at_index,
  epoch_index_at_or_after, epoch_count_for_duration, difference_time_ns, add_time_ns,
}
use gnss_data_simulator.Time.Total.{IsNormal, total_ns}
use gnss_data_simulator.Time.Arithmetic.{add_time_ns_iff, difference_time_ns_iff}

-- A sampling rate that has an interval is positive, and so is its interval; interval times rate is one
-- second.
pub sampling_interval_ns_lem :
    (rate i : ℤ)
    → sampling_interval_ns rate ≡ some i
    → (i *ℤ rate ≡ nanoseconds_per_second) × (pos 0 <ℤ i) × (pos 0 <ℤ rate)
unfolding sampling_interval_ns ◌*ℤ◌
sampling_interval_ns_lem rate i h = ground arith

-- The sampling rates in Hz.
pub data IsRate : ℤ → Type 0 where
  one : IsRate (pos 1)
  five : IsRate (pos 5)
  ten : IsRate (pos 10)
  twenty : IsRate (pos 20)
  fifty : IsRate (pos 50)

interval_of : {rate : ℤ} → IsRate rate → ℕ
interval_of one = 1_000_000_000
interval_of five = 200_000_000
interval_of ten = 100_000_000
interval_of twenty = 50_000_000
interval_of fifty = 20_000_000

interval_lem :
    {rate : ℤ} (r : IsRate rate)
    → (sampling_interval_ns rate ≡ some (pos (interval_of r)))
      × (0 < interval_of r)
      × ((x : ℤ) (n : ℕ)
          → (x *ℤ rate ≡ pos n *ℤ nanoseconds_per_second) ↔ (x ≡ pos n *ℤ pos (interval_of r)))
unfolding sampling_interval_ns interval_of
interval_lem one = (
  refl,
  omega arith,
  λ x n. (λ e. omega (int_laws, Same-of_eq e), λ e. omega (int_laws, Same-of_eq e)),
)
interval_lem five = (
  refl,
  omega arith,
  λ x n. (λ e. omega (int_laws, Same-of_eq e), λ e. omega (int_laws, Same-of_eq e)),
)
interval_lem ten = (
  refl,
  omega arith,
  λ x n. (λ e. omega (int_laws, Same-of_eq e), λ e. omega (int_laws, Same-of_eq e)),
)
interval_lem twenty = (
  refl,
  omega arith,
  λ x n. (λ e. omega (int_laws, Same-of_eq e), λ e. omega (int_laws, Same-of_eq e)),
)
interval_lem fifty = (
  refl,
  omega arith,
  λ x n. (λ e. omega (int_laws, Same-of_eq e), λ e. omega (int_laws, Same-of_eq e)),
)

-- A test of the table: the rate is the one tested, or among the rest.
tested :
    (rate known i v : ℤ) {rest : Option ℤ}
    → IsRate known
    → (rest ≡ some i → IsRate rate)
    → (if eq_ℤ rate known then some v else rest) ≡ some i
    → IsRate rate
tested rate known i v r later =
    if-split (λ o. o ≡ some i → IsRate rate) (eq_ℤ rate known)
      (λ e h. subst IsRate (eq_of_parts known rate (ground arith)) r) (λ e h. later h)

sampling_interval_ns-IsRate : (rate i : ℤ) → sampling_interval_ns rate ≡ some i → IsRate rate
unfolding sampling_interval_ns
sampling_interval_ns-IsRate rate i = tested rate _ i _ one (
    tested rate _ i _ five (
      tested rate _ i _ ten
        (tested rate _ i _ twenty (tested rate _ i _ fifty (λ h. absurd (none-ne-some h))))))

quotient : (d n k : ℕ) → 0 < k → (n ≤ d / k) ↔ (n * k ≤ d)
quotient d n k h = (λ e. grind arith, λ e. grind arith)

-- The guard on the index is the range of the product.
in_range :
    (n k : ℕ)
    → 0 < k
    → (ltb (pos_part (int64_max /ℤ pos k)) n ≡ false) ↔ (pos n *ℤ pos k ≤ℤ int64_max)
in_range n k h =
    let q = quotient 9_223_372_036_854_775_807 n k h in
    let (a, b) = /ℤ_parts int64_max k in
    let (c, e) = *ℤ_parts (pos n) k in
    (
      λ f.
          let le : n * k ≤ 9_223_372_036_854_775_807 = q.0 (ground (arith, a, f)) in
          omega (arith, c, e, le),
      λ f.
          let le : n ≤ 9_223_372_036_854_775_807 / k = q.1 (omega (arith, c, f)) in
          ground (arith, a, le),
    )

module _ (start u : SimTime) (rate : ℤ) (n : ℕ) (week : start.gps_week ≤ℤ int_max) where
  -- What the time of an epoch is, at a rate.
  abbrev IsEpochTime : Type 0
  IsEpochTime =
      let elapsed_ns = total_ns u -ℤ total_ns start in
      IsNormal start
      × IsNormal u
      × (elapsed_ns ≤ℤ int64_max)
      × (elapsed_ns *ℤ rate ≡ pos n *ℤ nanoseconds_per_second)

  given : IsRate rate → epoch_time_at_index start rate n ≡ some u → IsEpochTime
  unfolding epoch_time_at_index
  given r e =
      let (interval, positive, scale) = interval_lem r in
      let k = interval_of r in
      elim (Bool-cases (ltb (pos_part (int64_max /ℤ pos k)) n)) [
        | inl f ↦ absurd (none-ne-some (rw (interval, f) at e))
        | inr f ↦
            let e' : add_time_ns start (pos n *ℤ pos k) ≡ some u = rw (interval, f) at e in
            let (m, m', total) = (add_time_ns_iff start _ u week).0 e' in
            let same = Same-of_eq total in
            let elapsed : total_ns u -ℤ total_ns start ≡ pos n *ℤ pos k = omega (int_laws, same) in
            (m, m', rw elapsed ((in_range n k positive).0 f), (scale _ n).1 elapsed)
      ]

  gives : IsRate rate → IsEpochTime → epoch_time_at_index start rate n ≡ some u
  unfolding epoch_time_at_index
  gives r (m, m', le, e) =
      let (interval, positive, scale) = interval_lem r in
      let k = interval_of r in
      let elapsed : total_ns u -ℤ total_ns start ≡ pos n *ℤ pos k = (scale _ n).0 e in
      let same = Same-of_eq elapsed in
      let f = (in_range n k positive).1 (rw elapsed at le) in
      rw (interval, f) ((add_time_ns_iff start _ u week).1 (m, m', omega (int_laws, same)))

  epoch_time_at_index-IsRate : epoch_time_at_index start rate n ≡ some u → IsRate rate
  unfolding epoch_time_at_index
  epoch_time_at_index-IsRate e =
      let (i, h, _) = >>=-eq-some _ _ e in sampling_interval_ns-IsRate rate i h

-- `epoch_time_at_index` succeeds exactly where the rate is a sampling rate, the given time is normal,
-- and the time of the epoch is a normal time, at most the largest `std::int64_t` of nanoseconds
-- later; it gives that time, which is as many periods of the rate after the given time as the index
-- says. (The week of the given time is an `int`.)
pub epoch_time_at_index_iff :
    (start u : SimTime) (rate : ℤ) (n : ℕ)
    → start.gps_week ≤ℤ int_max
    → let elapsed_ns = total_ns u -ℤ total_ns start in
      (epoch_time_at_index start rate n ≡ some u) ↔ (
        IsRate rate
        × IsNormal start
        × IsNormal u
        × (elapsed_ns ≤ℤ int64_max)
        × (elapsed_ns *ℤ rate ≡ pos n *ℤ nanoseconds_per_second))
epoch_time_at_index_iff start u rate n week = (
  λ e.
      let r = epoch_time_at_index-IsRate start u rate n week e in
      let (m, m', le, elapsed) = given start u rate n week r e in (r, m, m', le, elapsed),
  λ (r, m, m', le, elapsed). gives start u rate n week r (m, m', le, elapsed),
)

ceiling : (d k m : ℕ) → 0 < d → 0 < k → (d ≤ m * k) ↔ ((d - 1) / k + 1 ≤ m)
ceiling d k m h h' = (λ e. grind arith, λ e. grind arith)

-- The rounded-up quotient of the source, for a positive dividend.
least :
    (d : ℤ) (k n m : ℕ)
    → 0 < k
    → leb_ℤ d (pos 0) ≡ false
    → pos_part ((d -ℤ pos 1) /ℤ pos k +ℤ pos 1) ≡ n
    → (d ≤ℤ pos (m * k)) ↔ (n ≤ m)
least d k n m h f v =
    let q : pos_part (d -ℤ pos 1) ≡ pos_part d - 1 = omega (int_laws, f) in
    let z : neg_part (d -ℤ pos 1) ≡ 0 = omega (int_laws, f) in
    let (a, b) = /ℤ_parts (d -ℤ pos 1) k in
    let a' : pos_part ((d -ℤ pos 1) /ℤ pos k) ≡ (pos_part d - 1) / k = rw q at a in
    let b' : neg_part ((d -ℤ pos 1) /ℤ pos k) ≡ 0 = rw z at b ∙ zero-div k in
    let c = ceiling (pos_part d) k m (omega (int_laws, f)) h in
    let w : n ≡ (pos_part d - 1) / k + 1 = omega (int_laws, a', b', v) in
    (λ e. rw w (c.0 (omega (int_laws, e))), λ e. omega (int_laws, c.1 (rw w at e)))

module _ (rate : ℤ) (k : ℕ) (interval : sampling_interval_ns rate ≡ some (pos k)) where
  interval_pos : 0 < k
  interval_pos = let (_, h, _) = sampling_interval_ns_lem rate (pos k) interval in omega (arith, h)

  -- `epoch_index_at_or_after` gives the least index of which the epoch, at whole intervals after the
  -- start, is not before the event.
  pub epoch_index_at_or_after_least :
      (start event : SimTime) (n m : ℕ)
      → IsNormal start
      → IsNormal event
      → epoch_index_at_or_after start event rate ≡ some n
      → (total_ns event ≤ℤ total_ns start +ℤ pos m *ℤ pos k) ↔ (n ≤ m)
  unfolding epoch_index_at_or_after
  epoch_index_at_or_after_least start event n m hs he e =
      let e' : (difference_time_ns event start >>= after) ≡ some n = rw interval at e in
      let (d, hd, hn) = >>=-eq-some _ _ e' in
      let (tot, _, _) = (difference_time_ns_iff event start he hs d).0 hd in
      let same = Same-of_eq tot in
      elim (Bool-cases (leb_ℤ d (pos 0))) [
        | inl f ↦
            let zero_eq : 0 ≡ n = some-injective _ _ (rw f at hn) in
            (λ _. omega (arith, zero_eq), λ _. omega (int_laws, same, f))
        | inr f ↦
            let l = least d k n m interval_pos f (some-injective _ _ (rw f at hn)) in
            let mul = *ℤ_parts (pos m) k in
            (λ h. l.0 (omega (int_laws, same, h, mul)), λ h. omega (int_laws, same, l.1 h, mul))
      ]
    where
      after : ℤ → Option ℕ
      after d = if leb_ℤ d (pos 0) then some 0 else some (pos_part ((d -ℤ pos 1) /ℤ pos k +ℤ pos 1))

  -- `epoch_count_for_duration` gives the least number of intervals that cover the duration.
  pub epoch_count_for_duration_least :
      (duration : ℤ) (n m : ℕ)
      → epoch_count_for_duration duration rate ≡ some n
      → (duration ≤ℤ pos (m * k)) ↔ (n ≤ m)
  unfolding epoch_count_for_duration
  epoch_count_for_duration_least duration n m e = elim (Bool-cases (leb_ℤ duration (pos 0))) [
    | inl f ↦ ground (arith, rw f at e)
    | inr f ↦
        let v = some-injective _ _ (rw (f, interval) at e) in least duration k n m interval_pos f v
  ]

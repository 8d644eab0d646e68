-- ===== src/Tracking/Delays.antt =====
-- The range of the delays of src/model/signal_tracking.cpp.
use native.Mathlib.Nat.{div-le_of_le-mul, mul-le-mul_right, mul_comm}
use gnss_data_simulator.Prelude.{
  ℕ, ◌-◌, ◌*◌, ◌/◌, ◌^◌, refl, ◌≤◌, ◌<◌, ◌≡◌, true, ltb, ◌||◌, ◌==◌, Bool-cases, inl, inr, arith,
}
use gnss_data_simulator.Prelude.Int.{
  ℤ, pos, ◌-ℤ◌, ◌*ℤ◌, ◌/ℤ◌, ◌≤ℤ◌, ◌<ℤ◌, leb_ℤ, int_laws, negsuc, product_pos,
}
use gnss_data_simulator.Rng.{DeterministicRng, rng_next_u32}
use gnss_data_simulator.Rng.Stream.{rng_next_u32-lt}
use gnss_data_simulator.Tracking.{
  DelayDistribution, valid_delay_distribution, interpolate_integer, delay_at, sample_delay,
}

-- A part of a span is no longer than the span.
part_le : (s n d : ℕ) → n ≤ d → 0 < d → s * n / d ≤ s
part_le s n d h k = div-le_of_le-mul d (rw (mul_comm s n) (mul-le-mul_right s h))

part-Between :
    (s : ℤ) (n d : ℕ)
    → pos 0 ≤ℤ s
    → n ≤ d
    → 0 < d
    → (pos 0 ≤ℤ (s *ℤ pos n) /ℤ pos d) × ((s *ℤ pos n) /ℤ pos d ≤ℤ s)
unfolding ◌/ℤ◌
part-Between (pos s) n d p h k =
    rw (product_pos s n) (omega arith, omega (arith, part_le s n d h k))
part-Between (negsuc s) n d p h k = absurd (omega arith)

interpolate_integer-Between :
    (lower upper : ℤ) (n d : ℕ)
    → lower ≤ℤ upper
    → n ≤ d
    → 0 < d
    → (lower ≤ℤ interpolate_integer lower upper n d)
      × (interpolate_integer lower upper n d ≤ℤ upper)
unfolding interpolate_integer
interpolate_integer-Between lower upper n d l h k =
    elim (Bool-cases (leb_ℤ upper lower || d == 0)) [
      | inl e ↦ rw e (omega int_laws, l)
      | inr e ↦
          let (low, high) = part-Between (upper -ℤ lower) n d (omega int_laws) h k in
          rw e (omega (int_laws, low), omega (int_laws, high))
    ]

delay_at-Between :
    (x : DelayDistribution) (q : ℕ)
    → valid_delay_distribution x ≡ true
    → q < 65_536
    → (x.minimum_ns ≤ℤ delay_at x q) × (delay_at x q ≤ℤ x.maximum_ns)
unfolding delay_at valid_delay_distribution
delay_at-Between x q v h =
    let (a, b, c) : (x.minimum_ns ≤ℤ x.p50_ns)
        × (x.p50_ns ≤ℤ x.p95_ns)
        × (x.p95_ns ≤ℤ x.maximum_ns) =
      ground arith in
    elim (Bool-cases (ltb q 32_768)) [
      | inl e ↦
          let (l, r) =
            interpolate_integer-Between x.minimum_ns x.p50_ns q 32_768 a (omega int_laws)
              (omega arith) in
          rw e (l, omega (int_laws, r, b, c))
      | inr e ↦ elim (Bool-cases (ltb q 62_259)) [
        | inl f ↦
            let (l, r) =
              interpolate_integer-Between x.p50_ns x.p95_ns (q - 32_768) 29_491 b (omega int_laws)
                (omega arith) in
            rw (e, f) (omega (int_laws, l, a), omega (int_laws, r, c))
        | inr f ↦
            let (l, r) =
              interpolate_integer-Between x.p95_ns x.maximum_ns (q - 62_259) 3_277 c
                (omega int_laws) (omega arith) in
            rw (e, f) (omega (int_laws, l, a, b), r)
      ]
    ]

-- A delay drawn from a valid distribution, whose maximum is below 2 ^ 47 nanoseconds so that the
-- products of the interpolation fit 64 bits, lies between the minimum and the maximum, and the draw
-- takes one word of the generator.
pub sample_delay-Between :
    (x : DelayDistribution) (rng : DeterministicRng)
    → valid_delay_distribution x ≡ true
    → x.maximum_ns <ℤ pos 140_737_488_355_328
    → (x.minimum_ns ≤ℤ (sample_delay x rng).0)
      × ((sample_delay x rng).0 ≤ℤ x.maximum_ns)
      × ((sample_delay x rng).1 ≡ (rng_next_u32 rng).1)
unfolding sample_delay
sample_delay-Between x rng v m =
    let (l, r) =
      delay_at-Between x ((rng_next_u32 rng).0 / 2 ^ 16) v (omega (arith, rng_next_u32-lt rng)) in
    (l, r, refl)

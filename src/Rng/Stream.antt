-- ===== src/Rng/Stream.antt =====
-- The generator's words stay in range, and its steps can be undone.
use Prim.Native.Nat.{bit_or}
use gnss_data_simulator.Prelude.{ℕ, ◌+◌, ◌-◌, ◌*◌, ◌/◌, ◌%◌, ◌^◌, ◌<◌, ◌≡◌, ap, refl, arith}
use gnss_data_simulator.Prelude.Bits.{bit_or-lt, bit_or-add}
use gnss_data_simulator.Rng.{
  DeterministicRng, pcg32_multiplier, permute, rng_next_u32, rng_next_u64, seed_rng,
}

-- Both words of a generator are 64 bits wide, and the increment is odd, as PCG wants it.
pub record IsSeeded (rng : DeterministicRng) : Type 0 where
  pub state_lt : rng.state < 2 ^ 64
  pub increment_lt : rng.increment < 2 ^ 64
  pub increment_odd : rng.increment % 2 ≡ 1

permute-lt : (s : ℕ) → permute s < 2 ^ 32
unfolding permute
permute-lt s = bit_or-lt 32 _ _ (grind arith) (omega arith)

rng_next_u32-IsSeeded : {rng : DeterministicRng} → IsSeeded rng → IsSeeded (rng_next_u32 rng).1
unfolding rng_next_u32
rng_next_u32-IsSeeded v = record {
  state_lt = omega arith;
  increment_lt = v.increment_lt;
  increment_odd = v.increment_odd;
}

pub rng_next_u32-lt : (rng : DeterministicRng) → (rng_next_u32 rng).0 < 2 ^ 32
unfolding rng_next_u32
rng_next_u32-lt rng = permute-lt rng.state

-- Any seed and sequence give a generator with 64-bit words and an odd increment.
pub seed_rng-IsSeeded : (seed sequence : ℕ) → IsSeeded (seed_rng seed sequence)
unfolding seed_rng
seed_rng-IsSeeded seed sequence = record {
  state_lt = omega arith;
  increment_lt = bit_or-lt 64 _ _ (omega arith) (omega arith);
  increment_odd = omega (arith, bit_or-add 1 (sequence % 2 ^ 63) 1 (omega arith), even);
}
  where
    even : bit_or ((sequence * 2) % 2 ^ 64) 1 ≡ bit_or ((sequence % 2 ^ 63) * 2) 1
    even = ap (λ x. bit_or x 1) (omega arith)

-- A 64-bit draw is the first 32-bit draw above the second, so it lies below 2^64, and the 53 bits
-- of `rng_uniform_01` below 2^53.
pub rng_next_u64_lem :
    (rng : DeterministicRng)
    → let (high, rng') = rng_next_u32 rng in
      let (low, rng'') = rng_next_u32 rng' in
      (rng_next_u64 rng ≡ (high * 2 ^ 32 + low, rng''))
      × ((rng_next_u64 rng).0 < 2 ^ 64)
      × ((rng_next_u64 rng).0 / 2 ^ 11 < 2 ^ 53)
unfolding rng_next_u64
rng_next_u64_lem rng =
    let high = permute rng.state in
    let next = (rng.state * pcg32_multiplier + rng.increment) % 2 ^ 64 in
    let low = permute next in
    let (h, l) : (high < 2 ^ 32) × (low < 2 ^ 32) = (permute-lt rng.state, permute-lt next) in
    let shift : (high * 2 ^ 32) % 2 ^ 64 ≡ high * 2 ^ 32 = omega arith in
    let e : bit_or ((high * 2 ^ 32) % 2 ^ 64) low ≡ high * 2 ^ 32 + low =
      rw shift (bit_or-add 32 high low l) in
    (
      λ i. (
        e i,
        record {
          state = (next * pcg32_multiplier + rng.increment) % 2 ^ 64;
          increment = rng.increment;
        },
      ),
      omega (arith, e),
      omega (arith, e),
    )

-- The inverse of the multiplier modulo 2^64.
abbrev inverse : ℕ
inverse = 13_877_824_140_714_322_085

inverse_lem : (pcg32_multiplier * inverse) % 2 ^ 64 ≡ 1
inverse_lem = refl

abbrev pub undo : DeterministicRng → ℕ
undo rng = ((rng.state + (2 ^ 64 - rng.increment)) * inverse) % 2 ^ 64

-- The state before a step can be computed from the state after it: no two states meet, and the
-- generator never runs into a cycle from outside.
pub undo-rng_next_u32 :
    (rng : DeterministicRng) → IsSeeded rng → undo (rng_next_u32 rng).1 ≡ rng.state
unfolding rng_next_u32
undo-rng_next_u32 rng v = omega (arith, v)

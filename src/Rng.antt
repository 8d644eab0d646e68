-- ===== src/Rng.antt =====
-- src/core/deterministic_rng.h and .cpp: a PCG32 generator. Words are numbers with their wrap-around
-- written out; the null generator, which the code answers by 0, has no counterpart.
pub mod Stream
use Prim.Native.Nat.{bit_and, bit_or, bit_xor}
use gnss_data_simulator.Prelude.{ℕ, ◌+◌, ◌-◌, ◌*◌, ◌/◌, ◌%◌, ◌^◌, not, if◌then◌else◌}
use gnss_data_simulator.Prelude.Int.{ℤ, pos}
use gnss_data_simulator.Double.{Double}

pub record DeterministicRng : Type 0 where
  pub state : ℕ
  pub increment : ℕ

abbrev pub pcg32_multiplier : ℕ
pcg32_multiplier = 6_364_136_223_846_793_005

-- The output function, on the old state.
unfoldable pub permute : ℕ → ℕ
permute old_state =
    let xorshifted = (bit_xor (old_state / 2 ^ 18) old_state / 2 ^ 27) % 2 ^ 32 in
    let rotation = (old_state / 2 ^ 59) % 2 ^ 32 in
    let back = bit_and ((2 ^ 32 - rotation) % 2 ^ 32) 31 in
    bit_or (xorshifted / 2 ^ rotation) ((xorshifted * 2 ^ back) % 2 ^ 32)

unfoldable pub rng_next_u32 : DeterministicRng → ℕ × DeterministicRng
unfolding permute
rng_next_u32 rng = (
  permute rng.state,
  record rng { state = (rng.state * pcg32_multiplier + rng.increment) % 2 ^ 64 },
)

unfoldable pub seed_rng : ℕ → ℕ → DeterministicRng
unfolding rng_next_u32
seed_rng seed sequence =
    let fresh : DeterministicRng = record {
      state = 0;
      increment = bit_or ((sequence * 2) % 2 ^ 64) 1;
    } in
    let (_, first) = rng_next_u32 fresh in
    let (_, second) = rng_next_u32 (record first { state = (first.state + seed) % 2 ^ 64 }) in
    second

unfoldable pub rng_next_u64 : DeterministicRng → ℕ × DeterministicRng
unfolding rng_next_u32
rng_next_u64 rng =
    let (high, rng') = rng_next_u32 rng in
    let (low, rng'') = rng_next_u32 rng' in (bit_or ((high * 2 ^ 32) % 2 ^ 64) low, rng'')

module _ {F : Type 0} ⦃d : Double F⦄ where
  open d use {decimal, add, sub, mul, div, lt}

  unfoldable pub rng_uniform_01 : DeterministicRng → F × DeterministicRng
  unfolding rng_next_u64
  rng_uniform_01 rng =
      let (bits, rng') = rng_next_u64 rng in
      (div (decimal (pos (bits / 2 ^ 11)) 0) (decimal (pos 9_007_199_254_740_992) 0), rng')

  -- No number is drawn from an empty range.
  unfoldable pub rng_uniform : DeterministicRng → F → F → F × DeterministicRng
  unfolding rng_uniform_01
  rng_uniform rng minimum maximum =
      let (u, rng') = rng_uniform_01 rng in
      if not (lt minimum maximum)
      then (minimum, rng)
      else (add minimum (mul (sub maximum minimum) u), rng')

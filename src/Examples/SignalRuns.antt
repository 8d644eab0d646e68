-- ===== src/Examples/SignalRuns.antt =====
-- The signal table and the generator: the theorems at concrete inputs, and runs.
use gnss_data_simulator.Prelude.{◌+◌, ◌*◌, ◌/◌, ◌^◌, ◌<◌, ◌≡◌, ◌≢◌, ◌↔◌, refl, some, none, All}
use gnss_data_simulator.Prelude.Int.{pos, negsuc, ◌≤ℤ◌}
use gnss_data_simulator.Double.Milli.{Milli, milli_double}
use gnss_data_simulator.Signals.{
  SignalId, SignalDefinition, CarrierFrequencyModel, signal_definitions, find_signal_definition,
  signal_carrier_frequency_hz,
}
use gnss_data_simulator.Signals.Lookup.{
  find_signal_definition_total, signal_definitions-IsFound, IsFound, carrier_frequency-none_iff,
}
use gnss_data_simulator.Rng.{rng_next_u32, rng_next_u64, seed_rng}
use gnss_data_simulator.Rng.Stream.{
  IsSeeded, seed_rng-IsSeeded, rng_next_u64_lem, undo, undo-rng_next_u32,
}

abbrev g1 : SignalDefinition Milli
g1 = (find_signal_definition_total SignalId.glonass_g1).0

find_signal_definition_total_example :
    (s : SignalDefinition Milli) × (find_signal_definition SignalId.galileo_e6 ≡ some s)
    × (s.signal_id ≡ SignalId.galileo_e6)
find_signal_definition_total_example = find_signal_definition_total SignalId.galileo_e6

signal_definitions-IsFound_example : All IsFound (signal_definitions {F = Milli})
signal_definitions-IsFound_example = signal_definitions-IsFound Milli

carrier_frequency-none_iff_example : (signal_carrier_frequency_hz g1 (pos 7) ≡ none) ↔ (
    (g1.carrier_model ≢ CarrierFrequencyModel.fixed) × ¬ ((negsuc 6 ≤ℤ pos 7) × (pos 7 ≤ℤ pos 6)))
carrier_frequency-none_iff_example = carrier_frequency-none_iff g1 (pos 7)

-- The first number of the reference implementation of PCG32 for the seed 42 and the sequence 54.
reference_draw : (rng_next_u32 (seed_rng 42 54)).0 ≡ 0xa15c02b7
unfolding rng_next_u32 seed_rng
reference_draw = refl

seed_rng-IsSeeded_example : IsSeeded (seed_rng 42 54)
seed_rng-IsSeeded_example = seed_rng-IsSeeded 42 54

rng_next_u64_lem_example :
    let (high, rng') = rng_next_u32 (seed_rng 42 54) in
    let (low, rng'') = rng_next_u32 rng' in
    (rng_next_u64 (seed_rng 42 54) ≡ (high * 2 ^ 32 + low, rng''))
    × ((rng_next_u64 (seed_rng 42 54)).0 < 2 ^ 64)
    × ((rng_next_u64 (seed_rng 42 54)).0 / 2 ^ 11 < 2 ^ 53)
rng_next_u64_lem_example = rng_next_u64_lem (seed_rng 42 54)

undo-rng_next_u32_example : undo (rng_next_u32 (seed_rng 42 54)).1 ≡ (seed_rng 42 54).state
undo-rng_next_u32_example = undo-rng_next_u32 (seed_rng 42 54) (seed_rng-IsSeeded 42 54)

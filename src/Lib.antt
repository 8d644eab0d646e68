-- ===== src/Lib.antt =====
-- GNSS data simulator: a model of the deterministic core of the program.
--
-- The simulator runs a receiver over a grid of epochs. The configuration chooses a scenario, which
-- says at each epoch whether the receiver has power and whether the signals are there. From the time
-- at which a signal is acquired, the scheduler of navigation messages derives when its broadcast data
-- are complete, and the trackers of the signals decide which measurements are valid. Random draws come
-- from one generator per use.
--
-- Files and code:
--
--   Time         include/gnss_sim/sim_time.h, include/gnss_sim/sim_types.h and src/core/sim_time.cpp:
--                GPS week and nanoseconds of week, sums, differences, order and the sampling grid.
--   Rng          src/core/deterministic_rng.cpp: the PCG32 generator over words of 32 and 64 bits.
--   Signals      src/gnss/signal_definitions.cpp: the table of signals, its look-ups and checks.
--   NavSchedule  src/gnss/nav_message_scheduler.cpp: slots, the plans of all message families, what is
--                received by a time, and the collector of the fragments of one issue of data.
--   Carrier      src/model/carrier_tracking.cpp: the state machine of a carrier tracking loop; and
--                src/model/carrier_tracking_runtime.cpp in Carrier.Runtime and Carrier.Apply: the
--                tracker of a signal over time, its cycle slips, and its result in an observation.
--   CodeTracking src/model/code_tracking_dll.cpp: the choice of a root of the discriminator.
--   Config       include/gnss_sim/sim_config.h and the checks of src/core/sim_config.cpp.
--   Scenario     src/scenario/scenario_engine.cpp: the cycle that a time lies in, and the transitions.
--   Tracking     src/model/signal_tracking.cpp: the delays of an acquisition, its schedule and the
--                update of a tracker; and src/model/urban_signal_tracking.cpp in Tracking.Urban: the
--                update that depends on the received power and on the roots of the discriminator.
--   NavState     src/gnss/navigation_state.cpp: the clock and the stores of broadcast data; the store
--                of RTKLIB is the interface NavLibrary. NavState.Cold has the delivery of a complete
--                plan, which src/gnss/nav_message_scheduler.cpp declares.
--   Solution     src/model/solution_engine.cpp: the selection of the observations for the solver.
--   Bestpos      src/model/bestpos_rtk_model.cpp: when a position counts as fixed.
--   Double       the interface of floating-point numbers, with an instance for the examples.
--   Prelude      shared names, signed integers, bits, and chains of steps that may fail.
--   Examples     the theorems at concrete inputs, and runs of the model.
--
-- How the code is modelled: a function that fills an output and returns a `bool` returns an `Option`,
-- or a `Result` where it writes a message; each message is a constructor of an error type. Functions
-- take and give back the state that they change, also with an error where the code has changed the
-- state before it fails. Null pointers have no counterpart, and memory can always be had. Signed
-- integers are unbounded, and the places where the code guards against overflow keep their guards;
-- words of the generator, the mixed keys and the segment numbers of the carrier trackers keep their
-- wrap-around. The time of week is below one week, and weeks are at most the greatest `int`; the
-- theorem on fixed positions has weeks up to 15249, for which the differences of two times fit 64 bits.
-- A `double` belongs to the platform: it is a type with operations, and the laws of its order are named
-- where a theorem relies on them; rounding is not modelled. The estimate of the
-- signal strength at an acquisition is a parameter (Cn0Estimate), for any model of it; so is code from
-- elsewhere: the stores of RTKLIB (NavLibrary) and its codes of observations. One loop runs on fuel, the steps of an interval in Carrier.Runtime: its number of steps
-- depends on the rounding of doubles, so that it answers an error of its own when no fuel is left, and
-- its theorem holds for any fuel. All other loops of the code are recursions over lists.
--
-- Not modelled: the reading of JSON, the RTKLIB adapters and the satellite positions, which call
-- libraries from elsewhere; the numerical models of errors, atmosphere and urban propagation, and the
-- correlation of the code tracking loop with the search for its roots; the solution of a position, which
-- RTKLIB computes; the writers of logs; and the loop over the epochs, which joins the parts.
pub mod Prelude
pub mod Time
pub mod Double
pub mod Signals
pub mod Rng
pub mod NavSchedule
pub mod Carrier
pub mod CodeTracking
pub mod Config
pub mod Scenario
pub mod Tracking
pub mod NavState
pub mod Solution
pub mod Bestpos
mod Examples

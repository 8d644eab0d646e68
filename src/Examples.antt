-- ===== src/Examples.antt =====
-- The theorems at concrete inputs, and runs of the model.
mod TimeRuns
mod ScheduleRuns
mod SignalRuns
mod CarrierRuns
mod ScenarioRuns
mod TrackingRuns
mod UrbanRuns
mod SolutionRuns
mod NavStateRuns
mod RuntimeRuns

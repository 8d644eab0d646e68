-- ===== src/Tracking/Urban/Change.antt =====
-- Every update of src/model/urban_signal_tracking.cpp keeps, gains or loses the lock for a cause.
use gnss_data_simulator.Double.{Double}

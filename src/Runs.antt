-- ===== src/Runs.antt =====
-- hub/runs.py: factory runs.
pub mod Values
pub mod Tally
pub mod Row
pub mod Results
pub mod Engine
pub mod Deliver
pub mod Settle
pub mod Budget
pub mod Termination
pub mod Unmet
pub mod Commands
pub mod Signals
pub mod Intake
pub mod Sessions

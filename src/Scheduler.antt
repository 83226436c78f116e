-- ===== src/Scheduler.antt =====
-- core/scheduler.py: the routines that are armed, their failures, and what a pass fires.
pub mod Files
pub mod Failures
pub mod Handled
pub mod Policy
pub mod Tick
pub mod Choice

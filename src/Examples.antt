-- ===== src/Examples.antt =====
-- Runs of the definitions at concrete inputs, and the theorems at them.
mod Turning
mod Stepping
mod Sessions
mod Answers
mod Shell
mod Unasked
mod Deliveries
mod Inputs
mod Passes
mod Notices
mod Data
mod Gates
mod Held
mod Approved
mod Moves
mod Routine
mod Signal
mod Intakes

-- ===== src/Turns.antt =====
-- core/turns.py: the turns of an instance, and what holds it.
pub mod Thread
pub mod Moves
pub mod Instance
mod Parked
pub mod Local
mod Changes
mod Starts
mod Kept
pub mod Alone
mod Idle
mod Known
mod Taken
pub mod Exclusive

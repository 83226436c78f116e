-- ===== src/Replies.antt =====
-- hub/replies.py and the statements of hub/registry.py that it runs: the user's replies to what the
-- hub told them.
pub mod Store
pub mod Apply
pub mod Tasks
mod Rows
mod Begins
pub mod View
mod Once
mod Calls
mod Arrivals
pub mod Asked
pub mod Ends

-- ===== src/Outbox.antt =====
-- hub/outbox.py and the notification statements of hub/registry.py: what the hub tells its user.
pub mod Store
pub mod Raise
pub mod Deliver
pub mod Backoff
pub mod Ends
mod Once
pub mod Again
pub mod Cap

-- ===== src/Steps.antt =====
-- core/steps.py and core/coding_clients.py: a factory step in its instance.
pub mod Coding
pub mod Results
pub mod Commands
pub mod Kinds
pub mod Run
pub mod Refused
mod Reported
pub mod Valid
pub mod Tokens
pub mod Lasting
pub mod Listing
pub mod Clean

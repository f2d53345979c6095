-- ===== src/Engine.antt =====
-- crates/aqua-messenger/src/engine.rs: every policy decision behind the messenger's tools.
pub mod Types
pub mod Paths
pub mod Resolve
pub mod Inbound
pub mod Send
pub mod Requests
pub mod Reads
pub mod Fetch
pub mod Wait
pub mod Handle
mod Permitted
mod Sends
mod Fetches
mod Handled
mod Slots
mod Heard
mod Shown
mod Waits
mod Replies
mod Tests

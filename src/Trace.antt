-- ===== src/Trace.antt =====
-- The elementary steps of the daemon, and what holds of every run of its handlers.
pub mod Step
pub mod Routing
pub mod Handlers
pub mod Messages
pub mod Events
pub mod Expiry
pub mod Reboot
pub mod Table
pub mod Started
pub mod Kept
pub mod Flood
pub mod Clock
pub mod Limits
pub mod Lost
pub mod Tests

-- ===== src/Server.antt =====
-- The local server that the web pages talk to (internal/server).
pub mod Auth
pub mod Types
pub mod State
pub mod Lifecycle
pub mod Events
pub mod Handlers
pub mod Observer
pub mod Runs
pub mod Destination
pub mod Requests
pub mod Reports
pub mod Steps
pub mod Asked
pub mod Kept
pub mod Orderly
pub mod Exclusive
pub mod Cancelled
pub mod Mirror
pub mod Live
pub mod Overtaken

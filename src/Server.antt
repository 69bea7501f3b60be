-- ===== src/Server.antt =====
-- internal/server/server.go: the exit of the tunnel.
pub mod Settings
pub mod Loading
pub mod Startup
pub mod Policy
pub mod Streams
pub mod Reverse
pub mod Goroutines
pub mod Rules
pub mod Slots
pub mod Connections
pub mod Accepting
mod Runs
pub mod Verdicts

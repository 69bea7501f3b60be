-- ===== src/Agent.antt =====
-- internal/agent/agent.go: the entry of the tunnel, beside the clients.
pub mod Settings
pub mod Loading
pub mod Reconnect
pub mod Startup
pub mod Waiting
pub mod Streams
pub mod Goroutines
pub mod Rules
pub mod Slots
pub mod Verdicts
mod Runs

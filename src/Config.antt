-- ===== src/Config.antt =====
-- internal/config/config.go: validation and normalisation of what an operator configures.
pub mod Strings
pub mod Address
pub mod Validate
pub mod Parse
pub mod Normalize
mod Runs
pub mod Limits
pub mod Loading
pub mod Services

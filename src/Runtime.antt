-- ===== src/Runtime.antt =====
-- The goroutines of the program: what each does to the network and to what it shares with others,
-- and how they run together.
pub mod Program
pub mod Monitor
pub mod Ledger
pub mod System
pub mod Sharing
pub mod Conduct
pub mod Dialing
pub mod Environment

-- ===== src/Auth.antt =====
-- internal/auth: the identities that the shared secrets give.
pub mod Keys
pub mod Serials
pub mod Identities
pub mod Owners
pub mod Names
pub mod Mutual
pub mod Encoding
pub mod Secret
mod Runs

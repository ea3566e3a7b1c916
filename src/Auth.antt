-- ===== src/Auth.antt =====
-- The authorization rules, the chain of authenticators, the users and the replay cache of internal/auth.
pub mod Access
pub mod UserStore
pub mod Chain
pub mod NonceCache
pub mod UsernameToken
mod Tests

-- ===== src/Auth.antt =====
-- The auth service, services/auth/internal: the permission masks, the login with its rate limit
-- and its lock-out, and the sessions in Redis.
pub mod Types
pub mod Permissions
pub mod Repo
pub mod Service
pub mod Session
pub mod Refusal
pub mod Lockout
pub mod Effect
pub mod Ended
pub mod TotpLimit
pub mod Opened
mod Tests

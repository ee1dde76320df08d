-- ===== src/Withdrawal.antt =====
-- The withdrawal service: services/withdrawal/internal/service/withdrawal.go over the repository of
-- services/withdrawal/internal/repository/withdrawal_repo.go and the wallet service.
pub mod Types
pub mod Repo
pub mod Service
pub mod Runs
pub mod Outcome
pub mod Rows
pub mod Lifecycle
pub mod Limit
pub mod Completion
pub mod Client
pub mod Logged
pub mod Settled
mod Tests

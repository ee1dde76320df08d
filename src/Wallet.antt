-- ===== src/Wallet.antt =====
-- The wallet service: services/wallet/internal/service/wallet.go over
-- services/wallet/internal/repository/postgres_wallet_repo.go, with the lock of
-- pkg/database/redis.go and the records of pkg/models/wallet.go.
pub mod Types
pub mod Lock
pub mod Repo
pub mod Service
pub mod Handler
pub mod Responses
pub mod Outcome
pub mod Rows
pub mod Posting
pub mod Effect
pub mod Moves
pub mod Reconcile
pub mod Once
pub mod Mutex
pub mod Race
pub mod Progress
pub mod Sample
mod Tests

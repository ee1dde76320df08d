-- ===== src/Commission.antt =====
-- The commission service: services/commission/internal/service/calculator.go and aggregator.go over
-- services/commission/internal/repository/commission_repo.go.
pub mod Types
pub mod Calculator
pub mod Split
pub mod Recorder
pub mod Credits
pub mod Recorded
pub mod Aggregator
pub mod Keys
pub mod Earned
pub mod Totals
mod Tests

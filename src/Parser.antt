-- ===== src/Parser.antt =====
-- The parser service, services/parser/internal: bank messages that are checked, stored and matched to
-- pending orders.
pub mod Types
pub mod Registry
pub mod Spoof
pub mod Anomaly
pub mod Outcome
pub mod Service
pub mod Steps
pub mod Verdict
pub mod Keys
pub mod Replay
mod Tests

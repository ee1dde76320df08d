-- ===== src/Order.antt =====
-- The order service, services/order/internal: deposit orders from their creation over the match with
-- a bank message to completion or expiry, and the payload of a PromptPay QR code.
pub mod Qr
pub mod Fields
pub mod Types
pub mod Repo
pub mod Redis
pub mod Calls
pub mod Deposit
pub mod Matcher
pub mod Timeout
pub mod Run
pub mod Settling
pub mod Effect
pub mod Opening
pub mod Load
pub mod Uniqueness
pub mod Matching
pub mod Race
mod Sample
mod Tests

-- ===== src/Onboarding.antt =====
-- bridge/src/coinbase_amoled_bridge/onboarding.py: the one-time setup session and the claim of a
-- pending transaction.
pub mod Session
pub mod Pending
pub mod Coordinator

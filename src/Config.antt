-- ===== src/Config.antt =====
-- The configuration of the bridge, config.py.
pub mod Secrets
pub mod Validate
pub mod Places
pub mod Bounds
pub mod Stable
pub mod Hidden
pub mod Accepted
pub mod Names
pub mod Store
pub mod Kept

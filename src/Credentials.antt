-- ===== src/Credentials.antt =====
-- The local credentials of the bridge, auth.py.
pub mod Slots
pub mod Selector
pub mod Swap
pub mod Values
pub mod Stable
pub mod Bundle

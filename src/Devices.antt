-- ===== src/Devices.antt =====
-- The devices that may read the feed, auth.py.
pub mod Manager
pub mod Changes
pub mod Access

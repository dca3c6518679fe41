-- ===== src/Server.antt =====
-- The HTTP server of the bridge, server.py.
pub mod Read
pub mod Gates

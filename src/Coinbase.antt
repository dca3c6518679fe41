-- ===== src/Coinbase.antt =====
-- The Coinbase client of the bridge, coinbase.py and `JWTSigner.sign` of auth.py.
pub mod Path
pub mod Allowlist
pub mod Signable
pub mod Client
pub mod Pages
pub mod Requests

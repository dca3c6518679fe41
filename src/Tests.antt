-- ===== src/Tests.antt =====
-- The theorems at concrete inputs.
mod Limits
mod Sessions
mod Installs
mod Markets
mod Clients
mod Vaults
mod Displays
mod Claims
mod Reads
mod Configs
mod Transactions
mod Partitions
mod Feeds

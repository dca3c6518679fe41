-- ===== src/Lib.antt =====
-- The bridge and the installer of the Coinbase AMOLED terminal, which are Python programs.
--
-- The bridge (bridge/src/coinbase_amoled_bridge) reads a Coinbase account with a view-only key and
-- serves a small feed to paired displays. The installer (installer) checks a signed firmware release
-- and flashes it with a setup partition. Files and what they model:
--   RateLimit: ratelimit.py, `TokenBucketLimiter`; Entries, Level, Bounds, Grants and Waiting
--     hold its lemmas.
--   Symbols: symbols.py, `normalize_symbol` and `normalize_symbols`; Normal holds the lemmas.
--   Coinbase: coinbase.py and `JWTSigner.sign`. Path has the allowlist of paths, Client the requests;
--     Allowlist, Signable, Requests and Pages hold the lemmas.
--   Credentials: auth.py. Slots has the credential slots and their selector, Values the checks of the
--     credentials, Bundle their file format; Selector, Swap and Stable hold the lemmas.
--   Devices: `DeviceManager` and the token test of `DeviceRegistry` in auth.py; Changes and Access hold
--     the lemmas.
--   Server/Read: server.py, `_handle_read`, which asks both limiters and the device table;
--     Server/Gates holds the lemmas.
--   Config: config.py. Secrets and Validate have `validate_config`, Store has `ConfigStore` and Names the
--     names of its backups; Places, Bounds, Stable, Hidden, Accepted and Kept hold the lemmas.
--   Onboarding/Session: onboarding.py, `SetupSession`; Session/Trace runs its methods in any order.
--   Onboarding/Pending: `PendingClaimApplication`; Pending/Requests runs claims and aborts one
--     after the other, Pending/Interleaved in their parts.
--   Onboarding/Coordinator: `OnboardingCoordinator`. Act has the state and the steps that may raise,
--     Stage, Finish and Undo the transaction, Calls its calls in any order; Runs, Gated, Verified,
--     Recovery and Staging hold the lemmas.
--   Feed: feed.py, `FeedService`: refreshes, ages and staleness; Fresh and History hold the lemmas.
--     Feed/Candles is `_normalize_candles`, with its lemmas in Ordered.
--   Installer/Setup: `build_setup_partition` and `parse_setup_partition`; Framing holds the lemmas.
--   Installer/Layout: installer/firmware_installer.py, `_validate_flash_layout`.
--   Installer/Manifest, Installer/Variant: `_parse_artifact` and `_parse_variant`.
--   Installer/Release: `_parse_release_evidence`, `require_release_readiness`, `select_board`.
--   Prelude: tests, lists, dictionaries, text, integers, JSON values and results of code that raises.
--   Tests: the theorems at concrete inputs.
--
-- A method that changes its object takes the state and returns the next one. Code that raises
-- returns a `Result`, whose error names the exception or its message. Clocks, random tokens and
-- answers of the user are arguments. Locks are not modelled: where a method holds its lock from its
-- start to its end, concurrent calls are some sequence of calls. `PendingClaimApplication.claim`
-- releases its lock, so that it is two parts, which other requests may come between; the
-- coordinator's calls exclude each other by its lock. Text is ASCII, with Python's rules for it.
-- The limiter's floats are exact here: time is in ticks and tokens are in units that make the rate
-- whole. Loops are structural recursion; the paging of the accounts stops after four pages, as in
-- the code. A write to a file either happens whole or raises and leaves the file as it was, but for
-- a backup of the configuration, which can be cut short.
--
-- Not modelled: network, files, subprocesses, cryptography and serial ports, the command line, the
-- firmware, which is C++, JSON text, and the parts of the bridge that are not named above.
pub mod Prelude
pub mod Coinbase
pub mod Config
pub mod Credentials
pub mod Devices
pub mod Feed
pub mod Installer
pub mod Onboarding
pub mod RateLimit
pub mod Server
pub mod Symbols
pub mod Tests

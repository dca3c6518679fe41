-- ===== src/Onboarding/Coordinator.antt =====
-- `OnboardingCoordinator` of onboarding.py: the setup transaction, which a journal on the disk makes
-- safe against a crash.
pub mod Act
pub mod Undo
pub mod Stage
pub mod Finish
pub mod Runs
pub mod Gated
pub mod Verified
pub mod Recovery
pub mod Staging
pub mod Calls

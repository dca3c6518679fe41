-- ===== src/Installer.antt =====
-- installer/firmware_installer.py: the checks that stand between a release manifest and the flash.
pub mod Layout
pub mod Manifest
pub mod Variant
pub mod Release
pub mod Setup

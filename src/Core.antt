-- ===== src/Core.antt =====
-- The crate pinpam-core.
pub mod Consts
pub mod PinData
pub mod Error
pub mod Policy
pub mod Pin
pub mod Util
pub mod Index
pub mod Tpm
pub mod Account
pub mod Manager
pub mod MasterKey
pub mod PamLog

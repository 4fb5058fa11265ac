-- ===== src/Tests.antt =====
-- A TPM to run the methods on, and each theorem at a concrete input.
pub mod Sim
pub mod Users
pub mod Login
pub mod Commands
pub mod Encoding
pub mod Policies
pub mod History
pub mod Codings
pub mod Vaults
pub mod Keys
pub mod Stamps
pub mod Entered
pub mod Resets
pub mod Programs
pub mod Logs

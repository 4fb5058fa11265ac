-- ===== src/Pam.antt =====
-- pinpam-pam/src/lib.rs: the PAM module.
pub mod Env
pub mod Io
pub mod Status
pub mod Args
pub mod Authenticate
pub mod Entries

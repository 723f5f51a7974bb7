-- ===== src/Auth.antt =====
-- Authentication: failed logins and login sessions.
pub mod LoginAttempt
pub mod Session
pub mod Demo
pub mod Mfa

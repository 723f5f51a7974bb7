-- ===== src/Tests.antt =====
-- Runs of the handlers on concrete tables, and the theorems at concrete inputs.
mod Dependencies
mod Logins
mod Sessions
mod Mfa
mod Budgets
mod Mails
mod Tasks
mod Progress
mod Approvals

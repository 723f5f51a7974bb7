-- ===== src/Requirement.antt =====
-- Requirement documents.
pub mod Model
pub mod Approval

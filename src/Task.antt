-- ===== src/Task.antt =====
-- Tasks of a project.
pub mod Model
pub mod Dependency
pub mod Tables
pub mod Input
pub mod Code
pub mod Parent
pub mod Log
pub mod Check
pub mod Rows
pub mod Item

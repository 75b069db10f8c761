-- ===== src/Examples.antt =====
-- Runs on concrete inputs: a registry with the Course provider and a small store.
pub mod Data
pub mod Decisions
pub mod Storage
pub mod Services
pub mod Limits
pub mod Trees
pub mod Courses
pub mod Editors
pub mod Names

-- ===== src/KWindowInfo/Tests.antt =====
-- A system with one process, an object with one handle, and the handles of a short program.
pub mod System
mod Handles
mod Names

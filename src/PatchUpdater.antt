-- ===== src/PatchUpdater.antt =====
-- The port group _resources/port1.0/group/patch-updater-1.0.tcl: the patch phase of a port, which applies
-- each patch, commits the result and saves the commit as the updated patch.
pub mod Patch
pub mod Steps
pub mod Marks
pub mod Whole
pub mod Again
pub mod Resume
pub mod Attempts
pub mod Finish
pub mod Missing
pub mod SameName
pub mod Ignores
pub mod Ignored
pub mod PrePatch
mod Tests

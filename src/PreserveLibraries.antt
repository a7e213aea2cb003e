-- ===== src/PreserveLibraries.antt =====
-- The port group _resources/port1.0/group/preserve_runtime_libraries-1.0.tcl: a port that is upgraded
-- carries the runtime libraries of its active version along in `previous/<subport>`.
pub mod Tree
pub mod Preserve
pub mod Extends
pub mod Step
pub mod Effect
pub mod Loops
pub mod Progress
pub mod Patterns
pub mod Rounds
pub mod Copies
pub mod Ends
pub mod Stability
pub mod Safety
pub mod Sources
pub mod Links
pub mod Notes
pub mod BaseName
pub mod BaseNames
pub mod Callback
pub mod CallbackOnce
pub mod Rpath
pub mod Update
pub mod UpdateMach
pub mod MachNames
mod Tests

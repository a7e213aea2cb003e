-- ===== src/ClangSelection.antt =====
-- The port group _resources/port1.0/group/macports_clang_selection-1.0.tcl: versions of clang for the
-- white list and the black list of compilers.
mod Tests
pub mod Lists
pub mod Loop
pub mod Requests
pub mod Whitelist
pub mod Blacklisted

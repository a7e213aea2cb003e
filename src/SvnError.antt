-- ===== src/SvnError.antt =====
-- The error system of the Subversion headers that port:kdesdk-kioslaves carries
-- (kde/kdesdk-kioslaves/files/svn-1.8.13/subversion-1): the code of svn_error_codes.h and svn_error.h.
pub mod Defs
pub mod Codes
pub mod Names
pub mod Expand
pub mod Agree
pub mod Values
pub mod Unique
pub mod Category
pub mod Locks
pub mod Flow
pub mod Statements
pub mod Assertions
mod Tests

-- ===== src/KWindowInfo.antt =====
-- KWindowInfo of the Mac build of KWindowSystem
-- (kf5/KF5-Frameworks/files/kwindowsystem/kwindowinfo.cpp and kwindowinfo_mac_p.h): an explicitly
-- shared handle on a reference-counted private object.
pub mod Carbon
pub mod Store
pub mod Object
pub mod Handle
pub mod Query
pub mod Program
pub mod RefCount
pub mod Counting
pub mod Owners
pub mod Visits
pub mod Invariant
pub mod History
pub mod Lifetime
pub mod Element
pub mod Loading
pub mod Naming
pub mod Faults
pub mod Bundle
mod Tests

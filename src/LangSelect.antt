-- ===== src/LangSelect.antt =====
-- The port group _resources/port1.0/group/locale_select-1.0.tcl: the variant `langselect`, which removes
-- translations from the destroot of a port.
pub mod Tree
pub mod Loops
pub mod Prune
pub mod Paths
pub mod Rules
pub mod Spec
pub mod Left
pub mod Outside
mod Tests

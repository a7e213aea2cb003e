-- ===== src/KWindowInfo/Carbon.antt =====
-- What kwindowinfo.cpp calls and does not implement: Carbon's Process Manager and File Manager,
-- the accessibility API, and Qt's decoding of texts. A call that writes through a pointer is a
-- function of what the memory held before. Texts are lists of code units; process serial numbers
-- and file references are opaque numbers. Memory that is not initialised and a text without an end
-- are values like any other, and no fault.
use macstrop.Shared.{ℕ, Bool, Option, List, ℤ}

pub record Carbon : Type 0 where
  -- GetProcessPID: the serial number and the old pid give the new pid.
  pub get_process_pid : ℕ → ℤ → ℤ
  -- GetProcessInformation: the 512-byte name buffer and the FSRef, after the call from before it.
  pub get_process_information : ℕ → List ℕ × ℕ → List ℕ × ℕ
  -- AXUIElementCopyAttributeValue for kAXTitleAttribute; `none` is any result but noErr.
  pub copy_title : ℕ → Option ℕ
  -- AXUIElementCopyAttributeValue for kAXMinimizedAttribute, its CFBoolean read by CFBooleanGetValue.
  pub copy_minimized : ℕ → Option Bool
  -- CFStringGetCString into the buffer, in UTF-8.
  pub get_c_string : ℕ → List ℕ → List ℕ
  -- FSGetCatalogInfo: the name and the parent of an FSRef, after the call from before it.
  pub fs_get_catalog_info : ℕ → List ℕ × ℕ → List ℕ × ℕ
  -- QString::fromLatin1 (with its size argument) and QString::fromUtf8.
  pub from_latin1 : List ℕ → ℤ → List ℕ
  pub from_utf8 : List ℕ → List ℕ

-- What the uninitialised locals of `updateData` hold.
pub record Garbage : Type 0 where
  pub process_name : List ℕ
  pub fs_ref : ℕ
  pub hfs_name : List ℕ
  pub parent_ref : ℕ

-- ===== src/KWindowInfo/Object.antt =====
-- The members of `KWindowInfo::Private`: constructor, destructor, setters, and `updateData`, with
-- Q_OS_MAC32 undefined.
use macstrop.Shared.{
  ℕ, ◌-◌, Bool, true, false, ◌&&◌, Option, none, some, List, [], ◌∷◌, ℤ, pos, negsuc, ltb, ◌==◌,
  if◌then◌else◌,
}
use macstrop.KWindowInfo.Carbon.{Carbon, Garbage}
use macstrop.KWindowInfo.Store.{
  Ptr, null, Private, retain, release, copied, Cmd, pure, fault, ◌>>=◌, ◌>>◌, load, store, call,
}

-- `Private()`. The serial number and `iconSpec` are not initialised: they hold what the memory held.
unfoldable pub private_init : (psn icon_spec : ℕ) → Private
private_init psn icon_spec = record {
  ref = pos 0;
  win = 0;
  is_local = false;
  name = [];
  icon_spec = icon_spec;
  loaded_data = false;
  ax_win = null;
  children = [];
  parent = null;
  psn = psn;
  pid = negsuc 0;
}

-- `setAxElement`. CFRetain of NULL crashes. The element set before is not released.
unfoldable pub set_ax_element : Ptr → Ptr → Cmd (Unit {0})
set_ax_element d ax_win = do
  o ← load d
  store d (record o { ax_win = ax_win })
  if ax_win == null then fault else call (retain ax_win)

unfoldable pub set_process_serial_number : Carbon → Ptr → ℕ → Cmd (Unit {0})
set_process_serial_number c d psn = do
  o ← load d
  store d (record o { psn = psn; pid = c.get_process_pid psn o.pid })

-- `~Private()`.
unfoldable pub private_destroy : Private → Cmd (Unit {0})
private_destroy o = if o.ax_win == null then pure tt else call (release o.ax_win)

-- A byte read through a plain `char`, which is signed.
unfoldable pub signed_char : ℕ → ℤ
signed_char b = if ltb b 128 then pos b else negsuc (255 - b)

-- The length byte of a Pascal string, and the characters behind it.
unfoldable pub pascal_length : List ℕ → ℤ
unfolding signed_char
pascal_length [] = pos 0
pascal_length (b ∷ bs) = signed_char b

unfoldable pub pascal_text : List ℕ → List ℕ
pascal_text [] = []
pascal_text (b ∷ bs) = bs

infix 50 ◌text_eq◌
unfoldable pub ◌text_eq◌ : List ℕ → List ℕ → Bool
[] text_eq [] = true
(x ∷ xs) text_eq (y ∷ ys) = (x == y) && (xs text_eq ys)
_ text_eq _ = false

abbrev pub mac_os : List ℕ
mac_os = b'M' ∷ b'a' ∷ b'c' ∷ b'O' ∷ b'S' ∷ []

abbrev pub contents : List ℕ
contents = b'C' ∷ b'o' ∷ b'n' ∷ b't' ∷ b'e' ∷ b'n' ∷ b't' ∷ b's' ∷ []

-- The bundle of an executable `foo.app/Contents/MacOS/foo`, or else the executable.
unfoldable pub bundle_icon : Carbon → Garbage → ℕ → ℕ
unfolding ◌text_eq◌
bundle_icon c g ref =
    let (name, parent_ref) = c.fs_get_catalog_info ref (g.hfs_name, g.parent_ref) in
    let (name', parent_ref') = c.fs_get_catalog_info parent_ref (name, parent_ref) in
    if name' text_eq mac_os
    then (let (name'', parent_ref'') = c.fs_get_catalog_info parent_ref' (name', parent_ref') in
        if name'' text_eq contents then parent_ref'' else ref)
    else ref

-- The title of the window, if it has one; the copied CFString is never released.
unfoldable pub window_title : Carbon → Ptr → List ℕ → Cmd (Option (List ℕ))
window_title c ax_win buffer = if ax_win == null then pure none else elim (c.copy_title ax_win) [
  | none ↦ pure none
  | some title ↦ (do call (copied title); pure (some (c.from_utf8 (c.get_c_string title buffer))))
]

abbrev pub title_or : List ℕ → Option (List ℕ) → List ℕ
title_or name none = name
title_or name (some title) = title

-- `updateData`.
unfoldable pub update_data : Carbon → Garbage → Ptr → Cmd (Unit {0})
unfolding pascal_length pascal_text window_title bundle_icon
update_data c g d = do
  o ← load d
  let (buffer, ref) = c.get_process_information o.psn (g.process_name, g.fs_ref)
  let name = c.from_latin1 (pascal_text buffer) (pascal_length buffer)
  title ← window_title c o.ax_win buffer
  store d
      (record o { name = title_or name title; icon_spec = bundle_icon c g ref; loaded_data = true })

-- ===== src/KWindowInfo/Query.antt =====
-- The const members of `KWindowInfo`. Those that follow `d` fault on a handle made by `KWindowInfo()`.
-- `extendedStrut`, `geometry` and `frameGeometry` return the default value of a library type, and are
-- left out.
use macstrop.Shared.{
  ℕ, Bool, true, false, not, none, some, List, [], ◌∷◌, ◌++◌, ℤ, ◌==◌, if◌then◌else◌, is_negative,
}
use macstrop.KWindowInfo.Carbon.{Carbon, Garbage}
use macstrop.KWindowInfo.Store.{Ptr, null, Cmd, pure, ◌>>=◌, ◌>>◌, load}
use macstrop.KWindowInfo.Object.{update_data}

unfoldable pub valid : Bool → Ptr → Cmd Bool
valid withdrawn_is_valid d = do o ← load d; pure (not (is_negative o.pid))

unfoldable pub win : Ptr → Cmd ℕ
win d = do o ← load d; pure o.win

unfoldable pub state : Ptr → Cmd ℕ
state d = pure 0

unfoldable pub has_state : Ptr → ℕ → Cmd Bool
has_state d s = pure false

-- The attribute that the accessibility API reports, or false.
unfoldable pub minimized : Carbon → Ptr → Bool
minimized c ax_win =
    if ax_win == null
    then false
    else elim (c.copy_minimized ax_win) [ none ↦ false | some value ↦ value ]

unfoldable pub is_minimized : Carbon → Ptr → Cmd Bool
unfolding minimized
is_minimized c d = do o ← load d; pure (minimized c o.ax_win)

unfoldable pub mapping_state : Ptr → Cmd ℕ
mapping_state d = pure 0

unfoldable pub window_type : Ptr → ℤ → Cmd ℕ
window_type d supported_types = pure 0

-- `if (!d->loadedData) d->updateData();`
unfoldable pub ensure_loaded : Carbon → Garbage → Ptr → Cmd (Unit {0})
ensure_loaded c g d = do o ← load d; if o.loaded_data then pure tt else update_data c g d

-- `return d->name;`
abbrev pub read_name : Ptr → Cmd (List ℕ)
read_name d = do o ← load d; pure o.name

unfoldable pub name : Carbon → Garbage → Ptr → Cmd (List ℕ)
unfolding ensure_loaded
name c g d = do ensure_loaded c g d; read_name d

unfoldable pub visible_name : Carbon → Garbage → Ptr → Cmd (List ℕ)
visible_name c g d = name c g d

-- `s.prepend('('); s.append(')');` if the window is minimized.
abbrev pub with_state : Bool → List ℕ → List ℕ
with_state minimized s = if minimized then b'(' ∷ (s ++ b')' ∷ []) else s

unfoldable pub visible_name_with_state : Carbon → Garbage → Ptr → Cmd (List ℕ)
unfolding visible_name
visible_name_with_state c g d = do
  s ← visible_name c g d
  m ← is_minimized c d
  pure (with_state m s)

unfoldable pub visible_icon_name : Carbon → Garbage → Ptr → Cmd (List ℕ)
unfolding visible_name
visible_icon_name c g d = visible_name c g d

unfoldable pub visible_icon_name_with_state : Carbon → Garbage → Ptr → Cmd (List ℕ)
unfolding visible_icon_name
visible_icon_name_with_state c g d = do
  s ← visible_icon_name c g d
  m ← is_minimized c d
  pure (with_state m s)

unfoldable pub icon_name : Carbon → Garbage → Ptr → Cmd (List ℕ)
icon_name c g d = name c g d

unfoldable pub is_on_desktop : Ptr → ℤ → Cmd Bool
is_on_desktop d desktop = pure true

-- `current_desktop` is what KWindowSystem::currentDesktop returns.
unfoldable pub is_on_current_desktop : ℤ → Ptr → Cmd Bool
unfolding is_on_desktop
is_on_current_desktop current_desktop d = is_on_desktop d current_desktop

unfoldable pub on_all_desktops : Ptr → Cmd Bool
on_all_desktops d = pure false

unfoldable pub desktop : Ptr → Cmd ℕ
desktop d = pure 0

unfoldable pub action_supported : Ptr → ℕ → Cmd Bool
action_supported d action = pure true

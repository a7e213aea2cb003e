-- ===== src/KWindowInfo/Tests/System.antt =====
-- A system with one process in a bundle, and a world with one object.
use macstrop.Shared.{
  ℕ, ◌+◌, ◌≢◌, refl, Bool, true, false, none, some, List, [], ◌∷◌, arith, pos, ◌==◌, if◌then◌else◌,
}
use macstrop.KWindowInfo.Carbon.{Carbon, Garbage}
use macstrop.KWindowInfo.Store.{Ptr, null, Private, World, update}
use macstrop.KWindowInfo.Object.{mac_os, contents}
use macstrop.KWindowInfo.Program.{Program}
use macstrop.KWindowInfo.Counting.{Counted}
use macstrop.KWindowInfo.Owners.{IsCounted}

-- The files: 1 is the executable, in the folder 2, in the folder 3, in the bundle 4.
abbrev pub leaf : ℕ → List ℕ
leaf r = if r == 2 then mac_os else (if r == 3 then contents else [])

abbrev pub parent : ℕ → ℕ
parent r = r + 1

abbrev pub carbon : Carbon
carbon = record {
  get_process_pid = λ psn pid. pos psn;
  get_process_information = λ psn old. (2 ∷ b'v' ∷ b'i' ∷ [], 1);
  copy_title = λ element. if element == 9 then some 77 else none;
  copy_minimized = λ element. some true;
  get_c_string = λ title buffer. b'T' ∷ [];
  fs_get_catalog_info = λ r old. (leaf r, parent r);
  from_latin1 = λ s n. s;
  from_utf8 = λ s. s;
}

abbrev pub garbage : Garbage
garbage = record { process_name = []; fs_ref = 0; hfs_name = []; parent_ref = 0 }

-- A window with an accessibility element, and one handle.
abbrev pub window : Private
window = record {
  ref = pos 1;
  win = 5;
  is_local = true;
  name = [];
  icon_spec = 0;
  loaded_data = false;
  ax_win = 9;
  children = [];
  parent = null;
  psn = 7;
  pid = pos 7;
}

abbrev pub one_window : World
one_window = record { heap = update (λ _. none) 3 (some window); calls = [] }

abbrev pub one_handle : Program
one_handle = record { world = one_window; handles = some 3 ∷ [] }

Counted-window : (b : Bool) → Counted (if b then some window else none) ((if b then 1 else 0) + 0)
Counted-window true = (refl, omega arith)
Counted-window false = refl

pub one_handle-IsCounted : IsCounted one_handle
one_handle-IsCounted = record { null_free = refl; counted = λ p ne. Counted-window (3 == p) }

pub three_ne_null : ◌≢◌ {A = Ptr} 3 null
three_ne_null e = absurd (omega arith)

pub nine_ne_null : ◌≢◌ {A = Ptr} 9 null
nine_ne_null e = absurd (omega arith)

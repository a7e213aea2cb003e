-- ===== src/KWindowInfo/Tests/Names.antt =====
-- The names of one window, and the icon of its process.
use macstrop.Shared.{ℕ, ◌≡◌, ◌≢◌, ◌⊎◌, ◌↔◌, refl, true, false, none, some, List, [], ◌∷◌, ◌++◌}
use macstrop.KWindowInfo.Carbon.{Carbon, Garbage}
use macstrop.KWindowInfo.Store.{null, World}
use macstrop.KWindowInfo.Object.{mac_os, contents, bundle_icon}
use macstrop.KWindowInfo.Query.{
  valid, win, is_minimized, name, visible_name, visible_icon_name, visible_name_with_state,
  visible_icon_name_with_state,
}
use macstrop.KWindowInfo.Loading.{Shows}
use macstrop.KWindowInfo.Naming.{name_once, visible_names}
use macstrop.KWindowInfo.Faults.{Dead, accessors_fault}
use macstrop.KWindowInfo.Bundle.{bundle_icon_lem}
use macstrop.KWindowInfo.Tests.System.{
  leaf, parent, carbon, garbage, window, one_window, three_ne_null,
}

name_once_example :
    (s : List ℕ) × (w : World) × (name carbon garbage 3 one_window ≡ some (s, w))
    × ((c : Carbon) (g : Garbage) → name c g 3 w ≡ some (s, w))
    × (((false ≡ true) × (s ≡ []) × (w ≡ one_window))
        ⊎ ((false ≡ false) × Shows carbon garbage window s))
name_once_example = name_once carbon garbage one_window 3 window three_ne_null refl

visible_names_example :
    (s : List ℕ) × (w : World) × (name carbon garbage 3 one_window ≡ some (s, w))
    × (visible_name carbon garbage 3 one_window ≡ some (s, w))
    × (visible_icon_name carbon garbage 3 one_window ≡ some (s, w))
    × (((9 ≢ null)
          × (carbon.copy_minimized 9 ≡ some true)
          × (visible_name_with_state carbon garbage 3 one_window
              ≡ some (b'(' ∷ (s ++ b')' ∷ []), w))
          × (visible_icon_name_with_state carbon garbage 3 one_window
              ≡ some (b'(' ∷ (s ++ b')' ∷ []), w)))
        ⊎ (((9 ≡ null)
              ⊎ ((carbon.copy_minimized 9 ≡ none) ⊎ (carbon.copy_minimized 9 ≡ some false)))
            × (visible_name_with_state carbon garbage 3 one_window ≡ some (s, w))
            × (visible_icon_name_with_state carbon garbage 3 one_window ≡ some (s, w))))
visible_names_example = visible_names carbon garbage one_window 3 window three_ne_null refl

accessors_fault_example :
    ((valid true null one_window ≡ none) ↔ Dead null one_window)
    × ((win null one_window ≡ none) ↔ Dead null one_window)
    × ((is_minimized carbon null one_window ≡ none) ↔ Dead null one_window)
    × ((¬ Dead null one_window)
        ⊎ ((name carbon garbage null one_window ≡ none)
            × (visible_name carbon garbage null one_window ≡ none)
            × (visible_icon_name carbon garbage null one_window ≡ none)
            × (visible_name_with_state carbon garbage null one_window ≡ none)
            × (visible_icon_name_with_state carbon garbage null one_window ≡ none)))
accessors_fault_example = accessors_fault carbon garbage null one_window true

bundle_icon_lem_example :
    ((leaf 2 ≡ mac_os) × (leaf 3 ≡ contents) × (bundle_icon carbon garbage 1 ≡ 4))
    ⊎ ((¬ ((leaf 2 ≡ mac_os) × (leaf 3 ≡ contents))) × (bundle_icon carbon garbage 1 ≡ 1))
bundle_icon_lem_example = bundle_icon_lem carbon garbage leaf parent (λ r old. refl) 1

-- ===== src/SvnError/Names.antt =====
-- The symbols of svn_error_codes.h are distinct.
use Prim.Native.String.{String}
use text.Mathlib.Text.{◌==◌ as str_eq}
use macstrop.Shared.{◌≡◌, refl, Bool, true, false, ◌&&◌, not, List, [], ◌∷◌}
use macstrop.SvnError.Defs.{ErrDef}
use macstrop.SvnError.Codes.{svn_errors}

unfoldable pub has_name : String → List ErrDef → Bool
has_name s [] = false
has_name s (d ∷ ds) = elim (str_eq s d.num) [ true ↦ true | false ↦ has_name s ds ]

unfoldable pub distinct : List ErrDef → Bool
unfolding has_name
distinct [] = true
distinct (d ∷ ds) = not (has_name d.num ds) && distinct ds

pub svn_errors-distinct : distinct svn_errors ≡ true
unfolding distinct svn_errors
svn_errors-distinct = refl

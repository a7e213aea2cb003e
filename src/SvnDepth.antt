-- ===== src/SvnDepth.antt =====
-- The depths of svn_types.h in kde/kdesdk-kioslaves/files/svn-1.8.13/subversion-1, and the macros
-- between them and the older flag `recurse`.
pub mod Recurse
use macstrop.Shared.{ℕ, Bool, true, false, ◌||◌, ℤ, pos, negsuc, ◌==◌, if◌then◌else◌}

pub data SvnDepth : Type 0 where
  unknown exclude empty files immediates infinity : SvnDepth

-- The value of each enumerator.
unfoldable pub depth_value : SvnDepth → ℤ
depth_value unknown = negsuc 1
depth_value exclude = negsuc 0
depth_value empty = pos 0
depth_value files = pos 1
depth_value immediates = pos 2
depth_value infinity = pos 3

-- Enumerators are compared by value.
unfoldable pub int_eq : ℤ → ℤ → Bool
int_eq (pos a) (pos b) = a == b
int_eq (negsuc a) (negsuc b) = a == b
int_eq _ _ = false

-- SVN_DEPTH_INFINITY_OR_FILES and its two fellows.
unfoldable pub depth_infinity_or_files : Bool → SvnDepth
depth_infinity_or_files recurse = if recurse then infinity else files

unfoldable pub depth_infinity_or_immediates : Bool → SvnDepth
depth_infinity_or_immediates recurse = if recurse then infinity else immediates

unfoldable pub depth_infinity_or_empty : Bool → SvnDepth
depth_infinity_or_empty recurse = if recurse then infinity else empty

-- SVN_DEPTH_IS_RECURSIVE.
unfoldable pub depth_is_recursive : SvnDepth → Bool
unfolding depth_value int_eq
depth_is_recursive depth =
    int_eq (depth_value depth) (depth_value infinity)
    || int_eq (depth_value depth) (depth_value unknown)

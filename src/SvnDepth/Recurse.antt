-- ===== src/SvnDepth/Recurse.antt =====
-- The old flag `recurse` against the depths that stand for it.
use macstrop.Shared.{Bool, true, false, ◌≡◌, ◌⊎◌, ◌↔◌, inl, inr, refl, arith}
use macstrop.SvnDepth.{
  SvnDepth, unknown, exclude, empty, files, immediates, infinity, depth_infinity_or_files,
  depth_infinity_or_immediates, depth_infinity_or_empty, depth_is_recursive,
}

-- SVN_DEPTH_IS_RECURSIVE gives the flag `recurse` back from each of the depths that
-- SVN_DEPTH_INFINITY_OR_FILES, _OR_IMMEDIATES and _OR_EMPTY turn it into.
pub depth_is_recursive_lem :
    (recurse : Bool)
    → (depth_is_recursive (depth_infinity_or_files recurse) ≡ recurse)
      × (depth_is_recursive (depth_infinity_or_immediates recurse) ≡ recurse)
      × (depth_is_recursive (depth_infinity_or_empty recurse) ≡ recurse)
unfolding depth_is_recursive depth_infinity_or_files depth_infinity_or_immediates
    depth_infinity_or_empty
depth_is_recursive_lem true = (refl, refl, refl)
depth_is_recursive_lem false = (refl, refl, refl)

-- SVN_DEPTH_INFINITY_OR_FILES of SVN_DEPTH_IS_RECURSIVE of a depth is the depth itself exactly for
-- `files` and `infinity`.
pub depth_infinity_or_files-is_recursive :
    (depth : SvnDepth)
    → (depth_infinity_or_files (depth_is_recursive depth) ≡ depth)
      ↔ ((depth ≡ files) ⊎ (depth ≡ infinity))
unfolding depth_is_recursive depth_infinity_or_files
depth_infinity_or_files-is_recursive unknown = (λ e. cc, λ e. ground arith)
depth_infinity_or_files-is_recursive exclude = (λ e. cc, λ e. ground arith)
depth_infinity_or_files-is_recursive empty = (λ e. cc, λ e. ground arith)
depth_infinity_or_files-is_recursive files = (λ e. inl refl, λ e. refl)
depth_infinity_or_files-is_recursive immediates = (λ e. cc, λ e. ground arith)
depth_infinity_or_files-is_recursive infinity = (λ e. inr refl, λ e. refl)

-- ===== src/ClangSelection/Loop.antt =====
-- `blacklist_macports_clang_versions`: its `while` on fuel, and the requests that it reads.
use Prim.Native.String.{String}
use text.Mathlib.Text.{find?}
use macstrop.Shared.{
  ℕ, zero, suc, Bool, true, false, Option, none, some, List, [], ◌∷◌, ◌++◌, if◌then◌else◌,
}
use macstrop.ClangSelection.Lists.{Call, blacklist_append, clang, lindex_0, lrange_1}

-- The calls, or an error of Tcl.
pub data Outcome : Type 0 where
  failed : Outcome
  done : List Call → Outcome

-- `switch -regexp ${version} { [0-9.]+ …`: the expression is to be found anywhere in the text.
unfoldable pub has_any : List String → String → Bool
has_any [] text = false
has_any (part ∷ parts) text = elim (find? text part) [ none ↦ has_any parts text | some k ↦ true ]

abbrev pub is_number : String → Bool
is_number text = has_any ("0" ∷ "1" ∷ "2" ∷ "3" ∷ "4" ∷ "5" ∷ "6" ∷ "7" ∷ "8" ∷ "9" ∷ "." ∷ []) text

-- `lindex [split ${l} "-"] 1`, from the parts.
abbrev pub lindex_1 : List String → String
lindex_1 parts = lindex_0 (lrange_1 parts)

-- One after the other; an error ends it all.
infixr 20 ◌and_then◌
unfoldable pub ◌and_then◌ : Outcome → Outcome → Outcome
failed and_then o = failed
done calls and_then failed = failed
done calls and_then done more = done (calls ++ more)

module _ (holds : String → String → String → Option Bool) where
  -- The loop over the directories `llvm-*`, which are split at "-". `holds comp a b` is
  -- `expr [vercmp a b] comp 0`.
  unfoldable pub blacklist_range : String → String → List (List String) → Outcome
  unfolding clang ◌and_then◌
  blacklist_range comp refversion [] = done []
  blacklist_range comp refversion (l ∷ ls) =
      let rest = blacklist_range comp refversion ls in
      elim (holds comp (lindex_1 l) refversion) [
        | none ↦ failed
        | some is ↦
            done (if is then blacklist_append (clang (lindex_1 l)) ∷ [] else []) and_then rest
      ]

  module _ (llvm : List (List String)) where
    -- A round of the loop, then what the other rounds do.
    unfoldable pub round : Outcome → Option Outcome → Option Outcome
    unfolding ◌and_then◌
    round failed rest = some failed
    round (done calls) none = none
    round (done calls) (some o) = some (done calls and_then o)

    -- `none` is a loop that goes on after so many rounds.
    unfoldable pub blacklist_macports_clang_versions : ℕ → List String → Option Outcome
    unfolding clang has_any blacklist_range round
    blacklist_macports_clang_versions fuel [] = some (done [])
    blacklist_macports_clang_versions zero (version ∷ versions) = none
    blacklist_macports_clang_versions (suc fuel) (version ∷ versions) = elim (is_number version) [
      | true ↦
          round (done (blacklist_append (clang version) ∷ []))
            (blacklist_macports_clang_versions fuel versions)
      | false ↦
          round (blacklist_range version (lindex_0 versions) llvm)
            (blacklist_macports_clang_versions fuel (lrange_1 versions))
    ]

-- ===== src/ClangSelection/Tests.antt =====
-- Witnesses: 3.6 and 3.5 are installed, 3.7 and 3.4 are not.
use Prim.Native.String.{String}
use text.Mathlib.Text.{◌==◌ as str_eq}
use mathlib.Core.List.{Memᴰ}
use macstrop.Shared.{refl, ◌≡◌, ◌↔◌, ◌||◌, Bool, false, Option, some, List, [], ◌∷◌, arith}
use macstrop.ClangSelection.Lists.{
  blacklist_append, clang, lrange_1, whitelist_macports_clang_versions,
}
use macstrop.ClangSelection.Whitelist.{whitelisted, blacklisted, whitelist-whitelisted}
use macstrop.ClangSelection.Blacklisted.{IsAbsent, HasOne, whitelist-blacklisted}
use macstrop.ClangSelection.Loop.{
  done, has_any, blacklist_range, round, ◌and_then◌, blacklist_macports_clang_versions,
}
use macstrop.ClangSelection.Requests.{answers, requests, blacklist_macports_clang_versions-answers}

abbrev installed : String → Bool
installed v = str_eq v "3.6" || str_eq v "3.5"

abbrev versions : List String
versions = "3.7" ∷ "3.6" ∷ "3.5" ∷ "3.4" ∷ []

-- One element, in which the later version stands first.
whitelist-whitelisted_example :
    whitelisted (whitelist_macports_clang_versions installed versions)
    ≡ (clang "3.5" ∷ clang "3.6" ∷ []) ∷ []
whitelist-whitelisted_example = whitelist-whitelisted installed versions

whitelist-blacklisted_example :
    Memᴰ (clang "3.4") (blacklisted (whitelist_macports_clang_versions installed versions)) ↔ (
      (installed "3.7" ≡ false)
      × HasOne installed (lrange_1 versions)
      × IsAbsent installed (clang "3.4") versions)
whitelist-blacklisted_example = whitelist-blacklisted installed versions (clang "3.4")

-- An order for one operator.
abbrev before : String → String → String → Option Bool
before comp a b = some (str_eq a "3.3")

abbrev mixed : List String
mixed = "<" ∷ "3.4" ∷ "3.0" ∷ []

abbrev llvm : List (List String)
llvm = ("" ∷ "3.3" ∷ []) ∷ ("" ∷ "3.6" ∷ []) ∷ []

blacklist_macports_clang_versions-answers_example :
    blacklist_macports_clang_versions before llvm 3 mixed
    ≡ some (answers before llvm (requests mixed))
blacklist_macports_clang_versions-answers_example =
    blacklist_macports_clang_versions-answers before llvm 3 mixed (omega arith)

-- {< 3.4 3.0} blacklists what is installed below 3.4, and 3.0.
mixed_blacklist :
    blacklist_macports_clang_versions before llvm 3 mixed
    ≡ some
        (done (blacklist_append "macports-clang-3.3" ∷ blacklist_append "macports-clang-3.0" ∷ []))
unfolding blacklist_macports_clang_versions blacklist_range round has_any clang ◌and_then◌
mixed_blacklist = refl

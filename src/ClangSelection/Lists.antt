-- ===== src/ClangSelection/Lists.antt =====
-- `whitelist_macports_clang_versions`, with what it does to the two lists of compilers as its value.
use Prim.Native.String.{String, ◌++◌ as ◌<>◌}
use text.Mathlib.Text.{◌==◌ as str_eq}
use macstrop.Shared.{
  ℕ, ltb, ◌==◌, Bool, true, false, not, ◌&&◌, List, [], ◌∷◌, ◌++◌, map, if◌then◌else◌,
}

-- `compiler.whitelist-append` and `compiler.blacklist-append`, each with one argument: for the white
-- list a list, for the black list a name. A list of one name is the name itself.
pub data Call : Type 0 where
  whitelist_append : List String → Call
  blacklist_append : String → Call

-- "macports-clang-${version}"
unfoldable pub clang : String → String
clang version = "macports-clang-" <> version

-- `lindex ${versions} 0`
abbrev pub lindex_0 : List String → String
lindex_0 [] = ""
lindex_0 (v ∷ vs) = v

-- `lrange ${versions} 1 end`
abbrev pub lrange_1 : List String → List String
lrange_1 [] = []
lrange_1 (v ∷ vs) = vs

-- `foreach grey ${versions}`
unfoldable pub blacklist_greys : (String → Bool) → String → List String → List Call
unfolding clang
blacklist_greys installed white [] = []
blacklist_greys installed white (grey ∷ greys) =
    let rest = blacklist_greys installed white greys in
    if not (str_eq grey white) && not (installed grey)
    then blacklist_append (clang grey) ∷ rest
    else rest

-- `foreach white [lrange ${versions} 1 end]`, from `whitelist` on: what `whitelist` is in the end, and the
-- calls.
unfoldable pub look :
    (String → Bool) → List String → List String → List String → List String × List Call
unfolding clang blacklist_greys
look installed versions [] whitelist = (whitelist, [])
look installed versions (white ∷ whites) whitelist = elim (installed white) [
  | true ↦
      let (found, calls) = look installed versions whites (clang white ∷ whitelist) in
      (found, blacklist_greys installed white versions ++ calls)
  | false ↦ look installed versions whites whitelist
]

-- The end: append what was found, or else every version.
unfoldable pub append_found : List String → List String → List Call
unfolding clang
append_found versions [] = map (λ white. whitelist_append (clang white ∷ [])) versions
append_found versions (name ∷ names) = whitelist_append (name ∷ names) ∷ []

unfoldable pub whitelist_macports_clang_versions : (String → Bool) → List String → List Call
unfolding clang look append_found
whitelist_macports_clang_versions installed versions =
    let car = lindex_0 versions in
    if installed car
    then whitelist_append (clang car ∷ []) ∷ []
    else (let (whitelist, calls) = look installed versions (lrange_1 versions) [] in
        calls ++ append_found versions whitelist)

-- `macports-clang-latest`, from `os.platform eq "darwin"` and `os.major`.
unfoldable pub macports_clang_latest : Bool → ℕ → String
macports_clang_latest false major = "macports-clang-3.6"
macports_clang_latest true major =
    if ltb major 10
    then "macports-clang-3.4"
    else if major == 10
    then "macports-clang-3.5"
    else "macports-clang-3.6"

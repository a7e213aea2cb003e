-- ===== src/LangSelect/Tree.antt =====
-- The files below a destroot, as far as `glob`, `file exists` and `file delete -force` see them.
use macstrop.Shared.{
  Bool, true, false, not, ◌&&◌, ◌||◌, Option, none, some, List, [], ◌∷◌, ◌++◌, if◌then◌else◌, ◌==◌,
}
use macstrop.Shared.Texts.{Text, text_eq}

-- The names on the way to a file.
abbrev pub FilePath : Type 0
FilePath = List Text

pub record DirEntry : Type 0 where
  pub path : FilePath
  pub is_dir : Bool

abbrev pub Files : Type 0
Files = List DirEntry

-- A name that is not empty, before others.
unfoldable pub name_before : Text → FilePath → FilePath
name_before [] names = names
name_before (c ∷ cs) names = (c ∷ cs) ∷ names

-- The names in a text, which slashes end. More slashes than one are as good as one.
unfoldable pub parts_from : Text → Text → FilePath
unfolding name_before
parts_from name [] = name_before name []
parts_from name (c ∷ cs) =
    let rest = parts_from [] cs in
    let longer = parts_from (name ++ c ∷ []) cs in
    if c == b'/' then name_before name rest else longer

unfoldable pub parts : Text → FilePath
unfolding parts_from
parts text = parts_from [] text

-- The second file is the first one, or below it.
unfoldable pub is_under : FilePath → FilePath → Bool
unfolding text_eq
is_under [] p = true
is_under (d ∷ ds) [] = false
is_under (d ∷ ds) (n ∷ ns) = text_eq d n && is_under ds ns

-- The name of a file that stands in the folder itself.
unfoldable pub child_name : FilePath → FilePath → Option Text
unfolding text_eq
child_name [] [] = none
child_name [] (n ∷ []) = some n
child_name [] (n ∷ m ∷ ms) = none
child_name (d ∷ ds) [] = none
child_name (d ∷ ds) (n ∷ ns) = if text_eq d n then child_name ds ns else none

-- `glob` leaves out names that start with a dot.
unfoldable pub is_visible : Text → Bool
is_visible [] = false
is_visible (c ∷ cs) = not (c == b'.')

-- `glob -nocomplain` in a folder, with a test of the name and of the type for the pattern.
unfoldable pub glob : (Text → Bool → Bool) → FilePath → Files → List Text
unfolding child_name is_visible
glob pattern dir [] = []
glob pattern dir (e ∷ t) =
    let rest = glob pattern dir t in
    elim (child_name dir e.path) [
      | none ↦ rest
      | some n ↦ if is_visible n && pattern n e.is_dir then n ∷ rest else rest
    ]

-- `file exists`: a folder is there when something in it is.
unfoldable pub is_there : FilePath → Files → Bool
unfolding is_under
is_there p [] = false
is_there p (e ∷ t) = is_under p e.path || is_there p t

-- The files that are not in a set of paths.
unfoldable pub without : (FilePath → Bool) → Files → Files
without gone [] = []
without gone (e ∷ t) = let rest = without gone t in if gone e.path then rest else e ∷ rest

-- `file delete -force`
unfoldable pub delete : FilePath → Files → Files
unfolding without is_under
delete p t = without (is_under p) t

-- The body of a loop over what `glob` found: what is not to be kept is deleted.
unfoldable pub delete_each : (Text → Bool) → FilePath → List Text → Files → Files
unfolding delete
delete_each keep dir [] t = t
delete_each keep dir (n ∷ names) t =
    delete_each keep dir names (if keep n then t else delete (dir ++ n ∷ []) t)

unfoldable pub prune : (Text → Bool → Bool) → (Text → Bool) → FilePath → Files → Files
unfolding glob delete_each
prune pattern keep dir t = delete_each keep dir (glob pattern dir t) t

-- ===== src/PreserveLibraries/UpdateMach.antt =====
-- `update_preserved_libraries` of OS X: the calls of install_name_tool that it makes before it ends,
-- or before an error of otool ends it. Errors of install_name_tool are left out.
use macstrop.Shared.{
  Bool, true, false, not, ◌&&◌, Option, none, some, List, [], ◌∷◌, ◌++◌, if◌then◌else◌,
}
use macstrop.Shared.Texts.{Text, is_listed}
use macstrop.TclNames.{file_tail, remove}
use macstrop.PreserveLibraries.Update.{file_join}

-- `install_name_tool -id` and `-change`; the library stands last.
pub data MachCommand : Type 0 where
  set_id : Text → Text → MachCommand
  change : Text → Text → Text → MachCommand

-- The name that `otool -D` prints of a file; `none` when it fails. `there` is `file exists`.
pub record Otool : Type 0 where
  pub install_name : Text → Option Text
  pub there : Text → Bool

-- What `dict set` keeps of a library in `sonames`.
pub record SoName : Type 0 where
  pub old_name : Text
  pub new_name : Text

-- The calls that were made, and the value, or an error behind them.
pub data Mach (A : Type 0) : Type 0 where
  made : List MachCommand → A → Mach A
  stopped : List MachCommand → Mach A

-- Calls that were made before.
abbrev pub behind : {A : Type 0} → List MachCommand → Mach A → Mach A
behind [] m = m
behind (c ∷ cs) m = elim (behind cs m) [
  | made ds a ↦ made (c ∷ ds) a
  | stopped ds ↦ stopped (c ∷ ds)
]

infixl 5 ◌>>=◌ ◌>>◌
abbrev pub ◌>>=◌ : {A B : Type 0} → Mach A → (A → Mach B) → Mach B
(made cs a) >>= f = behind cs (f a)
(stopped cs) >>= f = stopped cs

abbrev pub ◌>>◌ : {A B : Type 0} → Mach A → Mach B → Mach B
m >> k = m >>= λ _. k

abbrev pub pure : {A : Type 0} → A → Mach A
pure a = made [] a

abbrev pub run_tool : MachCommand → Mach (Unit {0})
run_tool c = made (c ∷ []) tt

module _ (otool : Otool) (destroot dir : Text) where
  -- `exec otool -D`, which is an error when otool fails.
  unfoldable pub exec_otool : Text → Mach Text
  exec_otool file = elim (otool.install_name file) [ none ↦ stopped [] | some name ↦ pure name ]

  -- The path of a library in the directory, if it is there and new.
  unfoldable pub add_id : Text → List Text → List Text
  unfolding is_listed
  add_id id ids =
      if otool.there (destroot ++ id) && not (is_listed ids id) then ids ++ id ∷ [] else ids

  -- The loop for an empty pattern, over the libraries that `glob` finds.
  unfoldable pub library_ids : List Text → List Text → Mach (List Text)
  unfolding exec_otool add_id file_tail file_join
  library_ids ids [] = pure ids
  library_ids ids (lib ∷ libs) = do
    name ← exec_otool lib
    library_ids (add_id (file_join dir (file_tail name)) ids) libs

  -- The first loop, and the dictionary `sonames` that it makes of libraries that are there once.
  unfoldable pub so_names : List Text → Mach (List SoName)
  unfolding exec_otool remove
  so_names [] = pure []
  so_names (lib ∷ libs) = do
    old ← exec_otool (destroot ++ lib)
    more ← so_names libs
    pure (record { old_name = old; new_name = remove destroot lib } ∷ more)

  -- `dict for {id info} ${sonames}`
  unfoldable pub changes : Text → List SoName → Mach (Unit {0})
  changes file [] = pure tt
  changes file (s ∷ sonames) = do run_tool (change s.old_name s.new_name file); changes file sonames

  -- The last loop.
  unfoldable pub update_mach_libraries : List SoName → List Text → Mach (Unit {0})
  unfolding remove changes
  update_mach_libraries sonames [] = pure tt
  update_mach_libraries sonames (lib ∷ libs) = do
    run_tool (set_id (remove destroot lib) (destroot ++ lib))
    changes (destroot ++ lib) sonames
    update_mach_libraries sonames libs

  unfoldable pub update_mach : List Text → Mach (Unit {0})
  unfolding so_names update_mach_libraries
  update_mach libs = do sonames ← so_names libs; update_mach_libraries sonames libs

  -- What `glob` finds for "*.dylib" when no pattern is given, or for the pattern.
  pub data Found : Type 0 where
    all_dylibs : List Text → Found
    matching : List Text → Found

  unfoldable pub update_preserved_libraries_mach : Bool → Found → Mach (Unit {0})
  unfolding library_ids update_mach
  update_preserved_libraries_mach false found = pure tt
  update_preserved_libraries_mach true (all_dylibs libs) = do
    ids ← library_ids [] libs
    update_mach ids
  update_preserved_libraries_mach true (matching libs) = update_mach libs

-- ===== src/PreserveLibraries/Tests.antt =====
-- Witnesses: a port `p` whose library `liba.1` gives way to `liba.2`.
mod Texts
mod Mach
mod Calls
use Prim.Native.String.{String}
use text.Mathlib.Text.{◌==◌ as str_eq}
use text.Mathlib.TextEquality.{eq_iff}
use mathlib.Core.Bool.{false≢true}
use mathlib.Core.List.{Memᴰ}
use mathlib.Core.List.Memᴰ
use macstrop.Shared.{
  ℕ, ◌≡◌, ◌≢◌, refl, sym, ap, ◌∙◌, subst, Bool, true, false, Option, none, some, List, [], ◌∷◌,
  arith, if◌then◌else◌,
}
use macstrop.PreserveLibraries.Tree.{
  create, set_permissions, sibling, permissions, Dir, current, previous, Loc, at, Node, regular,
  link, Tree, put, exists, resolve, max_symlinks, loc_eq, dir_eq,
}
use macstrop.PreserveLibraries.Preserve.{
  Entry, current_copied, current_exported, end_of_line, preserve_pattern, preserve_backup,
  preserve_toc, preserve_file, each, current_libs, open_toc, close_toc, wanted, listed, provider,
  preserve_current, Config, Prefix, Run, own, preserve_libraries, existing_backups, flat,
}
use macstrop.PreserveLibraries.Extends.{Extends, IsSolid, put-IsSolid, resolve-regular, put-at}
use macstrop.PreserveLibraries.Progress.{IsPlain, IsRegular}
use macstrop.PreserveLibraries.Links.{preserve_current_twice}
use macstrop.PreserveLibraries.Notes.{hidden_in, preserve_libraries-notes}
use macstrop.PreserveLibraries.Safety.{preserve_libraries-adds, preserve_libraries-serves}
use macstrop.PreserveLibraries.Sources.{preserve_libraries-current, preserve_libraries-oldest}

abbrev config : Config
config = record { subport = "p"; enabled = true; allow_unlinked = false; ports = [] }

abbrev files : ℕ → String → Option Node
files contents name = if str_eq name "liba.1" then some (regular contents 0o755) else none

-- The library is installed, and an older one of its name may have been preserved.
abbrev world_tree : Tree
world_tree l = elim l.dir [ current ↦ files 1 l.name | previous p ↦ files 2 l.name ]

abbrev older_glob : Bool → Dir → String → List String
older_glob older current pattern = "liba.1" ∷ []
older_glob true (previous p) pattern = "liba.1" ∷ []
older_glob false (previous p) pattern = []

abbrev world : Bool → Prefix
world older = record {
  tree = world_tree;
  srcdir_is_directory = true;
  glob = older_glob older;
  tocs = [];
  registered = λ l. "p";
}

is_there :
    (older : Bool) (d : Dir) (name : String)
    → Memᴰ name ("liba.1" ∷ [])
    → IsRegular (world older) (at d name)
is_there older current name m =
    subst (λ s. IsRegular (world older) (at current s)) (sym (Memᴰ.eq_of_singleton m))
      (1, 0o755, refl)
is_there older (previous p) name m =
    subst (λ s. IsRegular (world older) (at (previous p) s)) (sym (Memᴰ.eq_of_singleton m))
      (2, 0o755, refl)

world_found :
    (older : Bool) (d : Dir) (pattern name : String)
    → Memᴰ name (older_glob older d pattern)
    → IsRegular (world older) (at d name)
world_found older current pattern name m = is_there older current name m
world_found true (previous p) pattern name m = is_there true (previous p) name m
world_found false (previous p) pattern name m = absurd (Memᴰ.not-nil m)

world-IsPlain : (older : Bool) → IsPlain config (world older)
world-IsPlain older = record {
  found = world_found older;
  found_toc = λ name m. absurd (Memᴰ.not-nil m);
}

-- The new version brings `liba.2`.
abbrev nothing : Tree
nothing l = none

abbrev new_version : Tree
new_version = put nothing (at current "liba.2") (regular 3 0o755)

new_version-IsSolid : IsSolid new_version
new_version-IsSolid =
    put-IsSolid nothing (at current "liba.2") (regular 3 0o755) (regular 3 0o755) (λ l n e. cc) refl
      (resolve-regular new_version (at current "liba.2") 3 0o755 (put-at nothing _ _))

abbrev toc_name : Option String
toc_name = some "p@1-0.toc"

toc_other : toc_name ≢ some "liba.1"
toc_other e =
    let same : ◌≡◌ {A = String} "p@1-0.toc" "liba.1" = cc in
    false≢true ((eq_iff "p@1-0.toc" "liba.1").1 same)

preserve_libraries-adds_example :
    (r : Run) × (preserve_libraries config (world true) toc_name ("lib*" ∷ []) new_version ≡ some r)
    × Extends new_version r.tree
    × IsSolid r.tree
    × (r.toc ≡ [] → r.tree ≡ new_version)
unfolding put loc_eq dir_eq
preserve_libraries-adds_example =
    preserve_libraries-adds config (world true) toc_name ("lib*" ∷ []) new_version
      (world-IsPlain true) new_version-IsSolid refl

preserve_libraries-serves_example :
    (r : Run) × (preserve_libraries config (world true) toc_name ("lib*" ∷ []) new_version ≡ some r)
    × (exists r.tree (at current "liba.1") ≡ true)
unfolding put loc_eq dir_eq exists resolve
preserve_libraries-serves_example =
    preserve_libraries-serves config (world true) toc_name ("lib*" ∷ []) new_version
      (world-IsPlain true) new_version-IsSolid refl refl "lib*" "liba.1" (Memᴰ.head refl)
      (Memᴰ.head refl) refl toc_other Memᴰ.not-nil (λ e. cc)

preserve_libraries-current_example :
    (r : Run) × (preserve_libraries config (world false) toc_name ("lib*" ∷ []) new_version
      ≡ some r)
    × (resolve max_symlinks r.tree (at current "liba.1") ≡ some (regular 1 0o755))
unfolding put loc_eq dir_eq existing_backups flat
preserve_libraries-current_example =
    preserve_libraries-current config (world false) toc_name ("lib*" ∷ []) new_version
      (world-IsPlain false) new_version-IsSolid refl refl "lib*" "liba.1" (Memᴰ.head refl)
      (Memᴰ.head refl) refl toc_other Memᴰ.not-nil (λ q l _ m. absurd (Memᴰ.not-nil m)) (refl, refl)

-- The installed library has the contents 1, the one that was preserved before the contents 2.
preserve_libraries-oldest_example :
    (r : Run) × (preserve_libraries config (world true) toc_name ("lib*" ∷ []) new_version ≡ some r)
    × (resolve max_symlinks r.tree (at current "liba.1") ≡ some (regular 2 0o755))
unfolding put loc_eq dir_eq
preserve_libraries-oldest_example =
    preserve_libraries-oldest config (world true) toc_name "lib*" [] new_version
      (world-IsPlain true) new_version-IsSolid refl refl "liba.1" (Memᴰ.head refl) toc_other
      (refl, refl)

-- `liba` is a link to `liba.1`.
abbrev link_files : String → Option Node
link_files name = if str_eq name "liba" then some (link (sibling "liba.1")) else files 1 name

abbrev link_world : Prefix
link_world = record {
  tree = λ l. link_files l.name;
  srcdir_is_directory = true;
  glob = λ d p. "liba" ∷ [];
  tocs = [];
  registered = λ l. "p";
}

abbrev empty_run : Run
empty_run = record { tree = nothing; toc = []; extra = [] }

names_differ : ◌≢◌ {A = String} "liba" "liba.1"
names_differ e = false≢true ((eq_iff "liba" "liba.1").1 e)

preserve_current_twice_example :
    (r' : Run) × (preserve_current config link_world (at current "liba") empty_run ≡ some r')
    × (r'.tree (at (previous "p") "liba") ≡ some (link (sibling "liba.1")))
    × (preserve_current config link_world (at current "liba") r' ≡ none)
unfolding permissions resolve
preserve_current_twice_example =
    preserve_current_twice config link_world "liba" "liba.1" 0o755 empty_run names_differ refl refl
      refl refl refl refl

preserve_libraries-notes_example :
    (r : Run) × (preserve_libraries config (world true) toc_name ("lib*" ∷ []) new_version ≡ some r)
    × (r.extra ≡ hidden_in r.toc)
unfolding put loc_eq dir_eq
preserve_libraries-notes_example =
    preserve_libraries-notes config (world true) toc_name ("lib*" ∷ []) new_version
      (world-IsPlain true) new_version-IsSolid refl

abbrev told : Option Run → List Entry
told none = []
told (some r) = r.toc

-- What the TOC gets: nothing new is hidden, and the library is copied and linked to.
first_upgrade :
    told (preserve_libraries config (world false) toc_name ("lib*" ∷ []) new_version)
    ≡ current_copied (at current "liba.1") ∷ current_exported "liba.1" ∷ end_of_line ∷ []
unfolding preserve_libraries preserve_pattern preserve_backup preserve_toc preserve_current
    preserve_file each flat existing_backups current_libs open_toc close_toc wanted listed provider
    exists permissions resolve create set_permissions put loc_eq dir_eq
first_upgrade = refl

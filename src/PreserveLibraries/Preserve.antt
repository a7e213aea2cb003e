-- ===== src/PreserveLibraries/Preserve.antt =====
-- `preserve_libraries`, from the trees on the disk and below the destroot to the new destroot.
use Prim.Native.String.{String}
use text.Mathlib.Text.{◌==◌ as str_eq}
use macstrop.Shared.{
  Bool, true, false, not, ◌&&◌, ◌||◌, Option, none, some, List, [], ◌∷◌, ◌++◌, map, if◌then◌else◌,
}
use macstrop.Shared.Options.{◌>>=◌}
use macstrop.PreserveLibraries.Tree.{
  Dir, current, previous, Loc, at, in_previous, Node, regular, link, Tree, exists, permissions, put,
  create, set_permissions, loc_eq,
}

-- The options of the port, and the state of its variant. `ports` has the port `0`, to which the
-- registry gives the files that it does not know, if unregistered files are allowed.
pub record Config : Type 0 where
  pub subport : String
  pub enabled : Bool
  pub allow_unlinked : Bool
  pub ports : List String

-- The prefix as it is on the disk: its libraries, what `glob -nocomplain` finds for a pattern in a
-- directory, the old TOC files, and the port that the registry gives for a file.
pub record Prefix : Type 0 where
  pub tree : Tree
  pub srcdir_is_directory : Bool
  pub glob : Dir → String → List String
  pub tocs : List String
  pub registered : Loc → String

-- What is written to the TOC file.
pub data Entry : Type 0 where
  old_exported : String → Entry
  old_hidden : Loc → Entry
  old_toc : String → Entry
  current_copied : Loc → Entry
  current_exported : String → Entry
  current_hidden : Loc → Entry
  provided_by : String → Entry
  end_of_line : Entry

-- The destroot, what the TOC has got so far, and `extra_preserved`.
pub record Run : Type 0 where
  pub tree : Tree
  pub toc : List Entry
  pub extra : List Loc

abbrev pub own : Config → Dir
own c = previous c.subport

-- `${prevlib}`.
abbrev pub kept : Config → Loc → Loc
kept c l = at (own c) l.name

unfoldable pub wanted : Config → Tree → Loc → Bool
wanted c t l = not (exists t (kept c l)) && (c.allow_unlinked || not (exists t l))

abbrev pub is_link : Node → Bool
is_link (regular c m) = false
is_link (link to) = true

-- The body of both loops. `exported` and `hidden` are what it writes to the TOC; `exported` depends on
-- whether the copy is a link.
unfoldable pub preserve_file :
    Config → Prefix → (Bool → List Entry) → List Entry → Loc → Run → Option Run
unfolding wanted
preserve_file c live exported hidden l r = if not (wanted c r.tree l) then some r else do
  mode ← permissions live.tree l
  node ← live.tree l
  copied ← create r.tree (kept c l) node
  if exists copied (at current l.name)
      then some (record { tree = copied; toc = r.toc ++ hidden; extra = r.extra ++ l ∷ [] })
      else do
        linked ←
            create (set_permissions copied (kept c l) mode) (at current l.name)
              (link (in_previous c.subport l.name))
        some (record { tree = linked; toc = r.toc ++ exported (is_link node); extra = r.extra })

-- `foreach l ${existing_backups}`.
unfoldable pub preserve_backup : Config → Prefix → Loc → Run → Option Run
unfolding preserve_file
preserve_backup c live l r =
    preserve_file c live (λ _. old_exported l.name ∷ []) (old_hidden l ∷ []) l r

-- `lsearch -exact ${ports} ${port}`.
unfoldable pub listed : String → List String → Bool
listed p [] = false
listed p (q ∷ qs) = str_eq q p || listed p qs

-- The end of a line of the TOC.
unfoldable pub provider : Config → String → List Entry
provider c port = elim c.ports [
  | [] ↦ end_of_line ∷ []
  | q ∷ qs ↦ if str_eq port "0" then end_of_line ∷ [] else provided_by port ∷ []
]

-- `foreach l ${current_libs}`.
unfoldable pub preserve_current : Config → Prefix → Loc → Run → Option Run
unfolding preserve_file listed provider
preserve_current c live l r =
    let port = live.registered l in
    if str_eq port c.subport || listed port c.ports
    then preserve_file c live
        (λ a_link.
          (if a_link then [] else current_copied l ∷ [])
          ++ (current_exported l.name ∷ provider c port))
        (current_hidden l ∷ provider c port) l r
    else some r

-- `foreach t [glob … "${subport}-*.toc"]`.
unfoldable pub preserve_toc : Config → Prefix → String → Run → Option Run
preserve_toc c live name r =
    let toc = at (own c) name in
    if exists r.tree toc then some r else do
      mode ← permissions live.tree toc
      node ← live.tree toc
      copied ← create r.tree toc node
      some (record r { tree = set_permissions copied toc mode; toc = r.toc ++ old_toc name ∷ [] })

unfoldable pub each : {A : Type 0} → (A → Run → Option Run) → List A → Run → Option Run
each f [] r = some r
each f (x ∷ xs) r = do r' ← f x r; each f xs r'

unfoldable pub flat : {A B : Type 0} → (A → List B) → List A → List B
flat f [] = []
flat f (x ∷ xs) = f x ++ flat f xs

-- The preserved libraries of this port, and those of `ports`.
unfoldable pub existing_backups : Config → Prefix → String → List Loc
unfolding flat
existing_backups c live pattern =
    flat (λ d. map (at d) (live.glob d pattern)) (own c ∷ map previous c.ports)

unfoldable pub current_libs : Prefix → String → List Loc
current_libs live pattern = map (at current) (live.glob current pattern)

unfoldable pub preserve_pattern : Config → Prefix → String → Run → Option Run
unfolding each preserve_backup preserve_toc preserve_current existing_backups current_libs
preserve_pattern c live pattern r = do
  r' ← each (preserve_backup c live) (existing_backups c live pattern) r
  r'' ← each (preserve_toc c live) live.tocs r'
  each (preserve_current c live) (current_libs live pattern) r''

-- The TOC file is written from its start, and removed if nothing came to it. Its contents are the
-- entries; `none` is a run that writes to stderr instead.
unfoldable pub open_toc : Config → Option String → Tree → Tree
open_toc c none t = t
open_toc c (some name) t = put t (at (own c) name) (regular 0 0o644)

unfoldable pub close_toc : Config → Option String → Run → Run
close_toc c none r = r
close_toc c (some name) r = elim r.toc [
  | [] ↦ record r { tree = λ q. if loc_eq (at (own c) name) q then none else r.tree q }
  | e ∷ es ↦ r
]

unfoldable pub preserve_libraries :
    Config → Prefix → Option String → List String → Tree → Option Run
unfolding each preserve_pattern open_toc close_toc
preserve_libraries c live toc patterns destroot =
    if c.enabled && live.srcdir_is_directory
    then (do
      r ←
          each (preserve_pattern c live) patterns
            (record { tree = open_toc c toc destroot; toc = []; extra = [] })
      some (close_toc c toc r))
    else some (record { tree = destroot; toc = []; extra = [] })

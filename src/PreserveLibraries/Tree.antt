-- ===== src/PreserveLibraries/Tree.antt =====
-- The library directory of a prefix and the directories `previous/<port>` in it, as they are on the
-- disk, or below a destroot; and the file commands of Tcl on them.
use Prim.Native.String.{String}
use text.Mathlib.Text.{◌==◌ as str_eq}
use text.Mathlib.TextEquality.{eq_iff}
use macstrop.Shared.Options.{◌>>=◌}
use macstrop.Shared.{
  ℕ, zero, suc, ◌≡◌, ◌↔◌, refl, ap, ap₂, Bool, true, false, ◌&&◌, Option, none, some, arith,
  if◌then◌else◌, &&-elim,
}

-- `${srcdir}`, or `${srcdir}/previous/<port>`.
pub data Dir : Type 0 where
  current : Dir
  previous : String → Dir

pub record Loc : Type 0 where
  pub dir : Dir
  pub name : String

abbrev pub at : Dir → String → Loc
at d n = record { dir = d; name = n }

-- The text of a symbolic link: a name in the link's own directory, or `previous/<port>/<name>`.
pub data Target : Type 0 where
  sibling : String → Target
  in_previous : String → String → Target

-- A file with its contents and its permissions, or a link.
pub data Node : Type 0 where
  regular : ℕ → ℕ → Node
  link : Target → Node

abbrev pub Tree : Type 0
Tree = Loc → Option Node

-- Where a link leads. Below `previous/<port>` there is no further directory `previous`.
abbrev pub follow : Dir → Target → Option Loc
follow d (sibling n) = some (at d n)
follow current (in_previous p n) = some (at (previous p) n)
follow (previous q) (in_previous p n) = none

-- A file is read; a link is followed.
abbrev pub visit : (Loc → Option Node) → Dir → Node → Option Node
visit again d (regular c m) = some (regular c m)
visit again d (link to) = follow d to >>= again

-- The file that a path leads to, over at most so many links.
unfoldable pub resolve : ℕ → Tree → Loc → Option Node
resolve zero t l = none
resolve (suc k) t l = t l >>= visit (resolve k t) l.dir

-- MAXSYMLINKS.
abbrev pub max_symlinks : ℕ
max_symlinks = 32

-- `file exists`, which follows links.
unfoldable pub exists : Tree → Loc → Bool
exists t l = elim (resolve max_symlinks t l) [ none ↦ false | some n ↦ true ]

-- `file attributes <path> -permissions`, which follows links; `none` is an error.
unfoldable pub permissions : Tree → Loc → Option ℕ
permissions t l = elim (resolve max_symlinks t l) [
  | none ↦ none
  | some (regular c m) ↦ some m
  | some (link to) ↦ none
]

unfoldable pub dir_eq : Dir → Dir → Bool
dir_eq current current = true
dir_eq (previous p) (previous q) = str_eq p q
dir_eq _ _ = false

unfoldable pub loc_eq : Loc → Loc → Bool
unfolding dir_eq
loc_eq a b = dir_eq a.dir b.dir && str_eq a.name b.name

dir_eq_iff : (a b : Dir) → (dir_eq a b ≡ true) ↔ (a ≡ b)
unfolding dir_eq
dir_eq_iff current current = (λ _. refl, λ _. refl)
dir_eq_iff current (previous q) = (λ e. cc, λ e. cc)
dir_eq_iff (previous p) current = (λ e. cc, λ e. cc)
dir_eq_iff (previous p) (previous q) =
    (λ e. ap previous ((eq_iff p q).0 e), λ e. ground (arith, (eq_iff p q).1))

pub loc_eq_iff : (a b : Loc) → (loc_eq a b ≡ true) ↔ (a ≡ b)
unfolding loc_eq
loc_eq_iff a b = (
  λ h.
      let (same_dir, same_name) = &&-elim (dir_eq a.dir b.dir) (str_eq a.name b.name) h in
      ap₂ at ((dir_eq_iff a.dir b.dir).0 same_dir) ((eq_iff a.name b.name).0 same_name),
  λ e.
      ap₂ (λ x y. x && y) ((dir_eq_iff a.dir b.dir).1 (ap (λ l. l.dir) e))
        ((eq_iff a.name b.name).1 (ap (λ l. l.name) e)),
)

unfoldable pub put : Tree → Loc → Node → Tree
unfolding loc_eq
put t l n q = if loc_eq l q then some n else t q

-- `file copy` of a node, and `ln -s`, to a new entry; `none` is an error.
unfoldable pub create : Tree → Loc → Node → Option Tree
unfolding put
create t l n = elim (t l) [ none ↦ some (put t l n) | some _ ↦ none ]

-- `file attributes <path> -permissions <mode>` on a file that is no link.
unfoldable pub set_permissions : Tree → Loc → ℕ → Tree
unfolding put
set_permissions t l mode = elim (t l) [
  | none ↦ t
  | some (regular c m) ↦ put t l (regular c mode)
  | some (link to) ↦ t
]

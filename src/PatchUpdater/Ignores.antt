-- ===== src/PatchUpdater/Ignores.antt =====
-- `addIgnore` and the `pre-patch` block, which prepare the git folder of a port. The lines of
-- .gitignore are a list, empty where there is no such file; `fgrep` looks for a text in them.
use macstrop.Shared.{ℕ, ◌+◌, ◌≡◌, ◌↔◌, Bool, true, false, List, [], ◌∷◌, ◌++◌, if◌then◌else◌, ◌==◌}
use macstrop.Shared.Texts.{Text}

-- `fgrep -s -q txt file`
abbrev pub Fgrep : Type 0
Fgrep = Text → List Text → Bool

-- A line has the text in it.
pub data HasPart (t : Text) : List Text → Type 0 where
  in_line : {l : Text} {ls : List Text} (a b : Text) → l ≡ a ++ t ++ b → HasPart t (l ∷ ls)
  in_rest : {l : Text} {ls : List Text} → HasPart t ls → HasPart t (l ∷ ls)

-- `fgrep` finds a text just when it is a part of a line.
pub record IsFgrep (fgrep : Fgrep) : Type 0 where
  pub finds : (t : Text) (lines : List Text) → (fgrep t lines ≡ true) ↔ HasPart t lines

-- The calls of git and of `xinstall -d`.
pub data Act : Type 0 where
  wait_for_git : Act
  checkout : Act
  checkout_new : Act
  configure : Act
  commit_ignores : Act
  make_folder : Act

pub record Folder : Type 0 where
  pub lines : List Text
  pub gitignores : ℕ
  pub acts : List Act

pub data BlockResult : Type 0 where
  ok : Folder → BlockResult
  failed : Folder → BlockResult

-- "*.orig", "*.rej", "*.kdev4", ".kdev4", ".*.swp" and "*.so".
abbrev pub orig_files : Text
orig_files = b'*' ∷ b'.' ∷ b'o' ∷ b'r' ∷ b'i' ∷ b'g' ∷ []

abbrev pub rej_files : Text
rej_files = b'*' ∷ b'.' ∷ b'r' ∷ b'e' ∷ b'j' ∷ []

abbrev pub kdev4 : Text
kdev4 = b'.' ∷ b'k' ∷ b'd' ∷ b'e' ∷ b'v' ∷ b'4' ∷ []

abbrev pub swp_files : Text
swp_files = b'.' ∷ b'*' ∷ b'.' ∷ b's' ∷ b'w' ∷ b'p' ∷ []

abbrev pub so_files : Text
so_files = b'*' ∷ b'.' ∷ b's' ∷ b'o' ∷ []

abbrev pub usual_ignores : List Text
usual_ignores = orig_files ∷ rej_files ∷ (b'*' ∷ kdev4) ∷ kdev4 ∷ swp_files ∷ so_files ∷ []

module _ (fgrep : Fgrep) where
  unfoldable pub add_ignore : Text → Folder → Folder
  add_ignore txt f =
      if fgrep txt f.lines
      then f
      else record f { lines = f.lines ++ txt ∷ []; gitignores = f.gitignores + 1 }

  unfoldable pub add_ignores : List Text → Folder → Folder
  unfolding add_ignore
  add_ignores [] f = f
  add_ignores (txt ∷ texts) f = add_ignores texts (add_ignore txt f)

  module _ (ignore_files : List Text) (fails : List Act → Act → Bool) where
    unfoldable pub act : Act → (Folder → BlockResult) → Folder → BlockResult
    act a next f = if fails f.acts a then failed f else next (record f { acts = f.acts ++ a ∷ [] })

    -- What follows the checkout.
    unfoldable pub prepare : Folder → BlockResult
    unfolding add_ignores act
    prepare f =
        act configure
          (λ g.
            if g.gitignores == 0
            then act make_folder ok g
            else act wait_for_git (act commit_ignores (act make_folder ok)) g)
          (add_ignores (usual_ignores ++ ignore_files) f)

    -- The branch is made when it cannot be checked out; `is_git` is the test of the folder .git.
    unfoldable pub pre_patch : Bool → Folder → BlockResult
    unfolding act prepare
    pre_patch false f = failed f
    pre_patch true f =
        act wait_for_git
          (λ g.
            if fails g.acts checkout then act checkout_new prepare g else act checkout prepare g)
          f

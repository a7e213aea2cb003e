-- ===== src/PatchUpdater/Tests/Ignores.antt =====
-- A search for texts in lines, and a git folder whose .gitignore has a line for libraries with a number.
use mathlib.Core.List.{append_assoc}
use macstrop.Shared.{
  ◌≡◌, ◌↔◌, refl, sym, ap, ◌∙◌, subst, Bool, true, false, ◌||◌, List, [], ◌∷◌, ◌++◌, Bool-cases,
  inl, inr, arith,
}
use macstrop.Shared.Texts.{Text}
use macstrop.TclNames.{starts_with, starts_with_iff}
use macstrop.PatchUpdater.Ignores.{
  Fgrep, HasPart, in_line, in_rest, IsFgrep, Folder, ok, Act, wait_for_git, checkout, checkout_new,
  configure, commit_ignores, make_folder, so_files, orig_files, rej_files, kdev4, swp_files,
  add_ignore, add_ignores, act, prepare, pre_patch,
}
use macstrop.PatchUpdater.PrePatch.{Prepared, pre_patch-Prepared}

abbrev has_part : Text → Text → Bool
has_part t [] = starts_with t []
has_part t (c ∷ l) = starts_with t (c ∷ l) || has_part t l

abbrev search : Fgrep
search t [] = false
search t (l ∷ ls) = has_part t l || search t ls

has_part_here : (t l : Text) → starts_with t l ≡ true → has_part t l ≡ true
has_part_here t [] h = h
has_part_here t (c ∷ l) h = rw (h) refl

has_part_behind : (t a l : Text) → has_part t l ≡ true → has_part t (a ++ l) ≡ true
has_part_behind t [] l h = h
has_part_behind t (c ∷ a) l h = ground (has_part_behind t a l h, arith)

has_part_iff : (t l : Text) → (has_part t l ≡ true) ↔ ((a b : Text) × (l ≡ a ++ t ++ b))
has_part_iff t l = (
  to l,
  λ (a, b, e).
      subst (λ x. has_part t x ≡ true) (sym (e ∙ append_assoc a t b))
        (has_part_behind t a (t ++ b)
          (has_part_here t (t ++ b) ((starts_with_iff t (t ++ b)).1 (b, refl)))),
)
  where
    to : (l : Text) → has_part t l ≡ true → (a b : Text) × (l ≡ a ++ t ++ b)
    to [] h = let (b, e) = (starts_with_iff t []).0 h in ([], b, e)
    to (c ∷ l) h = elim (Bool-cases (starts_with t (c ∷ l))) [
      | inl here ↦ let (b, e) = (starts_with_iff t (c ∷ l)).0 here in ([], b, e)
      | inr not_here ↦ let (a, b, e) = to l (rw (not_here) at h) in (c ∷ a, b, ap (λ x. c ∷ x) e)
    ]

search_finds : (t : Text) (ls : List Text) → search t ls ≡ true → HasPart t ls
search_finds t [] h = cc
search_finds t (l ∷ ls) h = elim (Bool-cases (has_part t l)) [
  | inl here ↦ let (a, b, e) = (has_part_iff t l).0 here in in_line a b e
  | inr not_here ↦ in_rest (search_finds t ls (rw (not_here) at h))
]

finds_search : (t : Text) (ls : List Text) → HasPart t ls → search t ls ≡ true
finds_search t [] h = elim h [ ]
finds_search t (l ∷ ls) (in_line a b e) = rw ((has_part_iff t l).1 (a, b, e)) refl
finds_search t (l ∷ ls) (in_rest h) = ground (finds_search t ls h, arith)

search-IsFgrep : IsFgrep search
search-IsFgrep = record { finds = λ t ls. (search_finds t ls, finds_search t ls) }

-- The line "*.so.1".
abbrev with_number : Folder
with_number = record { lines = (so_files ++ b'.' ∷ b'1' ∷ []) ∷ []; gitignores = 0; acts = [] }

-- A line that only has the text in it keeps the text out.
so_is_left_out :
    (add_ignore search so_files with_number).lines ≡ (so_files ++ b'.' ∷ b'1' ∷ []) ∷ []
unfolding add_ignore starts_with
so_is_left_out = refl

abbrev no_branch : List Act → Act → Bool
no_branch log checkout = true
no_branch log wait_for_git = false
no_branch log checkout_new = false
no_branch log configure = false
no_branch log commit_ignores = false
no_branch log make_folder = false

-- What the block leaves there: ".kdev4" is a part of "*.kdev4" and is left out as well.
abbrev after : Folder
after = record {
  lines = (so_files ++ b'.' ∷ b'1' ∷ []) ∷ orig_files ∷ rej_files ∷ (b'*' ∷ kdev4) ∷ swp_files ∷ [];
  gitignores = 4;
  acts = wait_for_git ∷ checkout_new ∷ configure ∷ wait_for_git ∷ commit_ignores ∷ make_folder ∷ [];
}

after_block : pre_patch search [] no_branch true with_number ≡ ok after
unfolding pre_patch act prepare add_ignores add_ignore starts_with
after_block = refl

pre_patch-Prepared_example :
    (true ≡ true) × Prepared search search-IsFgrep [] no_branch with_number after
pre_patch-Prepared_example =
    pre_patch-Prepared search search-IsFgrep [] no_branch true with_number after after_block

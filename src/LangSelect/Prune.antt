-- ===== src/LangSelect/Prune.antt =====
-- What one loop deletes, as a set of paths that is read off the files before the loop.
use macstrop.Shared.{
  ◌≡◌, refl, sym, ap, ◌∙◌, fun_ext, Bool, false, not, ◌&&◌, ◌||◌, none, some, List, [], ◌∷◌, ◌++◌,
  Bool-cases, Option-cases, inl, inr,
}
use macstrop.Shared.Texts.{Text}
use macstrop.LangSelect.Tree.{
  FilePath, DirEntry, Files, is_under, child_name, is_visible, glob, without, delete, delete_each,
  prune,
}

-- A folder, the pattern of a loop over it, and what the loop keeps.
pub record Rule : Type 0 where
  pub dir : FilePath
  pub pattern : Text → Bool → Bool
  pub keep : Text → Bool

-- A file that the loop deletes is the file at the path, or a folder around it.
abbrev pub takes : Rule → DirEntry → FilePath → Bool
takes r v p = elim (child_name r.dir v.path) [
  | none ↦ false
  | some n ↦
      (is_visible n && r.pattern n v.is_dir) && (not (r.keep n) && is_under (r.dir ++ n ∷ []) p)
]

abbrev pub gone : Rule → Files → FilePath → Bool
gone r [] p = false
gone r (v ∷ t) p = takes r v p || gone r t p

pub without-without :
    (g h : FilePath → Bool) (t : Files) → without h (without g t) ≡ without (λ p. g p || h p) t
unfolding without
without-without g h [] = refl
without-without g h (e ∷ t) = elim (Bool-cases (g e.path)) [
  | inl goes ↦ rw (goes) (without-without g h t)
  | inr stays ↦ elim (Bool-cases (h e.path)) [
    | inl goes ↦ rw (stays, goes) (without-without g h t)
    | inr kept ↦ rw (stays, kept) (ap (λ l. e ∷ l) (without-without g h t))
  ]
]

-- Behind a deletion, only the paths that are left matter.
pub without_if :
    (g h k : FilePath → Bool) (t : Files)
    → ((p : FilePath) → g p ≡ false → h p ≡ k p)
    → without h (without g t) ≡ without (λ p. g p || k p) t
unfolding without
without_if g h k [] same = refl
without_if g h k (e ∷ t) same = elim (Bool-cases (g e.path)) [
  | inl goes ↦ rw (goes) (without_if g h k t same)
  | inr stays ↦ elim (Bool-cases (k e.path)) [
    | inl goes ↦ rw (stays, same e.path stays, goes) (without_if g h k t same)
    | inr kept ↦ rw (stays, same e.path stays, kept) (ap (λ l. e ∷ l) (without_if g h k t same))
  ]
]

pub without_none : (t : Files) → without (λ p. false) t ≡ t
unfolding without
without_none [] = refl
without_none (e ∷ t) = ap (λ l. e ∷ l) (without_none t)

-- The names that are not kept, with what is below them.
abbrev below_names : Rule → List Text → FilePath → Bool
below_names r [] p = false
below_names r (n ∷ ns) p = (not (r.keep n) && is_under (r.dir ++ n ∷ []) p) || below_names r ns p

delete_each-without :
    (r : Rule) (ns : List Text) (t : Files)
    → delete_each r.keep r.dir ns t ≡ without (λ p. below_names r ns p) t
unfolding delete_each delete
delete_each-without r [] t = sym (without_none t)
delete_each-without r (n ∷ ns) t = elim (Bool-cases (r.keep n)) [
  | inl kept ↦ rw (kept) (delete_each-without r ns t)
  | inr lost ↦ rw (lost) (
      delete_each-without r ns (without (is_under (r.dir ++ n ∷ [])) t)
      ∙ without-without (is_under (r.dir ++ n ∷ [])) (λ p. below_names r ns p) t)
]

below_names-gone :
    (r : Rule) (t : Files) (p : FilePath) → below_names r (glob r.pattern r.dir t) p ≡ gone r t p
unfolding glob
below_names-gone r [] p = refl
below_names-gone r (v ∷ t) p = elim (Option-cases (child_name r.dir v.path)) [
  | inl other ↦ rw (other, glob, gone, takes) (below_names-gone r t p)
  | inr (n, is) ↦ elim (Bool-cases (is_visible n && r.pattern n v.is_dir)) [
    | inl found ↦
        rw (is, found, glob, gone, takes)
          (ap (λ b. (not (r.keep n) && is_under (r.dir ++ n ∷ []) p) || b) (below_names-gone r t p))
    | inr hidden ↦ rw (is, hidden, glob, gone, takes) (below_names-gone r t p)
  ]
]

-- A loop over a folder deletes just the files that are gone by its rule, and leaves the others in
-- their order.
pub prune-gone : (r : Rule) (t : Files) → prune r.pattern r.keep r.dir t ≡ without (gone r t) t
unfolding prune
prune-gone r t =
    delete_each-without r (glob r.pattern r.dir t) t
    ∙ ap (λ g. without g t) (fun_ext (λ p. below_names-gone r t p))

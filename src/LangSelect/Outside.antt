-- ===== src/LangSelect/Outside.antt =====
-- Files that stand in none of the folders.
use mathlib.Core.List.{Memᴰ}
use macstrop.Shared.Bools.{true_not_false, and_true}
use macstrop.Shared.{
  ◌≡◌, refl, sym, ap, ◌∙◌, subst, Bool, true, false, not, ◌&&◌, List, [], ◌∷◌, ◌++◌, Bool-cases,
  Option-cases, inl, inr,
}
use macstrop.Shared.Texts.{Text, text_eq_iff}
use macstrop.LangSelect.Tree.{FilePath, DirEntry, Files, child_name, is_visible, is_under, without}
use macstrop.LangSelect.Loops.{Options, prune_all}
use macstrop.LangSelect.Prune.{Rule, gone, takes}
use macstrop.LangSelect.Paths.{is_under_trans}
use macstrop.LangSelect.Rules.{gone_by}
use macstrop.LangSelect.Spec.{rules, prune_all-gone_by}

is_under-append : (d e : FilePath) → is_under d (d ++ e) ≡ true
unfolding is_under
is_under-append [] e = refl
is_under-append (x ∷ xs) e = rw ((text_eq_iff x x).1 refl) (is_under-append xs e)

Memᴰ-without :
    (g : FilePath → Bool) (t : Files) (e : DirEntry)
    → Memᴰ e t
    → g e.path ≡ false
    → Memᴰ e (without g t)
unfolding without
Memᴰ-without g [] e m f = elim m [ ]
Memᴰ-without g (v ∷ t) e (Memᴰ.head same) f =
    rw (sym (ap (λ x. g x.path) same) ∙ f, without) (Memᴰ.head same)
Memᴰ-without g (v ∷ t) e (Memᴰ.tail m) f = elim (Bool-cases (g v.path)) [
  | inl lost ↦ rw (lost, without) (Memᴰ-without g t e m f)
  | inr there ↦ rw (there, without) (Memᴰ.tail (Memᴰ-without g t e m f))
]

takes-outside :
    (r : Rule) (v : DirEntry) (p : FilePath) → is_under r.dir p ≡ false → takes r v p ≡ false
takes-outside r v p out = elim (Bool-cases (takes r v p)) [
  | inr free ↦ free
  | inl taken ↦ elim (Option-cases (child_name r.dir v.path)) [
    | inl other ↦ rw (other, takes) refl
    | inr (n, is) ↦
        let (_, rest) =
          and_true (is_visible n && r.pattern n v.is_dir)
            (not (r.keep n) && is_under (r.dir ++ n ∷ []) p) (rw (is, takes) at taken) in
        let (_, around) = and_true (not (r.keep n)) (is_under (r.dir ++ n ∷ []) p) rest in
        absurd (
          true_not_false (
            sym (is_under_trans r.dir (r.dir ++ n ∷ []) p (is_under-append r.dir (n ∷ [])) around)
            ∙ out))
  ]
]

gone-outside : (r : Rule) (t : Files) (p : FilePath) → is_under r.dir p ≡ false → gone r t p ≡ false
gone-outside r [] p out = refl
gone-outside r (v ∷ t) p out = rw (takes-outside r v p out) (gone-outside r t p out)

gone_by-outside :
    (rs : List Rule) (t : Files) (p : FilePath)
    → ((r : Rule) → Memᴰ r rs → is_under r.dir p ≡ false)
    → gone_by rs t p ≡ false
gone_by-outside [] t p out = refl
gone_by-outside (r ∷ rs) t p out =
    rw (gone-outside r t p (out r (Memᴰ.head refl)))
      (gone_by-outside rs t p (λ s m. out s (Memᴰ.tail m)))

-- A file that is neither one of the folders that the loops go through nor below one of them is still
-- there after the block.
pub prune_all-outside :
    (opts : Options) (keep : List Text) (t : Files) (e : DirEntry)
    → Memᴰ e t
    → ((r : Rule) → Memᴰ r (rules opts keep) → is_under r.dir e.path ≡ false)
    → Memᴰ e (prune_all opts keep t)
prune_all-outside opts keep t e m out = subst (Memᴰ e) (sym (prune_all-gone_by opts keep t)) (
    Memᴰ-without (λ p. gone_by (rules opts keep) t p) t e m
      (gone_by-outside (rules opts keep) t e.path out))

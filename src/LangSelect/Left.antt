-- ===== src/LangSelect/Left.antt =====
-- Which translations are left, and which files the block cannot touch.
use mathlib.Core.List.{Memᴰ}
use mathlib.Core.List.Memᴰ
use macstrop.Shared.Bools.{true_not_false, none_not_some, some_injective, or_false}
use macstrop.Shared.{
  ◌≡◌, refl, sym, ap, ◌∙◌, subst, Bool, true, false, Option, none, some, List, [], ◌∷◌, ◌++◌,
  Bool-cases, inl, inr,
}
use macstrop.Shared.Texts.{Text, text_eq_iff}
use macstrop.LangSelect.Tree.{FilePath, DirEntry, Files, child_name, is_visible, is_under, without}
use macstrop.LangSelect.Loops.{
  Options, prune_all, Locales, post_destroot, is_applicable, read_and_prune,
}
use macstrop.LangSelect.Prune.{Rule, gone, takes}
use macstrop.LangSelect.Paths.{child_name_path}
use macstrop.LangSelect.Rules.{gone_by}
use macstrop.LangSelect.Spec.{rules, prune_all-gone_by, prune_all_twice}

without-Memᴰ :
    (g : FilePath → Bool) (t : Files) (e : DirEntry)
    → Memᴰ e (without g t)
    → Memᴰ e t × (g e.path ≡ false)
unfolding without
without-Memᴰ g [] e m = elim m [ ]
without-Memᴰ g (v ∷ t) e m = elim (Bool-cases (g v.path)) [
  | inl lost ↦ let (n, f) = without-Memᴰ g t e (rw (lost) at m) in (Memᴰ.tail n, f)
  | inr there ↦ elim (Memᴰ.cases_cons (rw (there) at m)) [
    | inl same ↦ (Memᴰ.head same, subst (λ x. g x.path ≡ false) (sym same) there)
    | inr later ↦ let (n, f) = without-Memᴰ g t e later in (Memᴰ.tail n, f)
  ]
]

under_self : (d : FilePath) → is_under d d ≡ true
unfolding is_under
under_self [] = refl
under_self (x ∷ xs) = rw ((text_eq_iff x x).1 refl) (under_self xs)

gone-takes :
    (r : Rule) (t : Files) (v : DirEntry) (p : FilePath)
    → Memᴰ v t
    → gone r t p ≡ false
    → takes r v p ≡ false
gone-takes r [] v p n e = elim n [ ]
gone-takes r (w ∷ t) v p (Memᴰ.head same) e =
    ap (λ x. takes r x p) same ∙ (or_false (takes r w p) (gone r t p) e).0
gone-takes r (w ∷ t) v p (Memᴰ.tail n) e =
    gone-takes r t v p n (or_false (takes r w p) (gone r t p) e).1

gone_by-takes :
    (rs : List Rule) (r : Rule) (t : Files) (v : DirEntry) (p : FilePath)
    → Memᴰ r rs
    → Memᴰ v t
    → gone_by rs t p ≡ false
    → takes r v p ≡ false
gone_by-takes [] r t v p m n e = elim m [ ]
gone_by-takes (s ∷ rs) r t v p (Memᴰ.head same) n e =
    ap (λ x. takes x v p) same ∙ gone-takes s t v p n (or_false (gone s t p) (gone_by rs t p) e).0
gone_by-takes (s ∷ rs) r t v p (Memᴰ.tail m) n e =
    gone_by-takes rs r t v p m n (or_false (gone s t p) (gone_by rs t p) e).1

-- A file that the rule takes for itself is not kept by it.
takes-keeps :
    (r : Rule) (e : DirEntry) (n : Text)
    → child_name r.dir e.path ≡ some n
    → is_visible n ≡ true
    → r.pattern n e.is_dir ≡ true
    → takes r e e.path ≡ false
    → r.keep n ≡ true
takes-keeps r e n is seen fits free = elim (Bool-cases (r.keep n)) [
  | inl kept ↦ kept
  | inr lost ↦
      let here : is_under (r.dir ++ n ∷ []) e.path ≡ true =
        subst (λ x. is_under x e.path ≡ true) (child_name_path r.dir e.path n is)
          (under_self e.path) in
      absurd (true_not_false (rw (is, takes, seen, fits, lost, here) at free))
]

module _ (opts : Options) (keep : List Text) where
  -- A file that is left was there before. In each folder that one of the loops goes through, a
  -- file that is left, is visible and fits the pattern of that loop is one that the loop keeps,
  -- whatever the other loops do.
  pub prune_all-keeps :
      (t : Files) (e : DirEntry)
      → Memᴰ e (prune_all opts keep t)
      → Memᴰ e t
        × ((r : Rule) (n : Text)
            → Memᴰ r (rules opts keep)
            → child_name r.dir e.path ≡ some n
            → is_visible n ≡ true
            → r.pattern n e.is_dir ≡ true
            → r.keep n ≡ true)
  prune_all-keeps t e m =
      let (there, left) =
        without-Memᴰ (λ p. gone_by (rules opts keep) t p) t e
          (subst (Memᴰ e) (prune_all-gone_by opts keep t) m) in
      (
        there,
        λ r n rule is seen fits.
            takes-keeps r e n is seen fits
              (gone_by-takes (rules opts keep) r t e e.path rule there left),
      )

read_and_prune_twice :
    (opts : Options) (sourced : Option (Option (List Text))) (t u : Files)
    → read_and_prune opts sourced t ≡ some u
    → read_and_prune opts sourced u ≡ some u
unfolding read_and_prune
read_and_prune_twice opts none t u e = absurd (none_not_some e)
read_and_prune_twice opts (some none) t u e = refl
read_and_prune_twice opts (some (some keep)) t u e =
    let is = some_injective e in
    ap some (ap (prune_all opts keep) (sym is) ∙ (prune_all_twice opts keep t ∙ is))

-- When the block ended well, running it again on what it left ends well too and deletes nothing,
-- with the same options and the same file of languages.
pub post_destroot_twice :
    (opts : Options) (locales : Locales) (t u : Files)
    → post_destroot opts locales t ≡ some u
    → post_destroot opts locales u ≡ some u
unfolding post_destroot
post_destroot_twice opts locales t u e = elim (Bool-cases (is_applicable opts locales u)) [
  | inr skips ↦ rw (skips) refl
  | inl reads ↦ elim (Bool-cases (is_applicable opts locales t)) [
    | inl read ↦ rw (reads) (read_and_prune_twice opts locales.sourced t u (rw (read) at e))
    | inr skipped ↦
        let same : t ≡ u = some_injective (rw (skipped) at e) in
        absurd (true_not_false (sym reads ∙ (ap (is_applicable opts locales) (sym same) ∙ skipped)))
  ]
]

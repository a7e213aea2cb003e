-- ===== src/LangSelect/Rules.antt =====
-- Several loops one after the other, and what they delete together.
use macstrop.Shared.Bools.{false_not_true, or_same, or_right, and_true}
use macstrop.Shared.{
  ◌≡◌, refl, sym, ap, ap₂, ◌∙◌, subst, fun_ext, Bool, true, false, not, ◌&&◌, ◌||◌, List, [], ◌∷◌,
  ◌++◌, Bool-cases, Option-cases, inl, inr,
}
use macstrop.LangSelect.Tree.{
  FilePath, DirEntry, Files, is_under, child_name, is_visible, without, prune,
}
use macstrop.LangSelect.Prune.{Rule, takes, gone, without_if, without_none, prune-gone}
use macstrop.LangSelect.Paths.{child_name_path, is_under_trans}

-- A set of paths that has all that is below a path in it.
abbrev IsClosed : (FilePath → Bool) → Type 0
IsClosed g = (a b : FilePath) → is_under a b ≡ true → g a ≡ true → g b ≡ true

or_true : (a b : Bool) → (a || b) ≡ true → (a ≡ false) → b ≡ true
or_true true b e f = cc
or_true false b e f = e

takes-below :
    (r : Rule) (v : DirEntry) (a b : FilePath)
    → is_under a b ≡ true
    → takes r v a ≡ true
    → takes r v b ≡ true
takes-below r v a b u e = elim (Option-cases (child_name r.dir v.path)) [
  | inl other ↦ absurd (false_not_true (rw (other, takes) at e))
  | inr (n, is) ↦
      let (found, rest) =
        and_true (is_visible n && r.pattern n v.is_dir)
          (not (r.keep n) && is_under (r.dir ++ n ∷ []) a) (rw (is, takes) at e) in
      let (lost, around) = and_true (not (r.keep n)) (is_under (r.dir ++ n ∷ []) a) rest in
      rw (is, takes, found, lost) (is_under_trans (r.dir ++ n ∷ []) a b around u)
]

gone-IsClosed : (r : Rule) (t : Files) → IsClosed (gone r t)
gone-IsClosed r [] a b u e = e
gone-IsClosed r (v ∷ t) a b u e = elim (Bool-cases (takes r v a)) [
  | inl taken ↦ rw (takes-below r v a b u taken) refl
  | inr left ↦
      or_right (takes r v b) (gone r t b)
        (gone-IsClosed r t a b u (or_true (takes r v a) (gone r t a) e left))
]

-- A file is at the path of its name in its folder.
takes_around :
    (s : Rule) (v : DirEntry) (p : FilePath) → takes s v p ≡ true → is_under v.path p ≡ true
takes_around s v p e = elim (Option-cases (child_name s.dir v.path)) [
  | inl other ↦ absurd (false_not_true (rw (other, takes) at e))
  | inr (n, is) ↦
      let (found, rest) =
        and_true (is_visible n && s.pattern n v.is_dir)
          (not (s.keep n) && is_under (s.dir ++ n ∷ []) p) (rw (is, takes) at e) in
      let (lost, around) = and_true (not (s.keep n)) (is_under (s.dir ++ n ∷ []) p) rest in
      subst (λ x. is_under x p ≡ true) (sym (child_name_path s.dir v.path n is)) around
]

-- What another loop deletes is the same for a path that is left, though files are gone by then.
gone-left :
    (s : Rule) (g : FilePath → Bool) (t : Files) (p : FilePath)
    → IsClosed g
    → g p ≡ false
    → gone s (without g t) p ≡ gone s t p
unfolding without
gone-left s g [] p closed left = refl
gone-left s g (v ∷ t) p closed left = elim (Bool-cases (g v.path)) [
  | inl lost ↦ elim (Bool-cases (takes s v p)) [
    | inl taken ↦
        absurd (false_not_true (sym left ∙ closed v.path p (takes_around s v p taken) lost))
    | inr free ↦ rw (lost, without, free) (gone-left s g t p closed left)
  ]
  | inr there ↦ rw (there, without) (ap (λ b. takes s v p || b) (gone-left s g t p closed left))
]

-- The loops one after the other, and what each of them deletes when it is alone.
abbrev pub apply_rules : List Rule → Files → Files
apply_rules [] t = t
apply_rules (r ∷ rs) t = apply_rules rs (prune r.pattern r.keep r.dir t)

abbrev pub gone_by : List Rule → Files → FilePath → Bool
gone_by [] t p = false
gone_by (r ∷ rs) t p = gone r t p || gone_by rs t p

gone_by-left :
    (rs : List Rule) (g : FilePath → Bool) (t : Files) (p : FilePath)
    → IsClosed g
    → g p ≡ false
    → gone_by rs (without g t) p ≡ gone_by rs t p
gone_by-left [] g t p closed left = refl
gone_by-left (r ∷ rs) g t p closed left =
    ap₂ (λ a b. a || b) (gone-left r g t p closed left) (gone_by-left rs g t p closed left)

pub apply_rules-gone_by :
    (rs : List Rule) (t : Files) → apply_rules rs t ≡ without (λ p. gone_by rs t p) t
apply_rules-gone_by [] t = sym (without_none t)
apply_rules-gone_by (r ∷ rs) t =
    ap (apply_rules rs) (prune-gone r t)
    ∙ (apply_rules-gone_by rs (without (gone r t) t)
        ∙ without_if (gone r t) (λ p. gone_by rs (without (gone r t) t) p) (λ p. gone_by rs t p) t
            (λ p left. gone_by-left rs (gone r t) t p (gone-IsClosed r t) left))

gone_by-IsClosed : (rs : List Rule) (t : Files) → IsClosed (λ p. gone_by rs t p)
gone_by-IsClosed [] t a b u e = e
gone_by-IsClosed (r ∷ rs) t a b u e = elim (Bool-cases (gone r t a)) [
  | inl taken ↦ rw (gone-IsClosed r t a b u taken) refl
  | inr left ↦
      or_right (gone r t b) (gone_by rs t b)
        (gone_by-IsClosed rs t a b u (or_true (gone r t a) (gone_by rs t a) e left))
]

-- The loops a second time delete nothing.
pub apply_rules_twice :
    (rs : List Rule) (t : Files) → apply_rules rs (apply_rules rs t) ≡ apply_rules rs t
apply_rules_twice rs t =
    apply_rules-gone_by rs (apply_rules rs t)
    ∙ (ap (λ u. without (λ p. gone_by rs u p) u) (apply_rules-gone_by rs t)
        ∙ (without_if (λ p. gone_by rs t p) (λ p. gone_by rs (without (λ q. gone_by rs t q) t) p)
              (λ p. gone_by rs t p) t
              (λ p left. gone_by-left rs (λ q. gone_by rs t q) t p (gone_by-IsClosed rs t) left)
            ∙ (ap (λ g. without g t) (fun_ext (λ p. or_same (gone_by rs t p)))
                ∙ sym (apply_rules-gone_by rs t))))

pub apply_rules-append :
    (rs ss : List Rule) (t : Files) → apply_rules (rs ++ ss) t ≡ apply_rules ss (apply_rules rs t)
apply_rules-append [] ss t = refl
apply_rules-append (r ∷ rs) ss t = apply_rules-append rs ss (prune r.pattern r.keep r.dir t)

-- ===== src/LangSelect/Paths.antt =====
-- Folders around files.
use macstrop.Shared.Bools.{none_not_some, some_injective, and_true}
use macstrop.Shared.{◌≡◌, refl, sym, ap, ap₂, ◌∙◌, true, some, [], ◌∷◌, ◌++◌, Bool-cases, inl, inr}
use macstrop.Shared.Texts.{Text, text_eq, text_eq_iff}
use macstrop.LangSelect.Tree.{FilePath, is_under, child_name}

pub child_name_path : (d p : FilePath) (n : Text) → child_name d p ≡ some n → p ≡ d ++ n ∷ []
unfolding child_name
child_name_path [] [] n e = absurd (none_not_some e)
child_name_path [] (m ∷ []) n e = ap (λ x. x ∷ []) (some_injective e)
child_name_path [] (m ∷ k ∷ ms) n e = absurd (none_not_some e)
child_name_path (d ∷ ds) [] n e = absurd (none_not_some e)
child_name_path (d ∷ ds) (m ∷ ms) n e = elim (Bool-cases (text_eq d m)) [
  | inl same ↦
      ap₂ (λ x xs. x ∷ xs) (sym ((text_eq_iff d m).0 same))
        (child_name_path ds ms n (rw (same) at e))
  | inr other ↦ absurd (none_not_some (rw (other) at e))
]

pub child_name-is_under :
    (d p : FilePath) (n : Text) → child_name d p ≡ some n → is_under d p ≡ true
unfolding child_name is_under
child_name-is_under [] p n e = refl
child_name-is_under (d ∷ ds) [] n e = absurd (none_not_some e)
child_name-is_under (d ∷ ds) (m ∷ ms) n e = elim (Bool-cases (text_eq d m)) [
  | inl same ↦ rw (same) (child_name-is_under ds ms n (rw (same) at e))
  | inr other ↦ absurd (none_not_some (rw (other) at e))
]

pub is_under_trans :
    (a b c : FilePath) → is_under a b ≡ true → is_under b c ≡ true → is_under a c ≡ true
unfolding is_under
is_under_trans [] b c u v = refl
is_under_trans (x ∷ xs) [] c u v = cc
is_under_trans (x ∷ xs) (y ∷ ys) [] u v = cc
is_under_trans (x ∷ xs) (y ∷ ys) (z ∷ zs) u v =
    let first : (text_eq x y ≡ true) × (is_under xs ys ≡ true) =
      and_true (text_eq x y) (is_under xs ys) u in
    let second : (text_eq y z ≡ true) × (is_under ys zs ≡ true) =
      and_true (text_eq y z) (is_under ys zs) v in
    let same = (text_eq_iff x z).1 ((text_eq_iff x y).0 first.0 ∙ (text_eq_iff y z).0 second.0) in
    rw (same) (is_under_trans xs ys zs first.1 second.1)

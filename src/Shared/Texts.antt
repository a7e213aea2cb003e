-- ===== src/Shared/Texts.antt =====
-- Texts as lists of characters, for code that takes names apart.
use Prim.Native.Nat.{ℕ}
use mathlib.Core.Path.{◌≡◌, refl, ap, ◌∙◌}
use mathlib.Core.Logic.{◌↔◌}
use mathlib.Core.Bool.{Bool, true, false, ◌&&◌, ◌||◌}
use mathlib.Core.List.{List, [], ◌∷◌, ◌++◌}
use native.Mathlib.Omega.{arith}
use macstrop.Shared.Bools.{or_assoc}
use macstrop.Shared.Tests.{◌==◌}

abbrev pub Text : Type 0
Text = List ℕ

unfoldable pub text_eq : Text → Text → Bool
text_eq [] [] = true
text_eq [] (y ∷ ys) = false
text_eq (x ∷ xs) [] = false
text_eq (x ∷ xs) (y ∷ ys) = x == y && text_eq xs ys

pub text_eq_iff : (xs ys : Text) → (text_eq xs ys ≡ true) ↔ (xs ≡ ys)
unfolding text_eq
text_eq_iff [] [] = (λ _. refl, λ _. refl)
text_eq_iff [] (y ∷ ys) = (λ e. cc, λ e. cc)
text_eq_iff (x ∷ xs) [] = (λ e. cc, λ e. cc)
text_eq_iff (x ∷ xs) (y ∷ ys) =
    (λ h. ground (arith, (text_eq_iff xs ys).0), λ e. ground (arith, (text_eq_iff xs ys).1))

-- Whether a text has a character.
unfoldable pub has_char : ℕ → Text → Bool
has_char c [] = false
has_char c (d ∷ ds) = d == c || has_char c ds

-- Whether a list has a text: `lsearch -exact`.
unfoldable pub is_listed : List Text → Text → Bool
unfolding text_eq
is_listed [] name = false
is_listed (l ∷ ls) name = text_eq l name || is_listed ls name

pub is_listed-append :
    (xs ys : List Text) (x : Text) → is_listed (xs ++ ys) x ≡ (is_listed xs x || is_listed ys x)
unfolding is_listed
is_listed-append [] ys x = refl
is_listed-append (z ∷ xs) ys x =
    ap (λ b. text_eq z x || b) (is_listed-append xs ys x)
    ∙ or_assoc (text_eq z x) (is_listed xs x) (is_listed ys x)

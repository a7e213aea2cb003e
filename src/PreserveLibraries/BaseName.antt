-- ===== src/PreserveLibraries/BaseName.antt =====
-- `PRL::callback`: the base name of a library, and the patterns that are made from it.
use macstrop.Shared.{
  ℕ, zero, suc, Bool, true, false, ◌||◌, Option, none, some, List, [], ◌∷◌, ◌++◌, if◌then◌else◌,
  ◌==◌, not,
}
use macstrop.Shared.Texts.{Text, has_char}
use macstrop.Shared.Options.{◌>>=◌}

-- `file root` of a name that has no slash: what stands before its last dot, or all of it.
unfoldable pub file_root : Text → Text
unfolding has_char
file_root [] = []
file_root (c ∷ cs) =
    let rest = c ∷ file_root cs in
    if has_char b'.' cs then rest else if c == b'.' then [] else c ∷ cs

unfoldable pub text_ne : Text → Text → Bool
text_ne [] [] = false
text_ne [] (y ∷ ys) = true
text_ne (x ∷ xs) [] = true
text_ne (x ∷ xs) (y ∷ ys) = not (x == y) || text_ne xs ys

-- `while {${rf} ne ${f}} {…}`; `none` is a loop that goes on after so many rounds.
unfoldable pub base_loop : ℕ → Text → Text → Option Text
unfolding file_root text_ne
base_loop zero f rf = none
base_loop (suc fuel) f rf =
    let again = base_loop fuel rf (file_root rf) in if text_ne rf f then again else some f

unfoldable pub base_name : ℕ → Text → Option Text
unfolding base_loop file_root
base_name fuel f = base_loop fuel f (file_root f)

-- ".*", ".so" and ".dylib"
abbrev dot_star : Text
dot_star = b'.' ∷ b'*' ∷ []

abbrev dot_so : Text
dot_so = b'.' ∷ b's' ∷ b'o' ∷ []

abbrev dot_dylib : Text
dot_dylib = b'.' ∷ b'd' ∷ b'y' ∷ b'l' ∷ b'i' ∷ b'b' ∷ []

-- The patterns for a library, on OS X and elsewhere.
unfoldable pub patterns_for : Bool → Text → List Text
patterns_for true f = (f ++ (dot_star ++ dot_dylib)) ∷ []
patterns_for false f = (f ++ (dot_so ++ dot_star)) ∷ (f ++ (dot_star ++ (dot_so ++ dot_star))) ∷ []

-- `foreach f ${own}`, with fuel for each name.
unfoldable pub callback_patterns : Bool → ℕ → List Text → Option (List Text)
unfolding base_name patterns_for
callback_patterns darwin fuel [] = some []
callback_patterns darwin fuel (f ∷ own) = do
  base ← base_name fuel f
  more ← callback_patterns darwin fuel own
  some (patterns_for darwin base ++ more)

-- ===== src/PreserveLibraries/BaseNames.antt =====
-- The loop for the base name of a library comes to what stands before the first dot.
use mathlib.Core.List.{Memᴰ}
use macstrop.Shared.{
  ℕ, zero, suc, ◌<◌, ◌≡◌, refl, sym, ap, ◌∙◌, Bool, true, false, some, List, [], ◌∷◌, if◌then◌else◌,
  arith, length, Bool-cases, inl, inr, ◌==◌,
}
use macstrop.Shared.Texts.{Text, has_char}
use macstrop.PreserveLibraries.BaseName.{
  file_root, text_ne, base_loop, base_name, patterns_for, callback_patterns,
}
use macstrop.PreserveLibraries.Preserve.{flat}

abbrev pub before_dot : Text → Text
before_dot [] = []
before_dot (c ∷ cs) = if c == b'.' then [] else c ∷ before_dot cs

text_ne_self : (f : Text) → text_ne f f ≡ false
unfolding text_ne
text_ne_self [] = refl
text_ne_self (c ∷ cs) = ground (arith, text_ne_self cs)

before_dot-no_dot : (f : Text) → has_char b'.' f ≡ false → before_dot f ≡ f
unfolding has_char
before_dot-no_dot [] h = refl
before_dot-no_dot (c ∷ cs) h = ground (arith, before_dot-no_dot cs)

file_root-no_dot : (f : Text) → has_char b'.' f ≡ false → file_root f ≡ f
unfolding has_char file_root
file_root-no_dot [] h = refl
file_root-no_dot (c ∷ cs) h = ground (arith, file_root-no_dot cs)

before_dot-file_root : (f : Text) → before_dot (file_root f) ≡ before_dot f
unfolding has_char file_root
before_dot-file_root [] = refl
before_dot-file_root (c ∷ cs) = ground (arith, before_dot-file_root cs)

-- With a dot the name gets shorter.
length-file_root : (f : Text) → has_char b'.' f ≡ true → length (file_root f) < length f
unfolding has_char file_root
length-file_root [] h = cc
length-file_root (c ∷ cs) h = ground (arith, length-file_root cs)

text_ne-length : (f g : Text) → length f < length g → text_ne f g ≡ true
unfolding text_ne
text_ne-length [] [] h = absurd (omega (arith, h))
text_ne-length [] (d ∷ ds) h = refl
text_ne-length (c ∷ cs) [] h = refl
text_ne-length (c ∷ cs) (d ∷ ds) h = ground (arith, text_ne-length cs ds, h)

base_loop-before_dot :
    (fuel : ℕ) (f : Text) → length f < fuel → base_loop fuel f (file_root f) ≡ some (before_dot f)
unfolding base_loop
base_loop-before_dot zero f h = absurd (omega (arith, h))
base_loop-before_dot (suc fuel) f h = elim (Bool-cases (has_char b'.' f)) [
  | inl dot ↦
      let shorter = length-file_root f dot in
      rw (text_ne-length (file_root f) f shorter) (
        base_loop-before_dot fuel (file_root f) (omega (arith, shorter, h))
        ∙ ap some (before_dot-file_root f))
  | inr no_dot ↦
      let stays = file_root-no_dot f no_dot in
      let ends : text_ne (file_root f) f ≡ false = ap (λ g. text_ne g f) stays ∙ text_ne_self f in
      rw ends (ap some (sym (before_dot-no_dot f no_dot)))
]

-- With more rounds for each name than the name has characters, every loop of the callback ends, and the
-- patterns are made from what stands in each name before its first dot.
pub callback_patterns-before_dot :
    (darwin : Bool) (fuel : ℕ) (own : List Text)
    → ((f : Text) → Memᴰ f own → length f < fuel)
    → callback_patterns darwin fuel own ≡ some (flat (λ f. patterns_for darwin (before_dot f)) own)
unfolding callback_patterns base_name flat
callback_patterns-before_dot darwin fuel [] h = refl
callback_patterns-before_dot darwin fuel (f ∷ own) h =
    let here = base_loop-before_dot fuel f (h f (Memᴰ.head refl)) in
    let others = callback_patterns-before_dot darwin fuel own (λ g m. h g (Memᴰ.tail m)) in
    rw (here, others) refl

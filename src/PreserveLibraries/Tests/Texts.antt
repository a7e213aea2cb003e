-- ===== src/PreserveLibraries/Tests/Texts.antt =====
-- Witnesses: the base name of `liba.1`, and a search path that has its directory already.
use mathlib.Core.List.{Memᴰ}
use mathlib.Core.List.Memᴰ
use macstrop.Shared.{
  true, ◌≡◌, ◌<◌, refl, sym, subst, false, some, List, [], ◌∷◌, ◌++◌, arith, length,
}
use macstrop.PreserveLibraries.Preserve.{flat}
use macstrop.Shared.Texts.{Text, has_char}
use macstrop.PreserveLibraries.BaseName.{patterns_for, callback_patterns}
use macstrop.PreserveLibraries.BaseNames.{before_dot, callback_patterns-before_dot}
use macstrop.PreserveLibraries.Update.{
  Patchelf, shrink_rpath, set_rpath, is_absolute, file_join, update_preserved_libraries,
  update_preserved_libraries_lem,
}
use macstrop.PreserveLibraries.Rpath.{TclLists, IsTcl, is_plain, all_plain}

abbrev liba_1 : Text
liba_1 = b'l' ∷ b'i' ∷ b'b' ∷ b'a' ∷ b'.' ∷ b'1' ∷ []

short : (f : Text) → Memᴰ f (liba_1 ∷ []) → length f < 7
short f m = subst (λ (g : Text). length g < 7) (sym (Memᴰ.eq_of_singleton m)) (omega arith)

callback_patterns-before_dot_example :
    callback_patterns false 7 (liba_1 ∷ [])
    ≡ some (flat (λ f. patterns_for false (before_dot f)) (liba_1 ∷ []))
callback_patterns-before_dot_example = callback_patterns-before_dot false 7 (liba_1 ∷ []) short

-- Words with blanks between them.
abbrev join : List Text → Text
join [] = []
join (t ∷ ts) = t ++ b' ' ∷ join ts

abbrev tcl : TclLists
tcl = record { as_list = λ t. t ∷ []; as_text = join }

has-join :
    (t : Text) (rest : Text)
    → has_char b':' t ≡ false
    → has_char b':' rest ≡ false
    → has_char b':' (t ++ b' ' ∷ rest) ≡ false
unfolding has_char
has-join [] rest h k = k
has-join (c ∷ cs) rest h k = ground (arith, has-join cs rest)

join-no_colon :
    (ts : List Text)
    → ((t : Text) → Memᴰ t ts → has_char b':' t ≡ false)
    → has_char b':' (join ts) ≡ false
unfolding has_char
join-no_colon [] h = refl
join-no_colon (t ∷ ts) h =
    has-join t (join ts) (h t (Memᴰ.head refl)) (join-no_colon ts (λ u m. h u (Memᴰ.tail m)))

tcl-IsTcl : IsTcl tcl
tcl-IsTcl = record { one_word = λ t h k. refl; no_colon = join-no_colon }

-- The directory "/p".
abbrev dir : Text
dir = b'/' ∷ b'p' ∷ []

-- One library, which has the directory in its path; the disk has none of the preserved names.
abbrev elf : Patchelf
elf = record { soname = λ lib. liba_1; rpath = λ lib. dir; there = λ path. false }

abbrev destroot : Text
destroot = b'/' ∷ b'd' ∷ []

dir_plain : (lib : Text) → Memᴰ lib (liba_1 ∷ []) → all_plain (dir ++ b':' ∷ elf.rpath lib) ≡ true
unfolding all_plain is_plain
dir_plain lib m = refl

update_preserved_libraries_lem_example :
    update_preserved_libraries tcl elf destroot dir true (liba_1 ∷ [])
    ≡ shrink_rpath liba_1 ∷ set_rpath (dir ++ b':' ∷ dir) liba_1 ∷ []
unfolding is_absolute file_join flat
update_preserved_libraries_lem_example =
    update_preserved_libraries_lem tcl elf destroot dir refl (liba_1 ∷ []) tcl-IsTcl dir_plain

-- ===== src/PreserveLibraries/Tests/Mach.antt =====
-- One library of a preserved directory on OS X.
use mathlib.Core.List.{Memᴰ}
use macstrop.Shared.Bools.{false_not_true, or_nothing, or_assoc}
use macstrop.Shared.{
  ◌≡◌, ℕ, refl, sym, ap, ◌∙◌, Bool, true, false, ◌||◌, ◌&&◌, ◌==◌, none, some, List, [], ◌∷◌, ◌++◌,
  map, if◌then◌else◌,
}
use macstrop.Shared.Texts.{Text, text_eq, text_eq_iff, has_char, is_listed}
use macstrop.TclNames.{file_tail}
use macstrop.PreserveLibraries.Preserve.{flat}
use macstrop.PreserveLibraries.Update.{file_join, is_absolute}
use macstrop.PreserveLibraries.UpdateMach.{
  Otool, made, stopped, all_dylibs, matching, update_preserved_libraries_mach,
}
use macstrop.PreserveLibraries.MachNames.{
  id_of, renamed, update_preserved_libraries_mach_pattern, update_preserved_libraries_mach_lem,
}

-- "/d", "/l", "/l/a" and "/d/l/a".
abbrev destroot : Text
destroot = b'/' ∷ b'd' ∷ []

abbrev dir : Text
dir = b'/' ∷ b'l' ∷ []

abbrev path : Text
path = dir ++ b'/' ∷ b'a' ∷ []

abbrev staged : Text
staged = destroot ++ path

abbrev otool : Otool
otool = record {
  install_name = λ file. if text_eq staged file then some (b'a' ∷ []) else none;
  there = λ file. text_eq staged file;
}

abbrev is_a : Text → Text
is_a file = b'a' ∷ []

fails : (file : Text) → otool.there file ≡ false → otool.install_name file ≡ none
fails file e = rw (e) refl

not_twice : otool.there (destroot ++ staged) ≡ false
unfolding text_eq
not_twice = refl

update_preserved_libraries_mach_pattern_example :
    update_preserved_libraries_mach otool destroot dir true (matching (staged ∷ [])) ≡ stopped []
update_preserved_libraries_mach_pattern_example =
    update_preserved_libraries_mach_pattern otool destroot dir (staged ∷ []) staged fails
      (Memᴰ.head refl) not_twice

found : (lib : Text) → Memᴰ lib (staged ∷ []) → otool.install_name lib ≡ some (is_a lib)
unfolding text_eq
found lib (Memᴰ.head same) = ap (λ x. otool.install_name x) same
found lib (Memᴰ.tail m) = elim m [ ]

there : (file : Text) → otool.there file ≡ true → otool.install_name file ≡ some (is_a file)
there file e = rw (e) refl

has_char-append : (c : ℕ) (a b : Text) → has_char c (a ++ b) ≡ (has_char c a || has_char c b)
unfolding has_char
has_char-append c [] b = refl
has_char-append c (x ∷ a) b =
    ap (λ v. x == c || v) (has_char-append c a b) ∙ or_assoc (x == c) (has_char c a) (has_char c b)

some_true : (u v : Bool) → ((u || true) || v) ≡ true
some_true true v = refl
some_true false v = refl

-- "/l/a" has no d.
absent :
    (x a b : Text)
    → is_listed (map (id_of otool destroot dir is_a is_a) (staged ∷ [])) x ≡ true
    → x ≡ a ++ destroot ++ b
    → ⊥
unfolding is_listed file_join is_absolute file_tail has_char
absent x a b one e =
    let same : path ≡ x = (text_eq_iff path x).0 (sym (or_nothing (text_eq path x)) ∙ one) in
    let with_d : has_char b'd' (a ++ destroot ++ b) ≡ true =
      has_char-append b'd' (a ++ destroot) b
      ∙ (ap (λ v. v || has_char b'd' b) (has_char-append b'd' a destroot)
          ∙ some_true (has_char b'd' a) (has_char b'd' b)) in
    false_not_true (ap (has_char b'd') (same ∙ e) ∙ with_d)

update_preserved_libraries_mach_lem_example :
    (ids : List Text) × ((x : Text)
      → is_listed ids x ≡ (
          otool.there (destroot ++ x)
          && is_listed (map (id_of otool destroot dir is_a is_a) (staged ∷ [])) x))
    × (update_preserved_libraries_mach otool destroot dir true (all_dylibs (staged ∷ []))
        ≡ made (flat (renamed otool destroot dir is_a is_a ids) ids) tt)
update_preserved_libraries_mach_lem_example =
    update_preserved_libraries_mach_lem otool destroot dir is_a is_a (staged ∷ []) found there
      absent

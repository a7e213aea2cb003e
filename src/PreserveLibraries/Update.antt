-- ===== src/PreserveLibraries/Update.antt =====
-- `update_preserved_libraries` of other platforms than OS X, as the calls of patchelf that change a library.
use mathlib.Core.List.{Memᴰ}
use macstrop.Shared.Bools.{or_same}
use macstrop.Shared.{
  ◌≡◌, refl, ap, ap₂, ◌∙◌, Bool, true, false, ◌||◌, Option, none, some, List, [], ◌∷◌, ◌++◌, map,
  if◌then◌else◌, Bool-cases, inl, inr, ◌==◌,
}
use macstrop.Shared.Texts.{Text}
use macstrop.PreserveLibraries.Preserve.{flat}
use macstrop.PreserveLibraries.Rpath.{TclLists, IsTcl, all_plain, new_rpath, new_rpath_always}

-- `patchelf --shrink-rpath`, `--set-rpath` and `--replace-needed`; the library stands last.
pub data Command : Type 0 where
  shrink_rpath : Text → Command
  set_rpath : Text → Text → Command
  replace_needed : Text → Text → Text → Command

unfoldable pub is_absolute : Text → Bool
is_absolute [] = false
is_absolute (c ∷ cs) = c == b'/'

-- `file join` of two names that do not end in a slash: an absolute name discards what stands before it.
unfoldable pub file_join : Text → Text → Text
unfolding is_absolute
file_join a [] = a
file_join a (c ∷ cs) = if is_absolute (c ∷ cs) then c ∷ cs else a ++ b'/' ∷ c ∷ cs

-- What patchelf prints of a library: the last part of its name, and its path after `--shrink-rpath`.
-- `there` is `file exists`.
pub record Patchelf : Type 0 where
  pub soname : Text → Text
  pub rpath : Text → Text
  pub there : Text → Bool

module _ (tcl : TclLists) (elf : Patchelf) (destroot dir : Text) where
  -- `dict for {id info} ${sonames}`
  unfoldable pub replacements : Text → List Text → List Command
  unfolding file_join
  replacements lib [] = []
  replacements lib (soname ∷ sonames) =
      let sopath = file_join dir soname in
      let rest = replacements lib sonames in
      if elf.there sopath || elf.there (file_join destroot sopath)
      then replace_needed soname sopath lib ∷ rest
      else rest

  unfoldable pub rpath_commands : Text → List Command
  unfolding new_rpath
  rpath_commands lib = elim (new_rpath tcl dir (elf.rpath lib)) [
    | none ↦ []
    | some path ↦ set_rpath path lib ∷ []
  ]

  -- The body of the second loop.
  unfoldable pub update_library : List Text → Text → List Command
  unfolding replacements rpath_commands
  update_library sonames lib = shrink_rpath lib ∷ (rpath_commands lib ++ replacements lib sonames)

  -- Both loops, over the libraries that `glob` finds.
  unfoldable pub update_preserved_libraries : Bool → List Text → List Command
  unfolding flat update_library
  update_preserved_libraries enabled libs =
      if enabled then flat (update_library (map elf.soname libs)) libs else []

is_absolute-append : (d s : Text) → is_absolute d ≡ true → is_absolute (d ++ s) ≡ true
unfolding is_absolute
is_absolute-append [] s h = cc
is_absolute-append (c ∷ cs) s h = h

is_absolute-file_join : (d s : Text) → is_absolute d ≡ true → is_absolute (file_join d s) ≡ true
unfolding file_join
is_absolute-file_join d [] h = h
is_absolute-file_join d (c ∷ cs) h = elim (Bool-cases (is_absolute (c ∷ cs))) [
  | inl e ↦ rw (e, file_join) e
  | inr e ↦ rw (e, file_join) (is_absolute-append d (b'/' ∷ c ∷ cs) h)
]

file_join-absolute : (a b : Text) → is_absolute b ≡ true → file_join a b ≡ b
unfolding file_join is_absolute
file_join-absolute a [] h = cc
file_join-absolute a (c ∷ cs) h = rw h refl

module _ (tcl : TclLists) (elf : Patchelf) (destroot dir : Text)
    (absolute : is_absolute dir ≡ true) where
  -- The replacements for the names of libraries that are installed already.
  abbrev pub installed_replacements : Text → List Text → List Command
  installed_replacements lib [] = []
  installed_replacements lib (soname ∷ sonames) =
      if elf.there (file_join dir soname)
      then replace_needed soname (file_join dir soname) lib ∷ installed_replacements lib sonames
      else installed_replacements lib sonames

  replacements-installed :
      (lib : Text) (sonames : List Text)
      → replacements tcl elf destroot dir lib sonames ≡ installed_replacements lib sonames
  unfolding replacements
  replacements-installed lib [] = refl
  replacements-installed lib (soname ∷ sonames) =
      let sopath : Text = file_join dir soname in
      let same : (elf.there sopath || elf.there (file_join destroot sopath)) ≡ elf.there sopath =
        ap (λ p. elf.there sopath || elf.there p)
          (file_join-absolute destroot sopath (is_absolute-file_join dir soname absolute))
        ∙ or_same (elf.there sopath) in
      rw (same, replacements-installed lib sonames) refl

  abbrev pub updated : List Text → Text → List Command
  updated sonames lib =
      shrink_rpath lib
      ∷ set_rpath (dir ++ b':' ∷ elf.rpath lib) lib
      ∷ installed_replacements lib sonames

  update_library-updated :
      (sonames : List Text) (lib : Text)
      → IsTcl tcl
      → all_plain (dir ++ b':' ∷ elf.rpath lib) ≡ true
      → update_library tcl elf destroot dir sonames lib ≡ updated sonames lib
  unfolding update_library rpath_commands
  update_library-updated sonames lib is plain =
      let commands : Option Text → List Command =
        λ x. elim x [ none ↦ [] | some path ↦ set_rpath path lib ∷ [] ] in
      ap₂ (λ x y. shrink_rpath lib ∷ (commands x ++ y))
        (new_rpath_always tcl dir (elf.rpath lib) is plain) (replacements-installed lib sonames)

  -- Let Tcl take a text without special characters for a list of one word, and put no colon into
  -- the text of a list whose words have none. Where the variant is set, the directory absolute,
  -- and neither it nor a path has a character that is special in a list of Tcl: each library is
  -- shrunk, gets the directory before its path whatever the path has, and has exactly those names
  -- of libraries replaced that the directory has on the disk, whatever the destroot has.
  pub update_preserved_libraries_lem :
      (libs : List Text)
      → IsTcl tcl
      → ((lib : Text) → Memᴰ lib libs → all_plain (dir ++ b':' ∷ elf.rpath lib) ≡ true)
      → update_preserved_libraries tcl elf destroot dir true libs
        ≡ flat (updated (map elf.soname libs)) libs
  unfolding update_preserved_libraries flat
  update_preserved_libraries_lem libs is plain = go libs plain
    where
      go :
          (ls : List Text)
          → ((lib : Text) → Memᴰ lib ls → all_plain (dir ++ b':' ∷ elf.rpath lib) ≡ true)
          → flat (update_library tcl elf destroot dir (map elf.soname libs)) ls
            ≡ flat (updated (map elf.soname libs)) ls
      go [] h = refl
      go (l ∷ ls) h =
          ap₂ (λ x y. x ++ y)
            (update_library-updated (map elf.soname libs) l is (h l (Memᴰ.head refl)))
            (go ls (λ k m. h k (Memᴰ.tail m)))

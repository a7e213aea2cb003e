-- ===== src/PreserveLibraries/MachNames.antt =====
-- What install_name_tool is told on OS X, with and without a pattern.
use mathlib.Core.List.{Memᴰ}
use macstrop.Shared.Bools.{or_nothing, and_false, or_right, and_true}
use macstrop.Shared.{
  ◌≡◌, refl, sym, ap, ap₂, ◌∙◌, Bool, true, false, not, ◌&&◌, ◌||◌, none, some, List, [], ◌∷◌, ◌++◌,
  map, if◌then◌else◌, Bool-cases, Option-cases, inl, inr,
}
use macstrop.Shared.Texts.{Text, text_eq, text_eq_iff, is_listed, is_listed-append}
use macstrop.TclNames.{file_tail, remove, remove_absent}
use macstrop.PreserveLibraries.Preserve.{flat}
use macstrop.PreserveLibraries.Update.{file_join}
use macstrop.PreserveLibraries.UpdateMach.{
  MachCommand, set_id, change, Otool, SoName, made, stopped, behind, ◌>>=◌, exec_otool, add_id,
  library_ids, so_names, changes, update_mach_libraries, update_mach, all_dylibs, matching,
  update_preserved_libraries_mach,
}

is_listed-Memᴰ : (xs : List Text) (x : Text) → Memᴰ x xs → is_listed xs x ≡ true
unfolding is_listed
is_listed-Memᴰ [] x m = elim m [ ]
is_listed-Memᴰ (y ∷ xs) x (Memᴰ.head same) = rw ((text_eq_iff y x).1 (sym same)) refl
is_listed-Memᴰ (y ∷ xs) x (Memᴰ.tail m) =
    or_right (text_eq y x) (is_listed xs x) (is_listed-Memᴰ xs x m)

once : (l t : Bool) → (l || ((t && not l) && true)) ≡ (l || (t && true))
once true true = refl
once true false = refl
once false true = refl
once false false = refl

gather : (i t a b : Bool) → ((i || (t && a)) || (t && b)) ≡ (i || (t && (a || b)))
gather true t a b = refl
gather false true a b = refl
gather false false a b = refl

listed-if :
    (c : Bool) (ids : List Text) (id x : Text)
    → is_listed (if c then ids ++ id ∷ [] else ids) x ≡ (is_listed ids x || (c && text_eq id x))
unfolding is_listed
listed-if true ids id x =
    is_listed-append ids (id ∷ []) x ∙ ap (λ b. is_listed ids x || b) (or_nothing (text_eq id x))
listed-if false ids id x = sym (or_nothing (is_listed ids x))

behind-made :
    {A : Type 0} (cs ds : List MachCommand) (a : A) → behind cs (made ds a) ≡ made (cs ++ ds) a
behind-made [] ds a = refl
behind-made (c ∷ cs) ds a = ap (behind (c ∷ [])) (behind-made cs ds a)

module _ (otool : Otool) (destroot dir : Text) where
  so_names-none :
      (libs : List Text) (lib : Text)
      → Memᴰ lib libs
      → otool.install_name (destroot ++ lib) ≡ none
      → so_names otool destroot dir libs ≡ stopped []
  unfolding so_names exec_otool
  so_names-none [] lib m e = elim m [ ]
  so_names-none (l ∷ libs) lib (Memᴰ.head same) e =
      rw (sym (ap (λ x. otool.install_name (destroot ++ x)) same) ∙ e, so_names, exec_otool) refl
  so_names-none (l ∷ libs) lib (Memᴰ.tail m) e =
      elim (Option-cases (otool.install_name (destroot ++ l))) [
        | inl failed ↦ rw (failed, so_names, exec_otool) refl
        | inr (old, is) ↦ rw (is, so_names-none libs lib m e, so_names, exec_otool) refl
      ]

  -- Let `otool` fail on a file that is not there. With a pattern given, the procedure ends with an
  -- error as soon as one of the files found has no file at the destroot followed by its name, and then
  -- install_name_tool was not called for any library.
  pub update_preserved_libraries_mach_pattern :
      (libs : List Text) (lib : Text)
      → ((file : Text) → otool.there file ≡ false → otool.install_name file ≡ none)
      → Memᴰ lib libs
      → otool.there (destroot ++ lib) ≡ false
      → update_preserved_libraries_mach otool destroot dir true (matching libs) ≡ stopped []
  unfolding update_preserved_libraries_mach update_mach
  update_preserved_libraries_mach_pattern libs lib fails m absent =
      rw (so_names-none libs lib m (fails (destroot ++ lib) absent)) refl

  module _ (name old : Text → Text) where
    -- The path of a library in the directory, by its name for the linker.
    abbrev pub id_of : Text → Text
    id_of lib = file_join dir (file_tail (name lib))

    abbrev pub ids_from : List Text → List Text → List Text
    ids_from ids [] = ids
    ids_from ids (lib ∷ libs) = ids_from (add_id otool destroot dir (id_of lib) ids) libs

    -- A listed library that is there counts once.
    listed-add_id :
        (id : Text) (ids : List Text) (x : Text)
        → is_listed (add_id otool destroot dir id ids) x
          ≡ (is_listed ids x || (otool.there (destroot ++ x) && text_eq id x))
    unfolding add_id
    listed-add_id id ids x =
        listed-if (otool.there (destroot ++ id) && not (is_listed ids id)) ids id x
        ∙ elim (Bool-cases (text_eq id x)) [
          | inl same ↦
              let e = (text_eq_iff id x).0 same in
              ap
                (λ y.
                  is_listed ids x
                  || ((otool.there (destroot ++ y) && not (is_listed ids y)) && text_eq id x))
                e
              ∙ rw (same) (once (is_listed ids x) (otool.there (destroot ++ x)))
          | inr other ↦
              rw
                (
                  other,
                  and_false (otool.there (destroot ++ id) && not (is_listed ids id)),
                  and_false (otool.there (destroot ++ x)),
                )
                refl
        ]

    listed-ids_from :
        (libs ids : List Text) (x : Text)
        → is_listed (ids_from ids libs) x
          ≡ (is_listed ids x || (otool.there (destroot ++ x) && is_listed (map id_of libs) x))
    unfolding is_listed
    listed-ids_from [] ids x = sym (
        ap (λ b. is_listed ids x || b) (and_false (otool.there (destroot ++ x)))
        ∙ or_nothing (is_listed ids x))
    listed-ids_from (lib ∷ libs) ids x =
        listed-ids_from libs (add_id otool destroot dir (id_of lib) ids) x
        ∙ (ap (λ b. b || (otool.there (destroot ++ x) && is_listed (map id_of libs) x))
              (listed-add_id (id_of lib) ids x)
            ∙ gather (is_listed ids x) (otool.there (destroot ++ x)) (text_eq (id_of lib) x)
                (is_listed (map id_of libs) x))

    library_ids-from :
        (libs ids : List Text)
        → ((lib : Text) → Memᴰ lib libs → otool.install_name lib ≡ some (name lib))
        → library_ids otool destroot dir ids libs ≡ made [] (ids_from ids libs)
    unfolding library_ids exec_otool
    library_ids-from [] ids h = refl
    library_ids-from (lib ∷ libs) ids h =
        rw (h lib (Memᴰ.head refl), library_ids, exec_otool)
          (library_ids-from libs (add_id otool destroot dir (id_of lib) ids)
            (λ l m. h l (Memᴰ.tail m)))

    -- A library gets its path as its name for the linker, and the paths of all of them in place of
    -- their old names.
    abbrev pub renamed : List Text → Text → List MachCommand
    renamed ids lib =
        set_id lib (destroot ++ lib)
        ∷ map (λ id. change (old (destroot ++ id)) id (destroot ++ lib)) ids

    abbrev pub named : Text → SoName
    named id = record { old_name = old (destroot ++ id); new_name = id }

    so_names-named :
        (ids : List Text)
        → ((id : Text)
            → Memᴰ id ids
            → (otool.install_name (destroot ++ id) ≡ some (old (destroot ++ id)))
              × (remove destroot id ≡ id))
        → so_names otool destroot dir ids ≡ made [] (map named ids)
    unfolding so_names exec_otool
    so_names-named [] h = refl
    so_names-named (id ∷ ids) h =
        let (is, kept) = h id (Memᴰ.head refl) in
        rw (is, so_names-named ids (λ i m. h i (Memᴰ.tail m)), kept, so_names, exec_otool) refl

    changes-made :
        (file : Text) (ids : List Text)
        → changes otool destroot dir file (map named ids)
          ≡ made (map (λ id. change (old (destroot ++ id)) id file) ids) tt
    unfolding changes
    changes-made file [] = refl
    changes-made file (id ∷ ids) =
        ap (behind (change (old (destroot ++ id)) id file ∷ [])) (changes-made file ids)

    update_mach_libraries-made :
        (ids libs : List Text)
        → ((id : Text) → Memᴰ id libs → remove destroot id ≡ id)
        → update_mach_libraries otool destroot dir (map named ids) libs
          ≡ made (flat (renamed ids) libs) tt
    unfolding update_mach_libraries flat
    update_mach_libraries-made ids [] h = refl
    update_mach_libraries-made ids (lib ∷ libs) h =
        ap
          (λ i. behind (set_id i (destroot ++ lib) ∷ []) (
            changes otool destroot dir (destroot ++ lib) (map named ids) >>= λ _.
            update_mach_libraries otool destroot dir (map named ids) libs))
          (h lib (Memᴰ.head refl))
        ∙ ap (behind (set_id lib (destroot ++ lib) ∷ [])) (
            ap₂ (λ m n. m >>= λ _. n) (changes-made (destroot ++ lib) ids)
              (update_mach_libraries-made ids libs (λ i m. h i (Memᴰ.tail m)))
            ∙ behind-made (map (λ id. change (old (destroot ++ id)) id (destroot ++ lib)) ids)
                (flat (renamed ids) libs) tt)

    -- Without a pattern, let `otool` name each library that is found and each file that is there,
    -- and let the destroot be no part of a library's path in the directory. Then the libraries
    -- that are changed are just those whose path is that of a library found and is there below the
    -- destroot; each of them gets its path as its name, and the paths of all of them in place of
    -- their old names.
    pub update_preserved_libraries_mach_lem :
        (libs : List Text)
        → ((lib : Text) → Memᴰ lib libs → otool.install_name lib ≡ some (name lib))
        → ((file : Text) → otool.there file ≡ true → otool.install_name file ≡ some (old file))
        → ((x a b : Text) → is_listed (map id_of libs) x ≡ true → x ≡ a ++ destroot ++ b → ⊥)
        → (ids : List Text) × ((x : Text)
            → is_listed ids x ≡ (otool.there (destroot ++ x) && is_listed (map id_of libs) x))
          × (update_preserved_libraries_mach otool destroot dir true (all_dylibs libs)
              ≡ made (flat (renamed ids) ids) tt)
    unfolding update_preserved_libraries_mach update_mach
    update_preserved_libraries_mach_lem libs found there absent = (
      ids,
      listed,
      rw (library_ids-from libs [] found, so_names-named ids known)
          (update_mach_libraries-made ids ids (λ id m. (known id m).1)),
    )
      where
        ids : List Text
        ids = ids_from [] libs

        listed :
            (x : Text)
            → is_listed ids x ≡ (otool.there (destroot ++ x) && is_listed (map id_of libs) x)
        listed x = listed-ids_from libs [] x

        known :
            (id : Text)
            → Memᴰ id ids
            → (otool.install_name (destroot ++ id) ≡ some (old (destroot ++ id)))
              × (remove destroot id ≡ id)
        known id m =
            let (is, one) =
              and_true (otool.there (destroot ++ id)) (is_listed (map id_of libs) id)
                (sym (listed id) ∙ is_listed-Memᴰ ids id m) in
            (there (destroot ++ id) is, remove_absent destroot id (λ a b e. absent id a b one e))

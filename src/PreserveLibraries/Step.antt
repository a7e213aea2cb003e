-- ===== src/PreserveLibraries/Step.antt =====
-- What the body of the loops of `preserve_libraries` does with a file.
use Prim.Native.String.{String}
use macstrop.Shared.Options.{◌>>=◌}
use macstrop.Shared.{
  ℕ, ◌≡◌, ◌≢◌, refl, ◌∙◌, Bool, true, false, none, some, List, [], ◌∷◌, ◌++◌, arith, inl, inr,
  Bool-cases, if◌then◌else◌,
}
use macstrop.PreserveLibraries.Tree.{
  Loc, at, current, in_previous, Node, regular, link, Tree, exists, put, create,
}
use macstrop.PreserveLibraries.Preserve.{
  Config, Prefix, Entry, Run, own, kept, wanted, is_link, preserve_file, preserve_toc, old_toc,
}
use macstrop.PreserveLibraries.Extends.{
  IsSolid, put-at, put-IsSolid, exists-false, create-some, set_permissions-put, permissions-regular,
  resolve-regular,
}

-- The entry of the library directory for a copy.
abbrev pub exported_link : Config → Loc → Node
exported_link c l = link (in_previous c.subport l.name)

abbrev pub copied : Config → Loc → Node → Tree → Tree
copied c l n t = put t (kept c l) n

abbrev pub linked : Config → Loc → Node → Tree → Tree
linked c l n t = put (copied c l n t) (at current l.name) (exported_link c l)

-- The file is left alone, or copied, or copied and linked to, with a word in the TOC.
pub data Did (c : Config) (l : Loc) (n : Node) (r r' : Run) : Type 0 where
  skipped : wanted c r.tree l ≡ false → r' ≡ r → Did c l n r r'
  hid :
      r.tree (kept c l) ≡ none
      → exists (copied c l n r.tree) (at current l.name) ≡ true
      → r'.tree ≡ copied c l n r.tree
      → r'.toc ≢ []
      → Did c l n r r'
  exported :
      r.tree (kept c l) ≡ none
      → copied c l n r.tree (at current l.name) ≡ none
      → r'.tree ≡ linked c l n r.tree
      → r'.toc ≢ []
      → Did c l n r r'

pub append_nonempty : {A : Type 0} (xs ys : List A) → ys ≢ [] → (xs ++ ys) ≢ []
append_nonempty [] ys h e = h e
append_nonempty (x ∷ xs) ys h e = cc

pub copied-IsSolid :
    (c : Config) (l : Loc) (k m : ℕ) (t : Tree)
    → IsSolid t
    → t (kept c l) ≡ none
    → IsSolid (copied c l (regular k m) t)
copied-IsSolid c l k m t s e =
    put-IsSolid t (kept c l) (regular k m) (regular k m) s e
      (resolve-regular _ (kept c l) k m (put-at t (kept c l) (regular k m)))

wanted-absent :
    (c : Config) (t : Tree) (l : Loc) → IsSolid t → wanted c t l ≡ true → t (kept c l) ≡ none
unfolding wanted
wanted-absent c t l s w = exists-false t (kept c l) s (ground (arith, w))

-- The two ends of the body, behind the copy.
abbrev hid_run : Config → List Entry → Loc → Node → Run → Run
hid_run c hidden l n r = record {
  tree = copied c l n r.tree;
  toc = r.toc ++ hidden;
  extra = r.extra ++ l ∷ [];
}

abbrev exported_run : Config → (Bool → List Entry) → Loc → Node → Run → Run
exported_run c ex l n r = record {
  tree = linked c l n r.tree;
  toc = r.toc ++ ex (is_link n);
  extra = r.extra;
}

behind_copy :
    (c : Config) (live : Prefix) (ex : Bool → List Entry) (hidden : List Entry) (l : Loc) (k m : ℕ)
    (r : Run)
    → live.tree l ≡ some (regular k m)
    → wanted c r.tree l ≡ true
    → r.tree (kept c l) ≡ none
    → preserve_file c live ex hidden l r ≡ (
        if exists (copied c l (regular k m) r.tree) (at current l.name)
        then some (hid_run c hidden l (regular k m) r)
        else do
          t ← create (copied c l (regular k m) r.tree) (at current l.name) (exported_link c l)
          some (record { tree = t; toc = r.toc ++ ex false; extra = r.extra }))
unfolding preserve_file
behind_copy c live ex hidden l k m r is_file need absent =
    rw
      (
        need,
        permissions-regular live.tree l k m is_file,
        is_file,
        create-some r.tree (kept c l) (regular k m) absent,
        set_permissions-put r.tree (kept c l) k m,
      )
      refl

pub preserve_file-Did :
    (c : Config) (live : Prefix) (ex : Bool → List Entry) (hidden : List Entry) (l : Loc) (k m : ℕ)
    (r : Run)
    → ((b : Bool) → ex b ≢ [])
    → hidden ≢ []
    → live.tree l ≡ some (regular k m)
    → IsSolid r.tree
    → (r' : Run) × (preserve_file c live ex hidden l r ≡ some r') × Did c l (regular k m) r r'
unfolding preserve_file
preserve_file-Did c live ex hidden l k m r some_ex some_hidden is_file s =
    elim (Bool-cases (wanted c r.tree l)) [
      | inr no_need ↦ (r, rw no_need refl, skipped no_need refl)
      | inl need ↦
          let absent = wanted-absent c r.tree l s need in
          let start = behind_copy c live ex hidden l k m r is_file need absent in
          elim (Bool-cases (exists (copied c l (regular k m) r.tree) (at current l.name))) [
            | inl there ↦ (
              hid_run c hidden l (regular k m) r,
              start ∙ rw there refl,
              hid absent there refl (append_nonempty r.toc hidden some_hidden),
            )
            | inr not_there ↦
                let new =
                  exists-false (copied c l (regular k m) r.tree) (at current l.name)
                    (copied-IsSolid c l k m r.tree s absent) not_there in
                (
                  exported_run c ex l (regular k m) r,
                  start
                      ∙ rw (not_there, create-some _ (at current l.name) (exported_link c l) new)
                          refl,
                  exported absent new refl (append_nonempty r.toc (ex false) (some_ex false)),
                )
          ]
    ]

-- A TOC of an earlier upgrade is left out if it is below the destroot, and copied otherwise.
pub data TocDid (c : Config) (name : String) (n : Node) (r r' : Run) : Type 0 where
  passed : r' ≡ r → TocDid c name n r r'
  taken :
      r.tree (at (own c) name) ≡ none
      → r'.tree ≡ put r.tree (at (own c) name) n
      → r'.toc ≢ []
      → TocDid c name n r r'

abbrev toc_run : Config → String → Node → Run → Run
toc_run c name n r = record r {
  tree = put r.tree (at (own c) name) n;
  toc = r.toc ++ old_toc name ∷ [];
}

pub preserve_toc-Did :
    (c : Config) (live : Prefix) (name : String) (k m : ℕ) (r : Run)
    → live.tree (at (own c) name) ≡ some (regular k m)
    → IsSolid r.tree
    → (r' : Run) × (preserve_toc c live name r ≡ some r') × TocDid c name (regular k m) r r'
unfolding preserve_toc
preserve_toc-Did c live name k m r is_file s = elim (Bool-cases (exists r.tree (at (own c) name))) [
  | inl there ↦ (r, rw there refl, passed refl)
  | inr not_there ↦
      let absent = exists-false r.tree (at (own c) name) s not_there in
      (
        toc_run c name (regular k m) r,
        rw
            (
              not_there,
              permissions-regular live.tree (at (own c) name) k m is_file,
              is_file,
              create-some r.tree (at (own c) name) (regular k m) absent,
              set_permissions-put r.tree (at (own c) name) k m,
            )
            refl,
        taken absent refl (append_nonempty r.toc (old_toc name ∷ []) (λ e. cc)),
      )
]

-- ===== src/PreserveLibraries/Ends.antt =====
-- The start and the end of `preserve_libraries`: the TOC file is opened, and removed if it stays empty.
use Prim.Native.String.{String}
use mathlib.Core.Bool.{false≢true}
use macstrop.Shared.{
  ◌≡◌, ◌≢◌, ◌⊎◌, refl, sym, ap, ◌∙◌, subst, fun_ext, true, ◌&&◌, Option, none, some, List, [], ◌∷◌,
  inl, inr, if◌then◌else◌, Bool-cases,
}
use macstrop.PreserveLibraries.Tree.{
  Loc, at, Node, regular, Tree, loc_eq, loc_eq_iff, exists, resolve, max_symlinks,
}
use macstrop.PreserveLibraries.Preserve.{
  Config, Prefix, Run, Entry, own, preserve_pattern, each, preserve_libraries, open_toc, close_toc,
}
use macstrop.PreserveLibraries.Extends.{
  Extends, IsSolid, put-Extends, put-IsSolid, put-at, put-away, resolve-regular, exists-entry,
}
use macstrop.PreserveLibraries.Loops.{Leads}
use macstrop.PreserveLibraries.Progress.{With, Going}

-- The destroot has no file of the new TOC's name yet.
abbrev pub IsNew : Config → Option String → Tree → Type 0
IsNew c none t = Unit {0}
IsNew c (some name) t = t (at (own c) name) ≡ none

module _ (c : Config) (t : Tree) where
  pub open_toc-Extends : (toc : Option String) → IsNew c toc t → Extends t (open_toc c toc t)
  unfolding open_toc
  open_toc-Extends none new = λ l n e. e
  open_toc-Extends (some name) new = put-Extends t (at (own c) name) (regular 0 0o644) new

  pub open_toc-IsSolid :
      (toc : Option String) → IsNew c toc t → IsSolid t → IsSolid (open_toc c toc t)
  unfolding open_toc
  open_toc-IsSolid none new s = s
  open_toc-IsSolid (some name) new s =
      let l = at (own c) name in
      put-IsSolid t l (regular 0 0o644) (regular 0 0o644) s new
        (resolve-regular _ l 0 0o644 (put-at t l (regular 0 0o644)))

  pub open_toc-away :
      (toc : Option String) (l : Loc)
      → ((name : String) → toc ≡ some name → at (own c) name ≢ l)
      → open_toc c toc t l ≡ t l
  unfolding open_toc
  open_toc-away none l h = refl
  open_toc-away (some name) l h = put-away t (at (own c) name) (regular 0 0o644) l (h name refl)

  -- With the TOC removed, the tree is as it was.
  remove-open_toc :
      (name : String)
      → t (at (own c) name) ≡ none
      → (λ q. if loc_eq (at (own c) name) q then none else open_toc c (some name) t q) ≡ t
  unfolding open_toc
  remove-open_toc name new = fun_ext λ q. elim (Bool-cases (loc_eq (at (own c) name) q)) [
    | inl same ↦ rw same (sym new ∙ ap t ((loc_eq_iff (at (own c) name) q).0 same))
    | inr other ↦ rw other (
        put-away t (at (own c) name) (regular 0 0o644) q
          (λ e. false≢true (sym other ∙ (loc_eq_iff (at (own c) name) q).1 e)))
  ]

removed : Config → String → Run → Run
removed c name r = record r { tree = λ q. if loc_eq (at (own c) name) q then none else r.tree q }

pub close_toc-nil :
    (c : Config) (t : Tree) (toc : Option String) (r : Run)
    → IsNew c toc t
    → r.tree ≡ open_toc c toc t
    → r.toc ≡ []
    → (close_toc c toc r).tree ≡ t
unfolding close_toc open_toc removed
close_toc-nil c t none r new same empty = same
close_toc-nil c t (some name) r new same empty =
    let closed : List Entry → Run = λ x. elim x [ [] ↦ removed c name r | e ∷ es ↦ r ] in
    ap (λ x. (closed x).tree) empty
    ∙ ap (λ (t' : Tree). λ q. if loc_eq (at (own c) name) q then none else t' q) same
    ∙ remove-open_toc c t name new

close_toc-cons : (c : Config) (toc : Option String) (r : Run) → r.toc ≢ [] → close_toc c toc r ≡ r
unfolding close_toc removed
close_toc-cons c none r h = refl
close_toc-cons c (some name) r h = go r.toc h
  where
    go : (x : List Entry) → x ≢ [] → elim x [ [] ↦ removed c name r | e ∷ es ↦ r ] ≡ r
    go [] h = absurd (h refl)
    go (e ∷ es) h = refl

nil_or_not : {A : Type 0} (xs : List A) → (xs ≡ []) ⊎ (xs ≢ [])
nil_or_not [] = inl refl
nil_or_not (x ∷ xs) = inr (λ e. cc)

module _ (c : Config) (live : Prefix) (toc : Option String) (patterns : List String)
    (destroot : Tree) (solid : IsSolid destroot) (new : IsNew c toc destroot) where
  abbrev pub start : Tree
  start = open_toc c toc destroot

  pub start-Going : Going start (record { tree = start; toc = []; extra = [] })
  start-Going = record {
    grown = λ l n e. e;
    solid = open_toc-IsSolid c destroot toc new solid;
    told = λ _. refl;
  }

  -- A run, seen from its loop over the patterns.
  pub preserve_libraries-Leads :
      (X Y : Tree → Type 0)
      → (c.enabled && live.srcdir_is_directory) ≡ true
      → X start
      → Leads (each (preserve_pattern c live) patterns) (With start X) (With start Y)
      → (r : Run) × (preserve_libraries c live toc patterns destroot ≡ some (close_toc c toc r))
        × With start Y r
  unfolding preserve_libraries
  preserve_libraries-Leads X Y on x leads =
      let (r, e, y) = leads (record { tree = start; toc = []; extra = [] }) (start-Going, x) in
      (r, rw (on, e) refl, y)

  -- The tree of the loop is the result, unless the TOC is empty.
  pub close_toc-cases :
      (r : Run)
      → Going start r
      → (((close_toc c toc r).tree ≡ destroot) × (r.tree ≡ start))
        ⊎ ((close_toc c toc r ≡ r) × (r.toc ≢ []))
  close_toc-cases r going = elim (nil_or_not r.toc) [
    | inl empty ↦
        inl (close_toc-nil c destroot toc r new (going.told empty) empty, going.told empty)
    | inr told ↦ inr (close_toc-cons c toc r told, told)
  ]

  pub close_toc-after :
      (r : Run)
      → Going start r
      → Extends destroot (close_toc c toc r).tree
        × IsSolid (close_toc c toc r).tree
        × ((close_toc c toc r).toc ≡ [] → (close_toc c toc r).tree ≡ destroot)
  close_toc-after r going = elim (close_toc-cases r going) [
    | inl (same, _) ↦ (
      subst (Extends destroot) (sym same) (λ l n e. e),
      subst IsSolid (sym same) solid,
      λ _. same,
    )
    | inr (same, told) ↦ (
      subst (λ x. Extends destroot x.tree) (sym same)
          (λ l n e. going.grown l n (open_toc-Extends c destroot toc new l n e)),
      subst (λ x. IsSolid x.tree) (sym same) going.solid,
      λ e. absurd (told (sym (ap (λ x. x.toc) same) ∙ e)),
    )
  ]

  -- What `start` has besides the TOC the destroot has, and so has the result.
  pub close_toc-exists :
      (l : Loc) (r : Run)
      → Going start r
      → start l ≡ destroot l
      → exists r.tree l ≡ true
      → exists (close_toc c toc r).tree l ≡ true
  close_toc-exists l r going away there = elim (close_toc-cases r going) [
    | inl (same, same') ↦
        let (n, e) = exists-entry start l (subst (λ t. exists t l ≡ true) same' there) in
        subst (λ t. exists t l ≡ true) (sym same) (solid l n (sym away ∙ e))
    | inr (same, told) ↦ subst (λ x. exists x.tree l ≡ true) (sym same) there
  ]

  -- What `start` has not comes with a word in the TOC.
  pub close_toc-resolve :
      (l : Loc) (n m : Node) (r : Run)
      → Going start r
      → start l ≡ none
      → r.tree l ≡ some m
      → resolve max_symlinks r.tree l ≡ some n
      → resolve max_symlinks (close_toc c toc r).tree l ≡ some n
  close_toc-resolve l n m r going away there e = elim (close_toc-cases r going) [
    | inl (same, same') ↦ let clash : start l ≡ some m = sym (ap (λ t. t l) same') ∙ there in cc
    | inr (same, told) ↦ subst (λ x. resolve max_symlinks x.tree l ≡ some n) (sym same) e
  ]

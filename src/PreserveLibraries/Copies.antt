-- ===== src/PreserveLibraries/Copies.antt =====
-- One name, through all that `preserve_libraries` does: whether its library and the preserved copy are there.
use Prim.Native.String.{String}
use mathlib.Core.Bool.{false≢true}
use macstrop.Shared.{
  ℕ, ◌≡◌, ◌≢◌, ◌⊎◌, sym, ap, ◌∙◌, subst, true, false, none, some, arith, inl, inr, Bool-cases,
}
use macstrop.PreserveLibraries.Tree.{
  Dir, Loc, at, current, in_previous, regular, link, Tree, exists, loc_eq, loc_eq_iff, resolve,
  max_symlinks,
}
use macstrop.PreserveLibraries.Preserve.{Config, Run, own, kept, wanted}
use macstrop.PreserveLibraries.Extends.{
  Extends, IsSolid, put-Extends, put-at, put-away, exists-entry, exists-Extends, exists-resolve,
  resolve-link, put-cases,
}
use macstrop.PreserveLibraries.Step.{
  Did, skipped, hid, exported, TocDid, passed, taken, copied, linked, exported_link,
}
use macstrop.PreserveLibraries.Effect.{Did-Extends, TocDid-Extends, linked-resolve}

module _ (c : Config) (n : String) where
  abbrev own_loc : Loc
  own_loc = at (own c) n

  abbrev current_loc : Loc
  current_loc = at current n

  -- The preserved copy is linked to, or hidden by a library of that name.
  abbrev pub Reaches : Tree → Type 0
  Reaches t = exists t own_loc ≡ true → exists t current_loc ≡ true

  Reaches-Extends :
      (t t' : Tree) → IsSolid t → Extends t t' → t' own_loc ≡ t own_loc → Reaches t → Reaches t'
  Reaches-Extends t t' s h e reach there =
      let (x, f) = exists-entry t' own_loc there in
      exists-Extends t t' current_loc h (reach (s own_loc x (sym e ∙ f)))

  unwanted : (t : Tree) → Reaches t → wanted c t current_loc ≡ false → exists t current_loc ≡ true
  unfolding wanted
  unwanted t reach w = elim (Bool-cases (exists t own_loc)) [
    | inl there ↦ reach there
    | inr not_there ↦ ground (arith, w, not_there)
  ]

  name_of : (l : Loc) → kept c l ≡ own_loc → l.name ≡ n
  name_of l e = ap (λ q. q.name) e

  module _ (l : Loc) (k m : ℕ) (r r' : Run) (s : IsSolid r.tree)
      (did : Did c l (regular k m) r r') where
    -- A file of another name leaves the entries of this name alone.
    pub other-Did :
        l.name ≢ n → (r'.tree own_loc ≡ r.tree own_loc) × (r'.tree current_loc ≡ r.tree current_loc)
    other-Did other = go did
      where
        go :
            Did c l (regular k m) r r'
            → (r'.tree own_loc ≡ r.tree own_loc) × (r'.tree current_loc ≡ r.tree current_loc)
        go (skipped w e) = (ap (λ x. x.tree own_loc) e, ap (λ x. x.tree current_loc) e)
        go (hid e f g h) = (
          ap (λ t. t own_loc) g ∙ put-away _ _ _ own_loc (λ q. other (ap (λ q. q.name) q)),
          ap (λ t. t current_loc) g ∙ put-away _ _ _ current_loc (λ q. other (ap (λ q. q.name) q)),
        )
        go (exported e f g h) = (
          ap (λ t. t own_loc) g
              ∙ put-away _ _ _ own_loc (λ q. other (ap (λ q. q.name) q))
              ∙ put-away _ _ _ own_loc (λ q. other (ap (λ q. q.name) q)),
          ap (λ t. t current_loc) g
              ∙ put-away _ _ _ current_loc (λ q. other (ap (λ q. q.name) q))
              ∙ put-away _ _ _ current_loc (λ q. other (ap (λ q. q.name) q)),
        )

    -- A file of this name leaves a library of this name, unless it was skipped.
    here :
        l.name ≡ n
        → Did c l (regular k m) r r'
        → ((wanted c r.tree l ≡ false) × (r' ≡ r)) ⊎ (exists r'.tree current_loc ≡ true)
    here e (skipped w f) = inl (w, f)
    here e (hid f g h i) = inr (
        subst (λ t. exists t current_loc ≡ true) (sym h)
          (subst (λ a. exists (copied c l (regular k m) r.tree) (at current a) ≡ true) e g))
    here e (exported f g h i) = inr (
        subst (λ t. exists t current_loc ≡ true) (sym h)
          (subst (λ a. exists (linked c l (regular k m) r.tree) (at current a) ≡ true) e
            (exists-resolve _ (at current l.name) (regular k m) (linked-resolve c l k m r r' f g))))

    pub Did-Reaches : Reaches r.tree → Reaches r'.tree
    Did-Reaches reach = elim (Bool-cases (loc_eq (kept c l) own_loc)) [
      | inl same ↦ elim (here (name_of l ((loc_eq_iff (kept c l) own_loc).0 same)) did) [
        | inl (w, f) ↦ subst (λ x. Reaches x.tree) (sym f) reach
        | inr done ↦ λ _. done
      ]
      | inr other ↦
          let differs : l.name ≢ n =
            λ e. false≢true (sym other ∙ (loc_eq_iff (kept c l) own_loc).1 (ap (at (own c)) e)) in
          Reaches-Extends r.tree r'.tree s (Did-Extends c l k m r r' did) (other-Did differs).0
            reach
    ]

    -- After a file of this name in the library directory was handled there is a library of this name.
    pub Did-current : l ≡ current_loc → Reaches r.tree → exists r'.tree current_loc ≡ true
    Did-current e reach = elim (here (ap (λ q. q.name) e) did) [
      | inl (w, f) ↦
          subst (λ x. exists x.tree current_loc ≡ true) (sym f)
            (unwanted r.tree reach (subst (λ q. wanted c r.tree q ≡ false) e w))
      | inr done ↦ done
    ]

  module _ (name : String) (k m : ℕ) (r r' : Run) (s : IsSolid r.tree) (other : name ≢ n) where
    -- A TOC of another name leaves the entries of this name alone.
    pub other-TocDid :
        TocDid c name (regular k m) r r'
        → (r'.tree own_loc ≡ r.tree own_loc) × (r'.tree current_loc ≡ r.tree current_loc)
    other-TocDid (passed e) = (ap (λ x. x.tree own_loc) e, ap (λ x. x.tree current_loc) e)
    other-TocDid (taken e f g) = (
      ap (λ t. t own_loc) f ∙ put-away _ _ _ own_loc (λ q. other (ap (λ q. q.name) q)),
      ap (λ t. t current_loc) f ∙ put-away _ _ _ current_loc (λ q. other (ap (λ q. q.name) q)),
    )

    pub TocDid-Reaches : TocDid c name (regular k m) r r' → Reaches r.tree → Reaches r'.tree
    TocDid-Reaches did =
        Reaches-Extends r.tree r'.tree s (TocDid-Extends c name k m r r' did) (other-TocDid did).0

  -- There is nothing of this name; or the file is preserved, and the library directory links to it.
  abbrev pub Untouched : Tree → Type 0
  Untouched t = (t own_loc ≡ none) × (t current_loc ≡ none)

  abbrev pub IsCopy : ℕ → ℕ → Tree → Type 0
  IsCopy k m t =
      (t own_loc ≡ some (regular k m)) × (t current_loc ≡ some (link (in_previous c.subport n)))

  pub IsCopy-Extends : (k m : ℕ) (t t' : Tree) → Extends t t' → IsCopy k m t → IsCopy k m t'
  IsCopy-Extends k m t t' h (a, b) = (h own_loc _ a, h current_loc _ b)

  pub Untouched-same :
      (t t' : Tree)
      → (t' own_loc ≡ t own_loc) × (t' current_loc ≡ t current_loc)
      → Untouched t
      → Untouched t'
  Untouched-same t t' (e, f) (a, b) = (e ∙ a, f ∙ b)

  pub absent : (t : Tree) (l : Loc) → t l ≡ none → exists t l ≡ false
  absent t l e = elim (Bool-cases (exists t l)) [
    | inl there ↦ let (x, f) = exists-entry t l there in cc
    | inr not_there ↦ not_there
  ]

  pub absent-wanted :
      (t : Tree) (d : Dir) → t own_loc ≡ none → t (at d n) ≡ none → wanted c t (at d n) ≡ true
  unfolding wanted
  absent-wanted t d e f = ground (arith, absent t own_loc e, absent t (at d n) f)

  -- The first file of this name is preserved and linked to.
  pub Did-IsCopy :
      (d : Dir) (k m : ℕ) (r r' : Run)
      → Did c (at d n) (regular k m) r r'
      → Untouched r.tree
      → r.tree (at d n) ≡ none
      → IsCopy k m r'.tree
  Did-IsCopy d k m r r' (skipped w e) (a, b) h =
      absurd (false≢true (sym w ∙ absent-wanted r.tree d a h))
  Did-IsCopy d k m r r' (hid e f g h) (a, b) _ =
      let (x, there) = exists-entry _ current_loc f in
      elim (put-cases r.tree own_loc (regular k m) current_loc x there) [
        | inl (same, _) ↦ let dirs : own c ≡ current = ap (λ q. q.dir) same in cc
        | inr there ↦ cc
      ]
  Did-IsCopy d k m r r' (exported e f g h) (a, b) _ = (
    ap (λ t. t own_loc) g
        ∙ put-Extends _ current_loc (exported_link c (at d n)) f own_loc (regular k m)
            (put-at r.tree own_loc (regular k m)),
    ap (λ t. t current_loc) g ∙ put-at _ current_loc (exported_link c (at d n)),
  )

  -- The library directory then leads to the file.
  pub IsCopy-resolve :
      (k m : ℕ) (t : Tree) → IsCopy k m t → resolve max_symlinks t current_loc ≡ some (regular k m)
  IsCopy-resolve k m t (a, b) = resolve-link t c.subport n k m b a

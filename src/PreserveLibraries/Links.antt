-- ===== src/PreserveLibraries/Links.antt =====
-- A link on the disk whose target is not preserved.
use Prim.Native.String.{String}
use macstrop.Shared.Options.{◌>>=◌, >>=-some}
use macstrop.Shared.{
  ℕ, ◌≡◌, ◌≢◌, refl, sym, ap, ◌∙◌, Bool, true, false, ◌||◌, none, some, List, [], ◌∷◌, ◌++◌,
  if◌then◌else◌,
}
use macstrop.PreserveLibraries.Tree.{
  Loc, at, current, Target, sibling, Node, regular, link, Tree, resolve, visit, max_symlinks,
  exists, permissions, put, create, set_permissions,
}
use macstrop.PreserveLibraries.Preserve.{
  Config, Prefix, Entry, Run, own, wanted, preserve_file, preserve_current, provider,
  current_copied, current_exported, current_hidden,
}
use macstrop.PreserveLibraries.Extends.{put-at, put-away, create-some}
use macstrop.PreserveLibraries.Step.{copied, linked, exported_link}
use macstrop.PreserveLibraries.Copies.{absent, absent-wanted}
use macstrop.PreserveLibraries.Patterns.{IsOurs}

-- A path that leads nowhere.
exists-none : (t : Tree) (l : Loc) → resolve max_symlinks t l ≡ none → exists t l ≡ false
unfolding exists
exists-none t l e = ap (λ x. elim x [ none ↦ false | some m ↦ true ]) e

set_permissions-link :
    (t : Tree) (l : Loc) (to : Target) (mode : ℕ)
    → t l ≡ some (link to)
    → set_permissions t l mode ≡ t
unfolding set_permissions
set_permissions-link t l to mode e =
    ap
      (λ x. elim x [
        | none ↦ t
        | some (regular c m) ↦ put t l (regular c mode)
        | some (link to) ↦ t
      ])
      e

or_true : (b : Bool) → (b || true) ≡ true
or_true true = refl
or_true false = refl

create-fails : (t : Tree) (l : Loc) (n m : Node) → t l ≡ some m → create t l n ≡ none
unfolding create
create-fails t l n m e = ap (λ x. elim x [ none ↦ some (put t l n) | some _ ↦ none ]) e

module _ (c : Config) (live : Prefix) (n s : String) (mode : ℕ) (r : Run) (other : n ≢ s)
    (is_link_there : live.tree (at current n) ≡ some (link (sibling s)))
    (leads : permissions live.tree (at current n) ≡ some mode)
    (no_copy : r.tree (at (own c) n) ≡ none) (no_target : r.tree (at (own c) s) ≡ none)
    (no_file : r.tree (at current n) ≡ none) where
  abbrev the_link : Node
  the_link = link (sibling s)

  abbrev after : Tree
  after = linked c (at current n) the_link r.tree

  target_gone : after (at (own c) s) ≡ none
  target_gone =
      put-away _ (at current n) (exported_link c (at current n)) (at (own c) s)
        (λ e. other (ap (λ q. q.name) e))
      ∙ put-away r.tree (at (own c) n) the_link (at (own c) s) (λ e. other (ap (λ q. q.name) e))
      ∙ no_target

  away : at current n ≢ at (own c) n
  away e = let same : current ≡ own c = ap (λ q. q.dir) e in cc

  copy_there : after (at (own c) n) ≡ some the_link
  copy_there =
      put-away _ (at current n) (exported_link c (at current n)) (at (own c) n) away
      ∙ put-at r.tree (at (own c) n) the_link

  dangles : resolve max_symlinks after (at (own c) n) ≡ none
  unfolding resolve
  dangles =
      >>=-some (after (at (own c) n)) (visit (resolve 31 after) (own c)) the_link copy_there
      ∙ ap (λ x. x >>= visit (resolve 30 after) (own c)) target_gone

  dangles_too : resolve max_symlinks after (at current n) ≡ none
  unfolding resolve
  dangles_too =
      >>=-some (after (at current n)) (visit (resolve 31 after) current)
        (exported_link c (at current n)) (put-at _ (at current n) (exported_link c (at current n)))
      ∙ (>>=-some (after (at (own c) n)) (visit (resolve 30 after) (own c)) the_link copy_there
          ∙ ap (λ x. x >>= visit (resolve 29 after) (own c)) target_gone)

  first :
      (ex : Bool → List Entry) (hidden : List Entry)
      → preserve_file c live ex hidden (at current n) r
        ≡ some (record { tree = after; toc = r.toc ++ ex true; extra = r.extra })
  unfolding preserve_file
  first ex hidden =
      let new : copied c (at current n) the_link r.tree (at current n) ≡ none =
        put-away r.tree (at (own c) n) the_link (at current n) (λ e. away (sym e)) ∙ no_file in
      rw
        (
          absent-wanted c n r.tree current no_copy no_file,
          leads,
          is_link_there,
          create-some r.tree (at (own c) n) the_link no_copy,
          absent c n (copied c (at current n) the_link r.tree) (at current n) new,
          set_permissions-link _ (at (own c) n) (sibling s) mode
              (put-at r.tree (at (own c) n) the_link),
          create-some _ (at current n) (exported_link c (at current n)) new,
        )
        refl

  second :
      (ex : Bool → List Entry) (hidden toc : List Entry) (extra : List Loc)
      → preserve_file c live ex hidden
          (at current n)
          (record { tree = after; toc = toc; extra = extra })
        ≡ none
  unfolding preserve_file wanted
  second ex hidden toc extra =
      rw
        (
          exists-none after (at (own c) n) dangles,
          exists-none after (at current n) dangles_too,
          leads,
          is_link_there,
          create-fails after (at (own c) n) the_link the_link copy_there,
          or_true c.allow_unlinked,
        )
        refl

-- Let a library on the disk be a link to another file beside it that is there, and let the
-- destroot have neither the library, nor a preserved copy of it, nor one of that file. If the
-- library is the port's or belongs to a port in `ports`, then the loop over the current libraries
-- copies the link; and in the tree that this leaves, the same step for the same library, as for a
-- second pattern that matches it, fails.
pub preserve_current_twice :
    (c : Config) (live : Prefix) (n s : String) (mode : ℕ) (r : Run)
    → n ≢ s
    → live.tree (at current n) ≡ some (link (sibling s))
    → permissions live.tree (at current n) ≡ some mode
    → IsOurs c live (at current n)
    → r.tree (at (own c) n) ≡ none
    → r.tree (at (own c) s) ≡ none
    → r.tree (at current n) ≡ none
    → (r' : Run) × (preserve_current c live (at current n) r ≡ some r')
      × (r'.tree (at (own c) n) ≡ some (link (sibling s)))
      × (preserve_current c live (at current n) r' ≡ none)
unfolding preserve_current
preserve_current_twice c live n s mode r other is_link_there leads ours no_copy no_target no_file =
    let l : Loc = at current n in
    let ex : Bool → List Entry = λ a_link.
      (if a_link then [] else current_copied l ∷ [])
      ++ (current_exported n ∷ provider c (live.registered l)) in
    let hidden : List Entry = current_hidden l ∷ provider c (live.registered l) in
    let toc : List Entry = r.toc ++ ex true in
    let tree : Tree = linked c l (link (sibling s)) r.tree in
    (
      record { tree = tree; toc = toc; extra = r.extra },
      rw ours
          (first c live n s mode r other is_link_there leads no_copy no_target no_file ex hidden),
      copy_there c live n s mode r other is_link_there leads no_copy no_target no_file,
      rw ours (
          second c live n s mode r other is_link_there leads no_copy no_target no_file ex hidden toc
            r.extra),
    )

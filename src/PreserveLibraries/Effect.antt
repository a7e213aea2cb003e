-- ===== src/PreserveLibraries/Effect.antt =====
-- What the tree below the destroot has after a file was handled.
use macstrop.Shared.{ℕ, ◌≡◌, sym, subst, none, some, []}
use Prim.Native.String.{String}
use macstrop.PreserveLibraries.Tree.{Loc, at, current, Node, regular, max_symlinks, resolve}
use macstrop.PreserveLibraries.Preserve.{Config, Run, own, kept}
use macstrop.PreserveLibraries.Extends.{
  Extends, IsSolid, put-at, put-Extends, put-IsSolid, resolve-link,
}
use macstrop.PreserveLibraries.Step.{
  Did, TocDid, passed, taken, skipped, hid, exported, copied, linked, exported_link, copied-IsSolid,
}

module _ (c : Config) (l : Loc) (k m : ℕ) (r r' : Run) where
  abbrev pub file : Node
  file = regular k m

  pub copied-Extends : r.tree (kept c l) ≡ none → Extends r.tree (copied c l file r.tree)
  copied-Extends e = put-Extends r.tree (kept c l) file e

  linked-Extends :
      r.tree (kept c l) ≡ none
      → copied c l file r.tree (at current l.name) ≡ none
      → Extends r.tree (linked c l file r.tree)
  linked-Extends e f q n g =
      put-Extends (copied c l file r.tree) (at current l.name) (exported_link c l) f q n
        (copied-Extends e q n g)

  pub Did-Extends : Did c l file r r' → Extends r.tree r'.tree
  Did-Extends (skipped w e) = subst (λ x. Extends r.tree x.tree) (sym e) (λ q n f. f)
  Did-Extends (hid e f g h) = subst (Extends r.tree) (sym g) (copied-Extends e)
  Did-Extends (exported e f g h) = subst (Extends r.tree) (sym g) (linked-Extends e f)

  pub linked-resolve :
      r.tree (kept c l) ≡ none
      → copied c l file r.tree (at current l.name) ≡ none
      → resolve max_symlinks (linked c l file r.tree) (at current l.name) ≡ some file
  linked-resolve e f =
      resolve-link _ c.subport l.name k m (put-at _ (at current l.name) (exported_link c l)) (
        put-Extends _ (at current l.name) (exported_link c l) f (kept c l) file
          (put-at r.tree (kept c l) file))

  pub Did-IsSolid : IsSolid r.tree → Did c l file r r' → IsSolid r'.tree
  Did-IsSolid s (skipped w e) = subst (λ x. IsSolid x.tree) (sym e) s
  Did-IsSolid s (hid e f g h) = subst IsSolid (sym g) (copied-IsSolid c l k m r.tree s e)
  Did-IsSolid s (exported e f g h) = subst IsSolid (sym g) (
      put-IsSolid _ (at current l.name) (exported_link c l) file (copied-IsSolid c l k m r.tree s e)
        f (linked-resolve e f))

  -- With no word in the TOC nothing is done.
  pub Did-unchanged : Did c l file r r' → r'.toc ≡ [] → r' ≡ r
  Did-unchanged (skipped w e) h = e
  Did-unchanged (hid e f g h) h' = absurd (h h')
  Did-unchanged (exported e f g h) h' = absurd (h h')

module _ (c : Config) (name : String) (k m : ℕ) (r r' : Run) where
  pub TocDid-Extends : TocDid c name (regular k m) r r' → Extends r.tree r'.tree
  TocDid-Extends (passed e) = subst (λ x. Extends r.tree x.tree) (sym e) (λ q n f. f)
  TocDid-Extends (taken e f g) =
      subst (Extends r.tree) (sym f) (put-Extends r.tree (at (own c) name) (regular k m) e)

  pub TocDid-IsSolid : IsSolid r.tree → TocDid c name (regular k m) r r' → IsSolid r'.tree
  TocDid-IsSolid s (passed e) = subst (λ x. IsSolid x.tree) (sym e) s
  TocDid-IsSolid s (taken e f g) =
      subst IsSolid (sym f) (copied-IsSolid c (at current name) k m r.tree s e)

  pub TocDid-unchanged : TocDid c name (regular k m) r r' → r'.toc ≡ [] → r' ≡ r
  TocDid-unchanged (passed e) h = e
  TocDid-unchanged (taken e f g) h = absurd (g h)

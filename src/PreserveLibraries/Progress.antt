-- ===== src/PreserveLibraries/Progress.antt =====
-- Each step of `preserve_libraries` comes to its end, adds to the tree, and keeps it free of dangling
-- links, where the files on the disk that it handles are regular.
use Prim.Native.String.{String}
use mathlib.Core.List.{Memᴰ}
use macstrop.Shared.{ℕ, ◌≡◌, ◌≢◌, sym, ap, ◌∙◌, Bool, some, List, []}
use macstrop.PreserveLibraries.Tree.{Dir, Loc, at, regular, Tree}
use macstrop.PreserveLibraries.Preserve.{
  Config, Prefix, Entry, Run, own, preserve_file, preserve_toc,
}
use macstrop.PreserveLibraries.Extends.{Extends, IsSolid}
use macstrop.PreserveLibraries.Step.{Did, TocDid, preserve_file-Did, preserve_toc-Did}
use macstrop.PreserveLibraries.Effect.{
  Did-Extends, Did-IsSolid, Did-unchanged, TocDid-Extends, TocDid-IsSolid, TocDid-unchanged,
}
use macstrop.PreserveLibraries.Loops.{Leads}

abbrev pub IsRegular : Prefix → Loc → Type 0
IsRegular live l = (k : ℕ) × (m : ℕ) × (live.tree l ≡ some (regular k m))

-- `glob` finds files that are there, and these are regular.
pub record IsPlain (c : Config) (live : Prefix) : Type 0 where
  pub found :
      (d : Dir) (pattern name : String)
      → Memᴰ name (live.glob d pattern)
      → IsRegular live (at d name)
  pub found_toc : (name : String) → Memᴰ name live.tocs → IsRegular live (at (own c) name)

-- From the tree `start` entries are added, and the TOC has a word of it.
pub record Going (start : Tree) (r : Run) : Type 0 where
  pub grown : Extends start r.tree
  pub solid : IsSolid r.tree
  pub told : r.toc ≡ [] → r.tree ≡ start

abbrev pub With : Tree → (Tree → Type 0) → Run → Type 0
With start X r = Going start r × X r.tree

module _ (c : Config) (live : Prefix) (start : Tree) where
  pub preserve_file-Leads :
      (ex : Bool → List Entry) (hidden : List Entry) (l : Loc) (k m : ℕ) (X Y : Tree → Type 0)
      → ((b : Bool) → ex b ≢ [])
      → hidden ≢ []
      → live.tree l ≡ some (regular k m)
      → ((r r' : Run) → IsSolid r.tree → Did c l (regular k m) r r' → X r.tree → Y r'.tree)
      → Leads (preserve_file c live ex hidden l) (With start X) (With start Y)
  preserve_file-Leads ex hidden l k m X Y e h is_file so r (going, x) =
      let (r', step, did) = preserve_file-Did c live ex hidden l k m r e h is_file going.solid in
      (
        r',
        step,
        (
          record {
            grown = λ q n f. Did-Extends c l k m r r' did q n (going.grown q n f);
            solid = Did-IsSolid c l k m r r' going.solid did;
            told = λ f.
                let same = Did-unchanged c l k m r r' did f in
                ap (λ x. x.tree) same ∙ going.told (ap (λ x. x.toc) (sym same) ∙ f);
          },
          so r r' going.solid did x,
        ),
      )

  pub preserve_toc-Leads :
      (name : String) (k m : ℕ) (X : Tree → Type 0)
      → live.tree (at (own c) name) ≡ some (regular k m)
      → ((r r' : Run) → IsSolid r.tree → TocDid c name (regular k m) r r' → X r.tree → X r'.tree)
      → Leads (preserve_toc c live name) (With start X) (With start X)
  preserve_toc-Leads name k m X is_file so r (going, x) =
      let (r', step, did) = preserve_toc-Did c live name k m r is_file going.solid in
      (
        r',
        step,
        (
          record {
            grown = λ q n f. TocDid-Extends c name k m r r' did q n (going.grown q n f);
            solid = TocDid-IsSolid c name k m r r' going.solid did;
            told = λ f.
                let same = TocDid-unchanged c name k m r r' did f in
                ap (λ x. x.tree) same ∙ going.told (ap (λ x. x.toc) (sym same) ∙ f);
          },
          so r r' going.solid did x,
        ),
      )

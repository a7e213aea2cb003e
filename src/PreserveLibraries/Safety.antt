-- ===== src/PreserveLibraries/Safety.antt =====
-- What a port can rely on when it calls `preserve_libraries`.
use Prim.Native.String.{String}
use mathlib.Core.List.{Memᴰ}
use macstrop.Shared.{
  ◌≡◌, ◌≢◌, refl, sym, ◌∙◌, true, ◌&&◌, Option, some, List, [], inl, inr, Bool-cases,
}
use macstrop.PreserveLibraries.Tree.{at, current, Tree, exists}
use macstrop.PreserveLibraries.Preserve.{
  Config, Prefix, Run, own, preserve_libraries, open_toc, close_toc,
}
use macstrop.PreserveLibraries.Extends.{Extends, IsSolid, exists-Extends, exists-entry}
use macstrop.PreserveLibraries.Progress.{IsPlain}
use macstrop.PreserveLibraries.Patterns.{IsOurs}
use macstrop.PreserveLibraries.Rounds.{patterns-Leads, patterns-Leads_at, pattern-Leads_current}
use macstrop.PreserveLibraries.Copies.{Reaches, Did-current}
use macstrop.PreserveLibraries.Stability.{
  Stable-Unit, Stable-Reaches, Stable-Extends, own_away, current_away, at-current,
}
use macstrop.PreserveLibraries.Ends.{
  IsNew, open_toc-Extends, close_toc-after, close_toc-exists, preserve_libraries-Leads,
}

-- Let all files that are found on the disk be regular, the destroot have no dangling link, and no file of
-- the new TOC's name. Then `preserve_libraries` runs to its end, with or without the variant. It removes
-- and changes no entry of the destroot, and leaves no dangling link. If nothing came to the TOC, then the
-- destroot is as it was.
pub preserve_libraries-adds :
    (c : Config) (live : Prefix) (toc : Option String) (patterns : List String) (destroot : Tree)
    → IsPlain c live
    → IsSolid destroot
    → IsNew c toc destroot
    → (r : Run) × (preserve_libraries c live toc patterns destroot ≡ some r)
      × Extends destroot r.tree
      × IsSolid r.tree
      × (r.toc ≡ [] → r.tree ≡ destroot)
unfolding preserve_libraries
preserve_libraries-adds c live toc patterns destroot plain solid new =
    elim (Bool-cases (c.enabled && live.srcdir_is_directory)) [
      | inr off ↦ (
        record { tree = destroot; toc = []; extra = [] },
        rw off refl,
        λ l n e. e,
        solid,
        λ _. refl,
      )
      | inl on ↦
          let (r, e, (going, _)) =
            preserve_libraries-Leads c live toc patterns destroot solid new (λ _. Unit {0})
              (λ _. Unit {0}) on tt
              (patterns-Leads c live plain (open_toc c toc destroot) patterns (λ _. Unit {0})
                (λ p _. Stable-Unit c live p)) in
          let (grown, dangles, unchanged) =
            close_toc-after c live toc patterns destroot solid new r going in
          (close_toc c toc r, e, grown, dangles, unchanged)
    ]

-- Let the variant be set and the directory there, all files that are found on the disk regular,
-- and the destroot without dangling links and without a file of the new TOC's name. A library of
-- the port or of a port in `ports`, which lies in the directory and matches a pattern, is still to
-- be found there after the run, be it another library of that name, if no TOC has its name and the
-- destroot has not got a preserved copy of it without a library of that name.
pub preserve_libraries-serves :
    (c : Config) (live : Prefix) (toc : Option String) (patterns : List String) (destroot : Tree)
    → IsPlain c live
    → IsSolid destroot
    → IsNew c toc destroot
    → (c.enabled && live.srcdir_is_directory) ≡ true
    → (p n : String) → Memᴰ p patterns
    → Memᴰ n (live.glob current p)
    → IsOurs c live (at current n)
    → toc ≢ some n
    → ¬ Memᴰ n live.tocs
    → Reaches c n destroot
    → (r : Run) × (preserve_libraries c live toc patterns destroot ≡ some r)
      × (exists r.tree (at current n) ≡ true)
preserve_libraries-serves c live toc patterns destroot plain solid new on p n in_patterns in_glob
      ours other no_toc reaches =
    let start : Tree = open_toc c toc destroot in
    let Served : Tree → Type 0 = λ t. exists t (at current n) ≡ true in
    let from_start : Reaches c n start = λ there.
      let (x, e) = exists-entry start (at (own c) n) there in
      exists-Extends destroot start (at current n) (open_toc-Extends c destroot toc new)
        (reaches (solid (at (own c) n) x (sym (own_away c live n toc other destroot) ∙ e))) in
    let served = λ (p : String).
      Stable-Extends c live n p Served (λ t t' h. exists-Extends t t' (at current n) h) in
    let libs = at-current c live n p in_glob in
    let (r, e, (going, done)) =
      preserve_libraries-Leads c live toc patterns destroot solid new (Reaches c n) Served on
        from_start
        (patterns-Leads_at c live plain start patterns p (Reaches c n) Served in_patterns
          (λ p _. Stable-Reaches c live n p no_toc) (λ p _. served p)
          (pattern-Leads_current c live plain start p (Reaches c n) Served (at current n) libs ours
            (Stable-Reaches c live n p no_toc) (served p)
            (λ k m r r' _ s d. Did-current c n (at current n) k m r r' s d refl))) in
    (
      close_toc c toc r,
      e,
      close_toc-exists c live toc patterns destroot solid new (at current n) r going
          (current_away c live n toc other destroot) done,
    )

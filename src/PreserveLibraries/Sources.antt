-- ===== src/PreserveLibraries/Sources.antt =====
-- Which file of a name `preserve_libraries` preserves.
use Prim.Native.String.{String}
use text.Mathlib.Text.{◌==◌ as str_eq}
use text.Mathlib.TextEquality.{eq_iff}
use mathlib.Core.Bool.{false≢true}
use mathlib.Core.List.{Memᴰ}
use mathlib.Core.List.Memᴰ
use macstrop.Shared.{
  ℕ, ◌≡◌, ◌≢◌, ◌⊎◌, sym, ap, ◌∙◌, subst, true, ◌&&◌, Option, none, some, List, ◌∷◌, map, inl, inr,
  Bool-cases,
}
use macstrop.PreserveLibraries.Tree.{
  Dir, Loc, at, current, in_previous, link, regular, Tree, resolve, max_symlinks,
}
use macstrop.PreserveLibraries.Preserve.{
  Config, Prefix, Run, own, preserve_pattern, each, preserve_libraries, open_toc, close_toc,
  current_libs, existing_backups,
}
use macstrop.PreserveLibraries.Extends.{IsSolid}
use macstrop.PreserveLibraries.Effect.{Did-Extends, TocDid-Extends}
use macstrop.PreserveLibraries.Loops.{Leads, Leads-then}
use macstrop.PreserveLibraries.Progress.{IsPlain, With}
use macstrop.PreserveLibraries.Patterns.{Stable, Brings, IsOurs}
use macstrop.PreserveLibraries.Rounds.{
  patterns-Leads, patterns-Leads_at, pattern-Leads_current, pattern-Leads_backup,
}
use macstrop.PreserveLibraries.Copies.{
  Untouched, IsCopy, IsCopy-Extends, IsCopy-resolve, Untouched-same, Did-IsCopy, other-Did,
  other-TocDid,
}
use macstrop.PreserveLibraries.Stability.{Stable-Extends, own_away, current_away, at-current}
use macstrop.PreserveLibraries.Ends.{IsNew, close_toc-resolve, preserve_libraries-Leads}

module _ (c : Config) (live : Prefix) (n : String) (k m : ℕ) where
  -- Nothing of the name yet, or a copy of the one file.
  abbrev IsOpen : Tree → Type 0
  IsOpen t = Untouched c n t ⊎ IsCopy c n k m t

  IsCopy-Stable : (p : String) → Stable c live p (IsCopy c n k m)
  IsCopy-Stable p = Stable-Extends c live n p (IsCopy c n k m) (IsCopy-Extends c n k m)

  -- The file itself settles it.
  settles :
      (d : Dir)
      → live.tree (at d n) ≡ some (regular k m)
      → ((t : Tree) → Untouched c n t → t (at d n) ≡ none)
      → Brings c live (at d n) IsOpen (IsCopy c n k m)
  settles d is_file new k' m' r r' f s did (inl u) =
      let same : regular k' m' ≡ regular k m = cc (f, is_file) in
      subst
        (λ x.
          (r'.tree (at (own c) n) ≡ some x)
          × (r'.tree (at current n) ≡ some (link (in_previous c.subport n))))
        same (Did-IsCopy c n d k' m' r r' did u (new r.tree u))
  settles d is_file new k' m' r r' f s did (inr copy) =
      IsCopy-Extends c n k m r.tree r'.tree (Did-Extends c (at d n) k' m' r r' did) copy

  leaves_IsOpen : (l : Loc) → l.name ≢ n → Brings c live l IsOpen IsOpen
  leaves_IsOpen l other k' m' r r' f s did (inl u) =
      inl (Untouched-same c n r.tree r'.tree (other-Did c n l k' m' r r' s did other) u)
  leaves_IsOpen l other k' m' r r' f s did (inr copy) =
      inr (IsCopy-Extends c n k m r.tree r'.tree (Did-Extends c l k' m' r r' did) copy)

  -- In the directory of the one file only that file has the name.
  keeps_IsOpen :
      (d : Dir) (names : List String) (l : Loc)
      → live.tree (at d n) ≡ some (regular k m)
      → ((t : Tree) → Untouched c n t → t (at d n) ≡ none)
      → Memᴰ l (map (at d) names)
      → Brings c live l IsOpen IsOpen
  keeps_IsOpen d names l is_file new h =
      let (name, _, e) = Memᴰ.of_map (at d) names h in
      elim (Bool-cases (str_eq name n)) [
        | inl same ↦
            subst (λ q. Brings c live q IsOpen IsOpen)
              (ap (at d) (sym ((eq_iff name n).0 same)) ∙ e)
              (λ k' m' r r' f s did x. inr (settles d is_file new k' m' r r' f s did x))
        | inr other ↦
            leaves_IsOpen l
              (λ f. false≢true (sym other ∙ (eq_iff name n).1 (ap (λ q. q.name) e ∙ f)))
      ]

IsOpen-Stable :
    (c : Config) (live : Prefix) (n : String) (k m : ℕ) (p : String)
    → ((l : Loc) → Memᴰ l (existing_backups c live p) → l.name ≢ n)
    → live.tree (at current n) ≡ some (regular k m)
    → ¬ Memᴰ n live.tocs
    → Stable c live p (IsOpen c live n k m)
unfolding current_libs
IsOpen-Stable c live n k m p no_backup is_file no_toc = record {
  by_backup = λ l h. leaves_IsOpen c live n k m l (no_backup l h);
  by_current =
      λ l h. keeps_IsOpen c live n k m current (live.glob current p) l is_file (λ t u. u.1) h;
  by_toc = λ name h k' m' r r' s did x.
      let other : name ≢ n = λ e. no_toc (subst (λ a. Memᴰ a live.tocs) e h) in
      elim x [
        | inl u ↦
            inl (Untouched-same c n r.tree r'.tree (other-TocDid c n name k' m' r r' s other did) u)
        | inr copy ↦
            inr (IsCopy-Extends c n k m r.tree r'.tree (TocDid-Extends c name k' m' r r' did) copy)
      ];
}

-- What the loop ends with is what the run ends with.
copy-kept :
    (c : Config) (live : Prefix) (toc : Option String) (patterns : List String) (destroot : Tree)
    (n : String) (k m : ℕ)
    → IsSolid destroot
    → IsNew c toc destroot
    → (c.enabled && live.srcdir_is_directory) ≡ true
    → toc ≢ some n
    → Untouched c n destroot
    → Leads
        (each (preserve_pattern c live) patterns)
        (With (open_toc c toc destroot) (IsOpen c live n k m))
        (With (open_toc c toc destroot) (IsCopy c n k m))
    → (r : Run) × (preserve_libraries c live toc patterns destroot ≡ some r)
      × (resolve max_symlinks r.tree (at current n) ≡ some (regular k m))
copy-kept c live toc patterns destroot n k m solid new on other untouched leads =
    let away = current_away c live n toc other destroot in
    let start_open = inl (
      Untouched-same c n destroot (open_toc c toc destroot)
        (own_away c live n toc other destroot, away) untouched) in
    let (r, e, (going, (preserved, linked_to))) =
      preserve_libraries-Leads c live toc patterns destroot solid new (IsOpen c live n k m)
        (IsCopy c n k m) on start_open leads in
    (
      close_toc c toc r,
      e,
      close_toc-resolve c live toc patterns destroot solid new (at current n) (regular k m) _ r
          going (away ∙ untouched.1) linked_to
          (IsCopy-resolve c n k m r.tree (preserved, linked_to)),
    )

-- Let the variant be set and the directory there, all files that are found on the disk regular,
-- and the destroot without dangling links and without a file of the new TOC's name. Take a library
-- of the port or of a port in `ports`, which lies in the directory and matches a pattern. If the
-- destroot has nothing of its name, no preserved copy of that name either, and no TOC and no
-- library preserved before has the name, then after the run its path leads to the contents and
-- permissions that it has on the disk.
pub preserve_libraries-current :
    (c : Config) (live : Prefix) (toc : Option String) (patterns : List String) (destroot : Tree)
    → IsPlain c live
    → IsSolid destroot
    → IsNew c toc destroot
    → (c.enabled && live.srcdir_is_directory) ≡ true
    → (p n : String) → Memᴰ p patterns
    → Memᴰ n (live.glob current p)
    → IsOurs c live (at current n)
    → toc ≢ some n
    → ¬ Memᴰ n live.tocs
    → ((q : String) (l : Loc) → Memᴰ q patterns → Memᴰ l (existing_backups c live q) → l.name ≢ n)
    → Untouched c n destroot
    → (r : Run) × (preserve_libraries c live toc patterns destroot ≡ some r)
      × (resolve max_symlinks r.tree (at current n) ≡ live.tree (at current n))
preserve_libraries-current c live toc patterns destroot plain solid new on p n in_patterns in_glob
      ours other no_toc no_backup untouched =
    let (k, m, is_file) = plain.found current p n in_glob in
    let start : Tree = open_toc c toc destroot in
    let one = settles c live n k m current is_file (λ t u. u.1) in
    let stable = λ (q : String) (h : Memᴰ q patterns).
      IsOpen-Stable c live n k m q (λ l h'. no_backup q l h h') is_file no_toc in
    let (r, e, leads_to) =
      copy-kept c live toc patterns destroot n k m solid new on other untouched (
        patterns-Leads_at c live plain start patterns p (IsOpen c live n k m) (IsCopy c n k m)
          in_patterns stable (λ q _. IsCopy-Stable c live n k m q)
          (pattern-Leads_current c live plain start p (IsOpen c live n k m) (IsCopy c n k m)
            (at current n) (at-current c live n p in_glob) ours (stable p in_patterns)
            (IsCopy-Stable c live n k m p) one)) in
    (r, e, leads_to ∙ sym is_file)

-- Let the variant be set and the directory there, all files that are found on the disk regular,
-- and the destroot without dangling links and without a file of the new TOC's name. If the port
-- has preserved a library before, which matches the first pattern, the destroot has nothing of its
-- name and no preserved copy of that name, and the new TOC has another name, then after the run
-- the path of the library leads to that older file, also where the port has installed a newer one
-- of the name.
pub preserve_libraries-oldest :
    (c : Config) (live : Prefix) (toc : Option String) (p : String) (patterns : List String)
    (destroot : Tree)
    → IsPlain c live
    → IsSolid destroot
    → IsNew c toc destroot
    → (c.enabled && live.srcdir_is_directory) ≡ true
    → (n : String) → Memᴰ n (live.glob (own c) p)
    → toc ≢ some n
    → Untouched c n destroot
    → (r : Run) × (preserve_libraries c live toc (p ∷ patterns) destroot ≡ some r)
      × (resolve max_symlinks r.tree (at current n) ≡ live.tree (at (own c) n))
unfolding each
preserve_libraries-oldest c live toc p patterns destroot plain solid new on n in_glob other
      untouched =
    let (k, m, is_file) = plain.found (own c) p n in_glob in
    let start : Tree = open_toc c toc destroot in
    let first =
      pattern-Leads_backup c live plain start p (IsOpen c live n k m) (IsCopy c n k m)
        (at (own c) n) (Memᴰ.map (at (own c)) in_glob)
        (λ l h. keeps_IsOpen c live n k m (own c) (live.glob (own c) p) l is_file (λ t u. u.0) h)
        (IsCopy-Stable c live n k m p) (settles c live n k m (own c) is_file (λ t u. u.0)) in
    let (r, e, leads_to) =
      copy-kept c live toc (p ∷ patterns) destroot n k m solid new on other untouched (
        Leads-then (preserve_pattern c live p) (each (preserve_pattern c live) patterns)
          (With start (IsOpen c live n k m)) (With start (IsCopy c n k m))
          (With start (IsCopy c n k m)) first
          (patterns-Leads c live plain start patterns (IsCopy c n k m)
            (λ q _. IsCopy-Stable c live n k m q))) in
    (r, e, leads_to ∙ sym is_file)

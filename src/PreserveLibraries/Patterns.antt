-- ===== src/PreserveLibraries/Patterns.antt =====
-- What `preserve_libraries` does with a pattern: the loops over the preserved libraries, the TOCs and the
-- current libraries that match it.
use Prim.Native.String.{String}
use text.Mathlib.Text.{◌==◌ as str_eq}
use mathlib.Core.List.{Memᴰ}
use mathlib.Core.List.Memᴰ
use macstrop.Shared.{
  ℕ, ◌≡◌, refl, subst, true, ◌||◌, some, List, [], ◌∷◌, map, inl, inr, Bool-cases, if◌then◌else◌,
}
use macstrop.PreserveLibraries.Tree.{Dir, Loc, at, current, previous, regular, Tree}
use macstrop.PreserveLibraries.Preserve.{
  Config, Prefix, Run, own, preserve_backup, preserve_current, provider, listed, existing_backups,
  current_libs, flat, old_exported, old_hidden, current_copied, current_exported,
}
use macstrop.PreserveLibraries.Extends.{IsSolid}
use macstrop.PreserveLibraries.Step.{Did, TocDid, append_nonempty}
use macstrop.PreserveLibraries.Loops.{Leads}
use macstrop.PreserveLibraries.Progress.{IsRegular, IsPlain, With, preserve_file-Leads}

module _ (c : Config) (live : Prefix) where
  -- The registry gives the file to the port, or to one of the listed ports.
  abbrev pub IsOurs : Loc → Type 0
  IsOurs l = (str_eq (live.registered l) c.subport || listed (live.registered l) c.ports) ≡ true

  -- What a file brings about.
  abbrev pub Brings : Loc → (Tree → Type 0) → (Tree → Type 0) → Type 0
  Brings l X Y =
      (k m : ℕ) (r r' : Run)
      → live.tree l ≡ some (regular k m)
      → IsSolid r.tree
      → Did c l (regular k m) r r'
      → X r.tree
      → Y r'.tree

  -- No file that a pattern finds takes `X` away.
  pub record Stable (pattern : String) (X : Tree → Type 0) : Type 0 where
    pub by_backup : (l : Loc) → Memᴰ l (existing_backups c live pattern) → Brings l X X
    pub by_current : (l : Loc) → Memᴰ l (current_libs live pattern) → Brings l X X
    pub by_toc :
        (name : String)
        → Memᴰ name live.tocs
        → (k m : ℕ) (r r' : Run) → IsSolid r.tree
        → TocDid c name (regular k m) r r'
        → X r.tree
        → X r'.tree

Memᴰ-flat :
    {A B : Type 0} (f : A → List B) (y : B) (xs : List A)
    → Memᴰ y (flat f xs)
    → (x : A) × Memᴰ x xs × Memᴰ y (f x)
unfolding flat
Memᴰ-flat f y [] m = elim m [ ]
Memᴰ-flat f y (x ∷ xs) m = elim (Memᴰ.append_cases (f x) m) [
  | inl h ↦ (x, Memᴰ.head refl, h)
  | inr h ↦ let (x', a, b) = Memᴰ-flat f y xs h in (x', Memᴰ.tail a, b)
]

module _ (c : Config) (live : Prefix) (plain : IsPlain c live) (start : Tree) where
  found_at :
      (d : Dir) (pattern : String) (l : Loc)
      → Memᴰ l (map (at d) (live.glob d pattern))
      → IsRegular live l
  found_at d pattern l m =
      let (name, h, e) = Memᴰ.of_map (at d) (live.glob d pattern) m in
      subst (IsRegular live) e (plain.found d pattern name h)

  pub backup-IsRegular :
      (pattern : String) (l : Loc) → Memᴰ l (existing_backups c live pattern) → IsRegular live l
  unfolding existing_backups
  backup-IsRegular pattern l m =
      let (d, _, h) =
        Memᴰ-flat (λ d. map (at d) (live.glob d pattern)) l (own c ∷ map previous c.ports) m in
      found_at d pattern l h

  pub current-IsRegular :
      (pattern : String) (l : Loc) → Memᴰ l (current_libs live pattern) → IsRegular live l
  unfolding current_libs
  current-IsRegular pattern l m = found_at current pattern l m

  pub preserve_backup-Leads :
      (l : Loc) (X Y : Tree → Type 0)
      → IsRegular live l
      → Brings c live l X Y
      → Leads (preserve_backup c live l) (With start X) (With start Y)
  unfolding preserve_backup
  preserve_backup-Leads l X Y (k, m, is_file) so =
      preserve_file-Leads c live start (λ _. old_exported l.name ∷ []) (old_hidden l ∷ []) l k m X Y
        (λ _ e. cc) (λ e. cc) is_file (λ r r'. so k m r r' is_file)

  pub ours-Leads :
      (l : Loc) (X Y : Tree → Type 0)
      → IsRegular live l
      → IsOurs c live l
      → Brings c live l X Y
      → Leads (preserve_current c live l) (With start X) (With start Y)
  unfolding preserve_current
  ours-Leads l X Y (k, m, is_file) ours so = rw ours (
      preserve_file-Leads c live start _ _ l k m X Y
        (λ a_link.
          append_nonempty (if a_link then [] else current_copied l ∷ [])
            (current_exported l.name ∷ provider c (live.registered l)) (λ e. cc))
        (λ e. cc) is_file (λ r r'. so k m r r' is_file))

  pub preserve_current-Leads :
      (l : Loc) (X : Tree → Type 0)
      → IsRegular live l
      → Brings c live l X X
      → Leads (preserve_current c live l) (With start X) (With start X)
  unfolding preserve_current
  preserve_current-Leads l X is_file so =
      elim (Bool-cases
        (str_eq (live.registered l) c.subport || listed (live.registered l) c.ports)) [
          | inl ours ↦ ours-Leads l X X is_file ours so
          | inr other ↦ rw other (λ r p. (r, refl, p))
        ]

-- ===== src/PreserveLibraries/Rounds.antt =====
-- `preserve_libraries` from its first pattern to its last.
use Prim.Native.String.{String}
use mathlib.Core.List.{Memᴰ}
use mathlib.Core.List.Memᴰ
use macstrop.Shared.{map, List}
use macstrop.PreserveLibraries.Tree.{previous, Loc, at, Tree}
use macstrop.PreserveLibraries.Preserve.{
  Config, Prefix, Run, own, preserve_toc, preserve_backup, preserve_current, existing_backups,
  current_libs, preserve_pattern, each, flat,
}
use macstrop.PreserveLibraries.Loops.{Leads, Leads-then, Leads-each, Leads-each_at, Leads-append}
use macstrop.PreserveLibraries.Progress.{IsPlain, With, preserve_toc-Leads}
use macstrop.PreserveLibraries.Patterns.{
  IsOurs, Brings, Stable, preserve_backup-Leads, preserve_current-Leads, ours-Leads,
  backup-IsRegular, current-IsRegular,
}

module _ (c : Config) (live : Prefix) (plain : IsPlain c live) (start : Tree) where
  backups-Leads :
      (p : String) (X : Tree → Type 0)
      → Stable c live p X
      → Leads
          (each (preserve_backup c live) (existing_backups c live p))
          (With start X)
          (With start X)
  backups-Leads p X st =
      Leads-each (preserve_backup c live) (With start X) (existing_backups c live p) (λ l m.
        preserve_backup-Leads c live plain start l X X (backup-IsRegular c live plain start p l m)
          (st.by_backup l m))

  tocs-Leads :
      (p : String) (X : Tree → Type 0)
      → Stable c live p X
      → Leads (each (preserve_toc c live) live.tocs) (With start X) (With start X)
  tocs-Leads p X st = Leads-each (preserve_toc c live) (With start X) live.tocs (λ name m.
      let (k, o, is_file) = plain.found_toc name m in
      preserve_toc-Leads c live start name k o X is_file (st.by_toc name m k o))

  currents-Leads :
      (p : String) (X : Tree → Type 0)
      → Stable c live p X
      → Leads (each (preserve_current c live) (current_libs live p)) (With start X) (With start X)
  currents-Leads p X st =
      Leads-each (preserve_current c live) (With start X) (current_libs live p) (λ l m.
        preserve_current-Leads c live plain start l X (current-IsRegular c live plain start p l m)
          (st.by_current l m))

  in_turn :
      (p : String) (W X Y Z : Run → Type 0)
      → Leads (each (preserve_backup c live) (existing_backups c live p)) W X
      → Leads (each (preserve_toc c live) live.tocs) X Y
      → Leads (each (preserve_current c live) (current_libs live p)) Y Z
      → Leads (preserve_pattern c live p) W Z
  unfolding preserve_pattern
  in_turn p W X Y Z f g h =
      Leads-then (each (preserve_backup c live) (existing_backups c live p)) _ W X Z f (
        Leads-then (each (preserve_toc c live) live.tocs)
          (each (preserve_current c live) (current_libs live p)) X Y Z g h)

  pattern-Leads :
      (p : String) (X : Tree → Type 0)
      → Stable c live p X
      → Leads (preserve_pattern c live p) (With start X) (With start X)
  pattern-Leads p X st =
      in_turn p _ (With start X) (With start X) _ (backups-Leads p X st) (tocs-Leads p X st)
        (currents-Leads p X st)

  pub pattern-Leads_current :
      (p : String) (X Y : Tree → Type 0) (l : Loc)
      → Memᴰ l (current_libs live p)
      → IsOurs c live l
      → Stable c live p X
      → Stable c live p Y
      → Brings c live l X Y
      → Leads (preserve_pattern c live p) (With start X) (With start Y)
  pattern-Leads_current p X Y l m ours st st' so =
      in_turn p _ (With start X) (With start X) _ (backups-Leads p X st) (tocs-Leads p X st) (
        Leads-each_at (preserve_current c live) (With start X) (With start Y) l
          (current_libs live p) m
          (λ l m.
            preserve_current-Leads c live plain start l X
              (current-IsRegular c live plain start p l m) (st.by_current l m))
          (λ l m.
            preserve_current-Leads c live plain start l Y
              (current-IsRegular c live plain start p l m) (st'.by_current l m))
          (ours-Leads c live plain start l X Y (current-IsRegular c live plain start p l m) ours
            so))

  -- The port's own preserved libraries are handled before all others.
  pub pattern-Leads_backup :
      (p : String) (X Y : Tree → Type 0) (l : Loc)
      → Memᴰ l (map (at (own c)) (live.glob (own c) p))
      → ((l : Loc) → Memᴰ l (map (at (own c)) (live.glob (own c) p)) → Brings c live l X X)
      → Stable c live p Y
      → Brings c live l X Y
      → Leads (preserve_pattern c live p) (With start X) (With start Y)
  unfolding existing_backups flat
  pattern-Leads_backup p X Y l m keep st so =
      let owns = map (at (own c)) (live.glob (own c) p) in
      let others = flat (λ d. map (at d) (live.glob d p)) (map previous c.ports) in
      let regular_at = λ (l : Loc) (m : Memᴰ l owns).
        backup-IsRegular c live plain start p l (Memᴰ.append_left others m) in
      in_turn p _ (With start Y) (With start Y) _
        (Leads-append (preserve_backup c live) owns others (With start X) (With start Y)
          (With start Y)
          (Leads-each_at (preserve_backup c live) (With start X) (With start Y) l owns m
            (λ l m. preserve_backup-Leads c live plain start l X X (regular_at l m) (keep l m))
            (λ l m.
              preserve_backup-Leads c live plain start l Y Y (regular_at l m)
                (st.by_backup l (Memᴰ.append_left others m)))
            (preserve_backup-Leads c live plain start l X Y (regular_at l m) so))
          (Leads-each (preserve_backup c live) (With start Y) others (λ l m.
            preserve_backup-Leads c live plain start l Y Y
              (backup-IsRegular c live plain start p l (Memᴰ.append_right owns m))
              (st.by_backup l (Memᴰ.append_right owns m)))))
        (tocs-Leads p Y st) (currents-Leads p Y st)

  pub patterns-Leads :
      (ps : List String) (X : Tree → Type 0)
      → ((p : String) → Memᴰ p ps → Stable c live p X)
      → Leads (each (preserve_pattern c live) ps) (With start X) (With start X)
  patterns-Leads ps X st =
      Leads-each (preserve_pattern c live) (With start X) ps (λ p m. pattern-Leads p X (st p m))

  pub patterns-Leads_at :
      (ps : List String) (p : String) (X Y : Tree → Type 0)
      → Memᴰ p ps
      → ((p : String) → Memᴰ p ps → Stable c live p X)
      → ((p : String) → Memᴰ p ps → Stable c live p Y)
      → Leads (preserve_pattern c live p) (With start X) (With start Y)
      → Leads (each (preserve_pattern c live) ps) (With start X) (With start Y)
  patterns-Leads_at ps p X Y m st st' one =
      Leads-each_at (preserve_pattern c live) (With start X) (With start Y) p ps m
        (λ p m. pattern-Leads p X (st p m)) (λ p m. pattern-Leads p Y (st' p m)) one

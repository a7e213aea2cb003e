-- ===== src/LangSelect/Spec.antt =====
-- The rules that the options of a port stand for, and what the block leaves by them.
use mathlib.Core.List.{append-nil}
use macstrop.Shared.Bools.{true_not_false, or_false}
use macstrop.Shared.{
  ℕ, ◌+◌, ◌≡◌, refl, sym, ap, ◌∙◌, Bool, false, List, [], ◌∷◌, ◌++◌, if◌then◌else◌, Bool-cases,
  Option-cases, inl, inr,
}
use macstrop.Shared.Texts.{Text}
use macstrop.LangSelect.Tree.{
  FilePath, Files, parts, child_name, is_under, is_there, glob, prune, without, delete_each,
}
use macstrop.LangSelect.Loops.{
  Options, any_file, any_folder, with_end, folder_with_end, dot_html, dot_lproj, in_destroot,
  shared_dirs, keep_shared, keep_qm, keep_html, keep_folder, prune_shared, prune_qm, prune_html,
  prune_folders, prune_all,
}
use macstrop.LangSelect.Prune.{Rule}
use macstrop.LangSelect.Paths.{child_name-is_under}
use macstrop.LangSelect.Rules.{apply_rules, gone_by, apply_rules-gone_by, apply_rules_twice}

module _ (opts : Options) (keep : List Text) where
  abbrev pub shared_rules : List Text → List Rule
  shared_rules [] = []
  shared_rules (d ∷ ds) =
      record { dir = parts d; pattern = any_file; keep = keep_shared opts keep } ∷ shared_rules ds

  abbrev pub qm_rules : ℕ → List Text → List Rule
  qm_rules qmidx [] = []
  qm_rules qmidx (ld ∷ lds) =
      record {
        dir = parts (in_destroot opts ld);
        pattern = with_end (b'.' ∷ opts.qm_ext);
        keep = keep_qm opts keep qmidx;
      }
      ∷ qm_rules (qmidx + 1) lds

  abbrev pub html_rules : List Text → List Rule
  html_rules [] = []
  html_rules (lhd ∷ lhds) =
      record {
        dir = parts (in_destroot opts (opts.join lhd));
        pattern = with_end dot_html;
        keep = keep_html opts keep (in_destroot opts (opts.join lhd));
      }
      ∷ html_rules lhds

  abbrev pub folder_rules : (Text → Bool → Bool) → List Text → List Rule
  folder_rules pattern [] = []
  folder_rules pattern (ldd ∷ ldds) =
      record {
        dir = parts (in_destroot opts (opts.join ldd));
        pattern = pattern;
        keep = keep_folder opts keep;
      }
      ∷ folder_rules pattern ldds

  abbrev lproj_rules : List Rule
  lproj_rules = folder_rules (folder_with_end dot_lproj) opts.lproj_dir

  abbrev folders_and_lproj : List Rule
  folders_and_lproj = folder_rules any_folder opts.dirs_dir ++ lproj_rules

  abbrev html_and_on : List Rule
  html_and_on = html_rules opts.html_dir ++ folders_and_lproj

  abbrev qm_and_on : List Rule
  qm_and_on = qm_rules 0 opts.qm_dir ++ html_and_on

  -- All folders that are looked through, with the files of each that are looked at and those that
  -- are kept.
  abbrev pub rules : List Rule
  rules = shared_rules (shared_dirs opts) ++ qm_and_on

  -- In a folder that is not there nothing is found.
  glob_absent :
      (pattern : Text → Bool → Bool) (d : FilePath) (t : Files)
      → is_there d t ≡ false
      → glob pattern d t ≡ []
  unfolding glob is_there
  glob_absent pattern d [] e = refl
  glob_absent pattern d (v ∷ t) e = elim (Option-cases (child_name d v.path)) [
    | inl other ↦
        rw (other, glob) (glob_absent pattern d t (or_false (is_under d v.path) (is_there d t) e).1)
    | inr (n, is) ↦ absurd (
        true_not_false (
          sym (child_name-is_under d v.path n is)
          ∙ (or_false (is_under d v.path) (is_there d t) e).0))
  ]

  prune_absent :
      (pattern : Text → Bool → Bool) (kept : Text → Bool) (d : FilePath) (t : Files)
      → (if is_there d t then prune pattern kept d t else t) ≡ prune pattern kept d t
  unfolding prune delete_each
  prune_absent pattern kept d t = elim (Bool-cases (is_there d t)) [
    | inl there ↦ rw (there) refl
    | inr absent ↦
        rw (absent) (ap (λ ns. delete_each kept d ns t) (sym (glob_absent pattern d t absent)))
  ]

  -- Each loop is its rules, whatever rules come behind.
  prune_shared-rules :
      (ds : List Text) (rest : List Rule) (t : Files)
      → apply_rules rest (prune_shared opts keep ds t) ≡ apply_rules (shared_rules ds ++ rest) t
  unfolding prune_shared
  prune_shared-rules [] rest t = refl
  prune_shared-rules (d ∷ ds) rest t =
      prune_shared-rules ds rest (prune any_file (keep_shared opts keep) (parts d) t)

  prune_qm-rules :
      (qmidx : ℕ) (lds : List Text) (rest : List Rule) (t : Files)
      → apply_rules rest (prune_qm opts keep qmidx lds t)
        ≡ apply_rules (qm_rules qmidx lds ++ rest) t
  unfolding prune_qm
  prune_qm-rules qmidx [] rest t = refl
  prune_qm-rules qmidx (ld ∷ lds) rest t = prune_qm-rules (qmidx + 1) lds rest (
      prune (with_end (b'.' ∷ opts.qm_ext)) (keep_qm opts keep qmidx) (parts (in_destroot opts ld))
        t)

  prune_html-rules :
      (lhds : List Text) (rest : List Rule) (t : Files)
      → apply_rules rest (prune_html opts keep lhds t) ≡ apply_rules (html_rules lhds ++ rest) t
  unfolding prune_html
  prune_html-rules [] rest t = refl
  prune_html-rules (lhd ∷ lhds) rest t =
      let dir = in_destroot opts (opts.join lhd) in
      ap (λ u. apply_rules rest (prune_html opts keep lhds u))
        (prune_absent (with_end dot_html) (keep_html opts keep dir) (parts dir) t)
      ∙ prune_html-rules lhds rest
          (prune (with_end dot_html) (keep_html opts keep dir) (parts dir) t)

  prune_folders-rules :
      (pattern : Text → Bool → Bool) (ldds : List Text) (rest : List Rule) (t : Files)
      → apply_rules rest (prune_folders opts keep pattern ldds t)
        ≡ apply_rules (folder_rules pattern ldds ++ rest) t
  unfolding prune_folders
  prune_folders-rules pattern [] rest t = refl
  prune_folders-rules pattern (ldd ∷ ldds) rest t =
      let dir = parts (in_destroot opts (opts.join ldd)) in
      ap (λ u. apply_rules rest (prune_folders opts keep pattern ldds u))
        (prune_absent pattern (keep_folder opts keep) dir t)
      ∙ prune_folders-rules pattern ldds rest (prune pattern (keep_folder opts keep) dir t)

  pub prune_all-rules : (t : Files) → prune_all opts keep t ≡ apply_rules rules t
  unfolding prune_all
  prune_all-rules t =
      let t1 = prune_shared opts keep (shared_dirs opts) t in
      let t2 = prune_qm opts keep 0 opts.qm_dir t1 in
      let t3 = prune_html opts keep opts.html_dir t2 in
      let t4 = prune_folders opts keep any_folder opts.dirs_dir t3 in
      prune_folders-rules (folder_with_end dot_lproj) opts.lproj_dir [] t4
      ∙ (ap (λ rs. apply_rules rs t4) (append-nil lproj_rules)
          ∙ (prune_folders-rules any_folder opts.dirs_dir lproj_rules t3
              ∙ (prune_html-rules opts.html_dir folders_and_lproj t2
                  ∙ (prune_qm-rules 0 opts.qm_dir html_and_on t1
                      ∙ prune_shared-rules (shared_dirs opts) qm_and_on t))))

  -- The block deletes, in five loops over folders, just what a single look at the files before it
  -- finds: a file goes when it is, or is below, a file of one of the folders that is visible, fits
  -- the pattern for that folder, and is not kept there. All other files stay, in their order.
  pub prune_all-gone_by : (t : Files) → prune_all opts keep t ≡ without (λ p. gone_by rules t p) t
  prune_all-gone_by t = prune_all-rules t ∙ apply_rules-gone_by rules t

  -- Going through the folders once more deletes nothing.
  pub prune_all_twice :
      (t : Files) → prune_all opts keep (prune_all opts keep t) ≡ prune_all opts keep t
  prune_all_twice t =
      prune_all-rules (prune_all opts keep t)
      ∙ (ap (apply_rules rules) (prune_all-rules t)
          ∙ (apply_rules_twice rules t ∙ sym (prune_all-rules t)))

-- ===== src/LangSelect/Tests.antt =====
-- A destroot with translations to German and French, of which German is kept.
use mathlib.Core.List.{Memᴰ}
use macstrop.Shared.{◌≡◌, refl, sym, ap, subst, true, false, some, [], ◌∷◌, ◌++◌}
use macstrop.Shared.Texts.{is_listed, Text, text_eq, has_char}
use macstrop.TclNames.{starts_with, file_rootname}
use macstrop.LangSelect.Tree.{
  FilePath, DirEntry, Files, name_before, parts_from, parts, is_under, child_name, is_visible, glob,
  is_there, without, delete, delete_each, prune,
}
use macstrop.LangSelect.Loops.{
  Options, ends_with, any_file, with_end, in_destroot, shared_dirs, check_against_basenames,
  qm_language, keep_shared, keep_qm, prune_shared, prune_qm, prune_html, prune_folders, prune_all,
  Locales, is_applicable, read_and_prune, post_destroot,
}
use macstrop.LangSelect.Prune.{Rule}
use macstrop.LangSelect.Rules.{gone_by}
use macstrop.LangSelect.Spec.{rules, prune_all-gone_by}
use macstrop.LangSelect.Left.{prune_all-keeps, post_destroot_twice}
use macstrop.LangSelect.Outside.{prune_all-outside}

abbrev d : Text
d = b'd' ∷ []

abbrev p : Text
p = b'p' ∷ []

abbrev de : Text
de = b'd' ∷ b'e' ∷ []

abbrev fr : Text
fr = b'f' ∷ b'r' ∷ []

abbrev locale : Text
locale = b'l' ∷ b'o' ∷ b'c' ∷ b'a' ∷ b'l' ∷ b'e' ∷ []

abbrev sharing : Text
sharing = b's' ∷ b'h' ∷ b'a' ∷ b'r' ∷ b'e' ∷ []

-- "de.qm" and "fr.qm"
abbrev qm : Text
qm = b'q' ∷ b'm' ∷ []

abbrev de_qm : Text
de_qm = de ++ b'.' ∷ qm

abbrev fr_qm : Text
fr_qm = fr ++ b'.' ∷ qm

-- The prefix is "/p", the destroot "/d", and "/p/t" has files for Qt.
abbrev options : Options
options = record {
  destroot = b'/' ∷ d;
  prefix = b'/' ∷ p;
  workpath = b'/' ∷ b'w' ∷ [];
  qm_dir = (b'/' ∷ b'p' ∷ b'/' ∷ b't' ∷ []) ∷ [];
  qm_basename = [];
  qm_basename_text = [];
  qm_ext = qm;
  html_dir = [];
  dirs_dir = [];
  lproj_dir = [];
  join = λ name. name;
  string_match = λ pattern name. false;
}

abbrev file : FilePath → DirEntry
file path = record { path = path; is_dir = false }

abbrev folder : FilePath → DirEntry
folder path = record { path = path; is_dir = true }

abbrev german : DirEntry
german = folder (d ∷ p ∷ sharing ∷ locale ∷ de ∷ [])

abbrev tool : DirEntry
tool = file (d ∷ p ∷ (b'b' ∷ []) ∷ [])

abbrev files : Files
files =
    folder (d ∷ p ∷ sharing ∷ locale ∷ [])
    ∷ german
    ∷ folder (d ∷ p ∷ sharing ∷ locale ∷ fr ∷ [])
    ∷ file (d ∷ p ∷ sharing ∷ locale ∷ fr ∷ (b'm' ∷ []) ∷ [])
    ∷ file (d ∷ p ∷ (b't' ∷ []) ∷ fr_qm ∷ [])
    ∷ file (d ∷ p ∷ (b't' ∷ []) ∷ de_qm ∷ [])
    ∷ tool
    ∷ []

abbrev left : Files
left =
    folder (d ∷ p ∷ sharing ∷ locale ∷ [])
    ∷ german
    ∷ file (d ∷ p ∷ (b't' ∷ []) ∷ de_qm ∷ [])
    ∷ tool
    ∷ []

left_all : prune_all options (de ∷ []) files ≡ left
unfolding prune_all prune_shared prune_qm prune_html prune_folders prune glob delete_each delete
    without is_under child_name is_visible parts parts_from name_before is_listed ends_with any_file
    with_end in_destroot shared_dirs keep_shared keep_qm qm_language check_against_basenames
    file_rootname starts_with text_eq has_char
left_all = refl

prune_all-gone_by_example :
    prune_all options (de ∷ []) files
    ≡ without (λ path. gone_by (rules options (de ∷ [])) files path) files
prune_all-gone_by_example = prune_all-gone_by options (de ∷ []) files

german_left : Memᴰ german (prune_all options (de ∷ []) files)
german_left = subst (Memᴰ german) (sym left_all) (Memᴰ.tail (Memᴰ.head refl))

prune_all-keeps_example :
    Memᴰ german files
    × ((r : Rule) (n : Text)
        → Memᴰ r (rules options (de ∷ []))
        → child_name r.dir german.path ≡ some n
        → is_visible n ≡ true
        → r.pattern n german.is_dir ≡ true
        → r.keep n ≡ true)
prune_all-keeps_example = prune_all-keeps options (de ∷ []) files german german_left

abbrev locales : Locales
locales = record {
  file_exists = true;
  sourced = some (some (de ∷ []));
  has_nonstandard_locations = false;
  qm_dir_exists = false;
}

block_left : post_destroot options locales files ≡ some left
unfolding post_destroot is_applicable read_and_prune parts parts_from name_before is_there is_under
    text_eq
block_left = ap some left_all

post_destroot_twice_example : post_destroot options locales left ≡ some left
post_destroot_twice_example = post_destroot_twice options locales files left block_left

-- "/d/p/b" is below none of the folders.
tool_outside : (r : Rule) → Memᴰ r (rules options (de ∷ [])) → is_under r.dir tool.path ≡ false
unfolding is_under parts parts_from name_before in_destroot shared_dirs starts_with text_eq
tool_outside r (Memᴰ.head e) = ap (λ x. is_under x.dir tool.path) e
tool_outside r (Memᴰ.tail (Memᴰ.head e)) = ap (λ x. is_under x.dir tool.path) e
tool_outside r (Memᴰ.tail (Memᴰ.tail (Memᴰ.head e))) = ap (λ x. is_under x.dir tool.path) e
tool_outside r (Memᴰ.tail (Memᴰ.tail (Memᴰ.tail (Memᴰ.head e)))) =
    ap (λ x. is_under x.dir tool.path) e
tool_outside r (Memᴰ.tail (Memᴰ.tail (Memᴰ.tail (Memᴰ.tail m)))) = elim m [ ]

prune_all-outside_example : Memᴰ tool (prune_all options (de ∷ []) files)
prune_all-outside_example =
    prune_all-outside options (de ∷ []) files tool
      (Memᴰ.tail (Memᴰ.tail (Memᴰ.tail (Memᴰ.tail (Memᴰ.tail (Memᴰ.tail (Memᴰ.head refl)))))))
      tool_outside

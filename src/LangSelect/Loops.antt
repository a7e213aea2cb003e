-- ===== src/LangSelect/Loops.antt =====
-- The `post-destroot` block of the variant: five loops over folders of translations.
use macstrop.Shared.{
  ℕ, zero, suc, ◌+◌, Bool, true, false, ◌&&◌, ◌||◌, Option, none, some, List, [], ◌∷◌, ◌++◌,
  if◌then◌else◌, ◌==◌, length,
}
use macstrop.Shared.Texts.{Text, text_eq, is_listed}
use macstrop.TclNames.{starts_with, remove, file_rootname}
use macstrop.LangSelect.Tree.{Files, parts, is_there, prune}

-- The options of the port. `join` and `string match` are the commands of Tcl; `qm_basename_text`
-- is the option `langselect_qm_basename` as a text.
pub record Options : Type 0 where
  pub destroot : Text
  pub prefix : Text
  pub workpath : Text
  pub qm_dir : List Text
  pub qm_basename : List Text
  pub qm_basename_text : Text
  pub qm_ext : Text
  pub html_dir : List Text
  pub dirs_dir : List Text
  pub lproj_dir : List Text
  pub join : Text → Text
  pub string_match : Text → Text → Bool

-- "man", "cat", ".html" and ".lproj", and "share/locale", "share/doc/HTML" and "share/man".
abbrev pub man : Text
man = b'm' ∷ b'a' ∷ b'n' ∷ []

abbrev pub cat : Text
cat = b'c' ∷ b'a' ∷ b't' ∷ []

abbrev pub dot_html : Text
dot_html = b'.' ∷ b'h' ∷ b't' ∷ b'm' ∷ b'l' ∷ []

abbrev pub dot_lproj : Text
dot_lproj = b'.' ∷ b'l' ∷ b'p' ∷ b'r' ∷ b'o' ∷ b'j' ∷ []

abbrev pub share : Text
share = b'/' ∷ b's' ∷ b'h' ∷ b'a' ∷ b'r' ∷ b'e' ∷ b'/' ∷ []

abbrev pub share_locale : Text
share_locale = share ++ b'l' ∷ b'o' ∷ b'c' ∷ b'a' ∷ b'l' ∷ b'e' ∷ []

abbrev pub share_html : Text
share_html = share ++ b'd' ∷ b'o' ∷ b'c' ∷ b'/' ∷ b'H' ∷ b'T' ∷ b'M' ∷ b'L' ∷ []

abbrev pub share_man : Text
share_man = share ++ man

unfoldable pub ends_with : Text → Text → Bool
unfolding text_eq
ends_with end [] = text_eq end []
ends_with end (c ∷ cs) = text_eq end (c ∷ cs) || ends_with end cs

-- `lindex`, which is empty out of range.
unfoldable pub lindex : List Text → ℕ → Text
lindex [] i = []
lindex (l ∷ ls) zero = l
lindex (l ∷ ls) (suc i) = lindex ls i

-- The patterns `*`, `*.ext`, and `*` and `*.lproj` with `-types d`.
unfoldable pub any_file : Text → Bool → Bool
any_file name is_dir = true

unfoldable pub with_end : Text → Text → Bool → Bool
unfolding ends_with
with_end end name is_dir = ends_with end name

unfoldable pub any_folder : Text → Bool → Bool
any_folder name is_dir = is_dir

unfoldable pub folder_with_end : Text → Text → Bool → Bool
unfolding ends_with
folder_with_end end name is_dir = is_dir && ends_with end name

module _ (opts : Options) where
  -- A folder of an option: below the destroot, or in the folder of the build.
  unfoldable pub in_destroot : Text → Text
  unfolding starts_with
  in_destroot dir = if starts_with opts.workpath dir then dir else opts.destroot ++ b'/' ∷ dir

  unfoldable pub shared_dirs : List Text
  shared_dirs =
      (opts.destroot ++ opts.prefix ++ share_locale)
      ∷ (opts.destroot ++ opts.prefix ++ share_html)
      ∷ (opts.destroot ++ opts.prefix ++ share_man)
      ∷ []

  unfoldable pub check_against_basenames : List Text → Text → Bool
  check_against_basenames [] name = false
  check_against_basenames (b ∷ bs) name =
      opts.string_match (b ++ b'*' ∷ []) name || check_against_basenames bs name

  -- The language of a file in the folder of that index.
  unfoldable pub qm_language : ℕ → Text → Text
  unfolding file_rootname remove lindex
  qm_language index name = elim opts.qm_basename [
    | [] ↦ file_rootname name
    | b ∷ bs ↦
        if length opts.qm_dir == length opts.qm_basename
        then remove (lindex opts.qm_basename index) (file_rootname name)
        else remove opts.qm_basename_text (file_rootname name)
  ]

  module _ (keep_languages : List Text) where
    unfoldable pub keep_shared : Text → Bool
    unfolding is_listed starts_with
    keep_shared lang = is_listed keep_languages lang || starts_with man lang || starts_with cat lang

    unfoldable pub keep_qm : ℕ → Text → Bool
    unfolding is_listed qm_language check_against_basenames
    keep_qm index name =
        is_listed keep_languages (qm_language index name)
        || check_against_basenames opts.qm_basename (qm_language index name)

    unfoldable pub matches_html : List Text → Text → Bool
    matches_html [] file = false
    matches_html (lang ∷ langs) file =
        opts.string_match (b'*' ∷ lang ++ dot_html) file || matches_html langs file

    unfoldable pub keep_html : Text → Text → Bool
    unfolding matches_html
    keep_html dir name = matches_html keep_languages (dir ++ b'/' ∷ name)

    unfoldable pub keep_folder : Text → Bool
    unfolding is_listed file_rootname
    keep_folder name = is_listed keep_languages (file_rootname name)

    unfoldable pub prune_shared : List Text → Files → Files
    unfolding prune parts any_file keep_shared
    prune_shared [] t = t
    prune_shared (d ∷ ds) t = prune_shared ds (prune any_file keep_shared (parts d) t)

    -- `qmidx` counts the folders.
    unfoldable pub prune_qm : ℕ → List Text → Files → Files
    unfolding prune parts with_end keep_qm in_destroot
    prune_qm qmidx [] t = t
    prune_qm qmidx (ld ∷ lds) t =
        prune_qm (qmidx + 1) lds
          (prune (with_end (b'.' ∷ opts.qm_ext)) (keep_qm qmidx) (parts (in_destroot ld)) t)

    unfoldable pub prune_html : List Text → Files → Files
    unfolding prune parts with_end keep_html in_destroot is_there
    prune_html [] t = t
    prune_html (lhd ∷ lhds) t =
        let dir = in_destroot (opts.join lhd) in
        prune_html lhds (
          if is_there (parts dir) t
          then prune (with_end dot_html) (keep_html dir) (parts dir) t
          else t)

    -- The loops over `langselect_dirs_dir` and `langselect_lproj_dir`.
    unfoldable pub prune_folders : (Text → Bool → Bool) → List Text → Files → Files
    unfolding prune parts keep_folder in_destroot is_there
    prune_folders pattern [] t = t
    prune_folders pattern (ldd ∷ ldds) t =
        let dir = parts (in_destroot (opts.join ldd)) in
        prune_folders pattern ldds (if is_there dir t then prune pattern keep_folder dir t else t)

    unfoldable pub prune_all : Files → Files
    unfolding shared_dirs prune_shared prune_qm prune_html prune_folders any_folder folder_with_end
    prune_all t = prune_folders (folder_with_end dot_lproj) opts.lproj_dir (
        prune_folders any_folder opts.dirs_dir
          (prune_html opts.html_dir (prune_qm 0 opts.qm_dir (prune_shared shared_dirs t))))

-- The file with the languages to keep: whether it is there, and what reading it gives: an error
-- (`none`), or perhaps a list. `qm_dir_exists` is `file exists` of the joined option, on the disk.
pub record Locales : Type 0 where
  pub file_exists : Bool
  pub sourced : Option (Option (List Text))
  pub has_nonstandard_locations : Bool
  pub qm_dir_exists : Bool

-- Whether the file is read.
unfoldable pub is_applicable : Options → Locales → Files → Bool
unfolding is_there parts
is_applicable opts locales t =
    locales.file_exists
    && (locales.has_nonstandard_locations
        || is_there (parts (opts.destroot ++ opts.prefix ++ share_locale)) t
        || locales.qm_dir_exists
        || is_there (parts (opts.destroot ++ opts.prefix ++ share_man)) t)

-- What is done when the file was read, with an error or perhaps a list.
unfoldable pub read_and_prune : Options → Option (Option (List Text)) → Files → Option Files
unfolding prune_all
read_and_prune opts none t = none
read_and_prune opts (some none) t = some t
read_and_prune opts (some (some keep)) t = some (prune_all opts keep t)

unfoldable pub post_destroot : Options → Locales → Files → Option Files
unfolding is_applicable read_and_prune
post_destroot opts locales t =
    if is_applicable opts locales t then read_and_prune opts locales.sourced t else some t

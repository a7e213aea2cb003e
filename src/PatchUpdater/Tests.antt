-- ===== src/PatchUpdater/Tests.antt =====
-- A port with two patches, the second one packed with gzip, whose state file is a list of names.
mod Ignores
use mathlib.Core.List.{Memᴰ}
use mathlib.Core.List.Memᴰ
use macstrop.Shared.{
  ◌≡◌, refl, sym, ap, ◌∙◌, Bool, true, false, ◌||◌, Option, none, some, List, [], ◌∷◌, ◌++◌,
}
use macstrop.Shared.Texts.{Text, text_eq, has_char}
use macstrop.PatchUpdater.Patch.{
  StateFile, IsStateFile, Unpack, plain, gzip, Effect, apply, wait_for_git, git_add, git_commit,
  make_folder_for, save, Env, locate, locate_all, patches, dot_gz, or_nothing, state_name, unpacker,
  unpack_with, work, updated_name, PatchRun, Result, ok, failed, make_call, make_calls,
  update_patch, update_each, patch_main,
}
use macstrop.TclNames.{
  file_tail, file_extension, file_rootname, from_dot, remove, remove_from, starts_with,
}
use macstrop.PatchUpdater.Steps.{applied, applied_by}
use macstrop.PatchUpdater.Marks.{Marked, AreDistinct}
use macstrop.PatchUpdater.Resume.{OnlyPatchFails, run_of, is_ok}
use macstrop.PatchUpdater.Attempts.{attempts, EachOnlyPatchFails, attempts_in_order}
use macstrop.PatchUpdater.Finish.{NothingFails, patch_main_finishes}
use macstrop.PatchUpdater.Again.{patch_main_again}
use macstrop.PatchUpdater.Missing.{patch_main_missing}
use macstrop.PatchUpdater.SameName.{update_each_same_name}

-- "a", "b.gz", "/f" and "/d".
abbrev a_diff : Text
a_diff = b'a' ∷ []

abbrev b_gz : Text
b_gz = b'b' ∷ dot_gz

abbrev files : Text
files = b'/' ∷ b'f' ∷ []

abbrev dist : Text
dist = b'/' ∷ b'd' ∷ []

abbrev in_files : Text → Text
in_files name = files ++ b'/' ∷ name

abbrev has_name : Text → List Text → Bool
has_name a [] = false
has_name a (b ∷ s) = text_eq b a || has_name a s

abbrev names : StateFile
names = record { State = List Text; check = has_name; write = λ a s. a ∷ s }

names-IsStateFile : IsStateFile names
names-IsStateFile = record { check-write = λ a b s. refl }

abbrev port : List Text → Env
port listed = record {
  patchfiles = some listed;
  arch = none;
  arch_patchfiles = none;
  filespath = files;
  distpath = dist;
  getdistname = λ name. name;
  exists = λ path. text_eq path (in_files a_diff) || text_eq path (in_files b_gz);
  p1level = false;
  has_gzip = true;
  has_bzip2 = true;
  has_xz = true;
}

abbrev two : Env
two = port (a_diff ∷ b_gz ∷ [])

abbrev all_well : List Effect → Effect → Bool
all_well log e = false

-- The second patch does not apply.
abbrev second_fails : List Effect → Effect → Bool
second_fails log (apply how path) = text_eq path (in_files b_gz)
second_fails log wait_for_git = false
second_fails log git_add = false
second_fails log (git_commit path) = false
second_fails log (make_folder_for name) = false
second_fails log (save p1 name) = false

cons_not_nil : {x : Text} → x ∷ [] ≡ [] → ⊥
cons_not_nil e = cc

second_fails-OnlyPatchFails : OnlyPatchFails second_fails
second_fails-OnlyPatchFails log (apply how path) e = absurd (cons_not_nil e)
second_fails-OnlyPatchFails log wait_for_git e = refl
second_fails-OnlyPatchFails log git_add e = refl
second_fails-OnlyPatchFails log (git_commit path) e = refl
second_fails-OnlyPatchFails log (make_folder_for name) e = refl
second_fails-OnlyPatchFails log (save p1 name) e = refl

abbrev located : List Text
located = in_files a_diff ∷ in_files b_gz ∷ []

two_found : locate_all two (patches two) ≡ some located
unfolding locate_all locate patches or_nothing text_eq
two_found = refl

two-AreDistinct : AreDistinct two located
unfolding state_name file_tail text_eq has_char
two-AreDistinct = ((refl, tt), (tt, tt))

abbrev empty_run : PatchRun names
empty_run = record { log = []; file = [] }

attempts_in_order_example :
    let r = attempts names two (second_fails ∷ []) empty_run in
    ((left : List Text) × (located ≡ applied r.log ++ left))
    × (is_ok (patch_main names two second_fails r) ≡ true
        → applied (run_of (patch_main names two second_fails r)).log ≡ located)
attempts_in_order_example =
    attempts_in_order names names-IsStateFile two located two-AreDistinct two_found
      (second_fails ∷ []) second_fails [] (second_fails-OnlyPatchFails, tt)
      second_fails-OnlyPatchFails (refl, (refl, tt))

patch_main_finishes_example :
    let res = patch_main names two all_well (attempts names two (second_fails ∷ []) empty_run) in
    (is_ok res ≡ true) × (applied (run_of res).log ≡ located)
patch_main_finishes_example =
    patch_main_finishes names names-IsStateFile two located two-AreDistinct two_found refl refl
      (second_fails ∷ []) all_well [] (second_fails-OnlyPatchFails, tt) (λ log e. refl)
      (refl, (refl, tt))

-- The first attempt stops at the second patch, behind the calls for the first one.
first_stops :
    patch_main names two second_fails empty_run
    ≡ failed (record { log = work two plain (in_files a_diff); file = a_diff ∷ [] })
unfolding patch_main patches or_nothing locate_all locate update_each update_patch make_calls
    make_call unpack_with unpacker work file_tail file_extension from_dot text_eq has_char
    state_name
first_stops = refl

-- All went well.
abbrev done_run : PatchRun names
done_run = record {
  log = work two plain (in_files a_diff) ++ work two gzip (in_files b_gz);
  file = b_gz ∷ a_diff ∷ [];
}

both_applied : patch_main names two all_well empty_run ≡ ok done_run
unfolding patch_main patches or_nothing locate_all locate update_each update_patch make_calls
    make_call unpack_with unpacker work file_tail file_extension from_dot text_eq has_char
    state_name
both_applied = refl

patch_main_again_example : patch_main names two second_fails done_run ≡ ok done_run
patch_main_again_example =
    patch_main_again names names-IsStateFile two all_well second_fails empty_run done_run
      both_applied

-- The updated patch has the name of the file, without its folder and without ".gz".
updated_b : updated_name two (in_files b_gz) ≡ b'/' ∷ b'b' ∷ []
unfolding updated_name unpacker file_extension file_rootname remove remove_from starts_with
    file_tail from_dot text_eq has_char
updated_b = refl

-- "c" is in neither folder.
abbrev with_c : Env
with_c = port (a_diff ∷ (b'c' ∷ []) ∷ [])

no_c : locate with_c (b'c' ∷ []) ≡ none
unfolding locate text_eq
no_c = refl

c_is_listed : Memᴰ (b'c' ∷ []) (patches with_c)
unfolding patches or_nothing
c_is_listed = Memᴰ.tail (Memᴰ.head refl)

patch_main_missing_example : patch_main names with_c all_well empty_run ≡ failed empty_run
patch_main_missing_example =
    patch_main_missing names with_c all_well (b'c' ∷ []) empty_run c_is_listed no_c

-- "x/a" and "y/a", below "/f".
abbrev below_x : Text
below_x = files ++ b'/' ∷ b'x' ∷ b'/' ∷ a_diff

abbrev below_y : Text
below_y = files ++ b'/' ∷ b'y' ∷ b'/' ∷ a_diff

one_name : state_name two below_x ≡ state_name two below_y
unfolding state_name file_tail has_char
one_name = refl

update_each_same_name_example :
    update_each names two second_fails (below_x ∷ in_files b_gz ∷ below_y ∷ []) empty_run
    ≡ update_each names two second_fails (below_x ∷ in_files b_gz ∷ []) empty_run
update_each_same_name_example =
    update_each_same_name names names-IsStateFile two second_fails [] (in_files b_gz ∷ []) []
      below_x below_y empty_run one_name

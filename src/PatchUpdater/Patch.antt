-- ===== src/PatchUpdater/Patch.antt =====
-- `patch_main`, with its calls of other programs as a log, over a state file that outlives an error.
use macstrop.Shared.{◌≡◌, Bool, ◌&&◌, ◌||◌, Option, none, some, List, [], ◌∷◌, ◌++◌, if◌then◌else◌}
use macstrop.Shared.Texts.{Text, text_eq}
use macstrop.TclNames.{file_tail, file_extension, file_rootname, remove}

-- `check_statefile patch` and `write_statefile patch` of MacPorts.
pub record StateFile : Type 1 where
  pub State : Type 0
  pub check : Text → State → Bool
  pub write : Text → State → State

-- What is written is found from then on, and nothing else is.
pub record IsStateFile (F : StateFile) : Type 0 where
  pub check-write :
      (a b : Text) (s : F.State) → F.check a (F.write b s) ≡ (text_eq b a || F.check a s)

-- What a patch is unpacked with.
pub data Unpack : Type 0 where
  plain gzip bzip2 xz : Unpack

-- The calls of `patch`, of git and of `xinstall -d`; `save` is `git show`, with its option.
pub data Effect : Type 0 where
  apply : Unpack → Text → Effect
  wait_for_git : Effect
  git_add : Effect
  git_commit : Text → Effect
  make_folder_for : Text → Effect
  save : Bool → Text → Effect

-- The options of the port and what is there. `exists` is `file exists`.
pub record Env : Type 0 where
  pub patchfiles : Option (List Text)
  pub arch : Option Text
  pub arch_patchfiles : Option (List Text)
  pub filespath : Text
  pub distpath : Text
  pub getdistname : Text → Text
  pub exists : Text → Bool
  pub p1level : Bool
  pub has_gzip : Bool
  pub has_bzip2 : Bool
  pub has_xz : Bool

-- ".gz", ".Z", ".bz2" and ".xz".
abbrev pub dot_gz : Text
dot_gz = b'.' ∷ b'g' ∷ b'z' ∷ []

abbrev pub dot_z : Text
dot_z = b'.' ∷ b'Z' ∷ []

abbrev pub dot_bz2 : Text
dot_bz2 = b'.' ∷ b'b' ∷ b'z' ∷ b'2' ∷ []

abbrev pub dot_xz : Text
dot_xz = b'.' ∷ b'x' ∷ b'z' ∷ []

unfoldable pub unpacker : Text → Unpack
unpacker extension =
    if text_eq extension dot_z || text_eq extension dot_gz
    then gzip
    else if text_eq extension dot_bz2
    then bzip2
    else if text_eq extension dot_xz
    then xz
    else plain

unfoldable pub or_nothing : Option (List Text) → List Text
or_nothing none = []
or_nothing (some names) = names

-- The list `patches`.
unfoldable pub patches : Env → List Text
unfolding or_nothing
patches env =
    or_nothing env.patchfiles
    ++ elim env.arch [ none ↦ [] | some arch ↦ or_nothing env.arch_patchfiles ]

-- A patch is looked for in two folders.
unfoldable pub locate : Env → Text → Option Text
locate env patch =
    let patch_file = env.getdistname patch in
    let in_files = env.filespath ++ b'/' ∷ patch_file in
    let in_dist = env.distpath ++ b'/' ∷ patch_file in
    if env.exists in_files then some in_files else if env.exists in_dist then some in_dist else none

unfoldable pub locate_all : Env → List Text → Option (List Text)
unfolding locate
locate_all env [] = some []
locate_all env (patch ∷ patches) = elim (locate env patch) [
  | none ↦ none
  | some path ↦ elim (locate_all env patches) [ none ↦ none | some paths ↦ some (path ∷ paths) ]
]

-- `pfile4arch`: the name of a patch in the state file.
unfoldable pub state_name : Env → Text → Text
unfolding file_tail
state_name env path = elim env.arch [
  | none ↦ file_tail path
  | some arch ↦ arch ++ b':' ∷ file_tail path
]

-- `patchname`, without the folder.
unfoldable pub updated_name : Env → Text → Text
unfolding file_extension file_rootname remove unpacker
updated_name env path = remove env.filespath (elim (unpacker (file_extension path)) [
  | plain ↦ path
  | gzip ↦ file_rootname path
  | bzip2 ↦ file_rootname path
  | xz ↦ file_rootname path
])

-- The branches of `switch`; `none` is the error for a missing xz.
unfoldable pub unpack_with : Env → Text → Option Unpack
unfolding unpacker file_extension
unpack_with env path = elim (unpacker (file_extension path)) [
  | plain ↦ some plain
  | gzip ↦ some gzip
  | bzip2 ↦ some bzip2
  | xz ↦ if env.has_xz then some xz else none
]

-- The calls for a patch, in their order.
unfoldable pub work : Env → Unpack → Text → List Effect
unfolding updated_name
work env how path =
    apply how path
    ∷ wait_for_git
    ∷ git_add
    ∷ git_commit path
    ∷ make_folder_for (updated_name env path)
    ∷ save env.p1level (updated_name env path)
    ∷ []

module _ (F : StateFile) where
  -- The calls that were successful, and the state file.
  pub record PatchRun : Type 0 where
    pub log : List Effect
    pub file : F.State

  -- An error ends the phase, and leaves what was done.
  pub data Result : Type 0 where
    ok : PatchRun → Result
    failed : PatchRun → Result

  infixl 5 ◌then_do◌
  abbrev pub ◌then_do◌ : Result → (PatchRun → Result) → Result
  (ok r) then_do f = f r
  (failed r) then_do f = failed r

  -- Whether a call fails is for the world to say, from the calls before it.
  module _ (env : Env) (fails : List Effect → Effect → Bool) where
    unfoldable pub make_call : Effect → PatchRun → Result
    make_call e r = if fails r.log e then failed r else ok (record r { log = r.log ++ e ∷ [] })

    unfoldable pub make_calls : List Effect → PatchRun → Result
    unfolding make_call
    make_calls [] r = ok r
    make_calls (e ∷ es) r = make_call e r then_do make_calls es

    -- The body of `foreach patch $patchlist`.
    unfoldable pub update_patch : Text → PatchRun → Result
    unfolding make_calls unpack_with work state_name
    update_patch path r =
        if F.check (state_name env path) r.file then ok r else elim (unpack_with env path) [
          | none ↦ failed r
          | some how ↦ make_calls (work env how path) r then_do λ r'.
              ok (record r' { file = F.write (state_name env path) r'.file })
        ]

    unfoldable pub update_each : List Text → PatchRun → Result
    unfolding update_patch
    update_each [] r = ok r
    update_each (path ∷ paths) r = update_patch path r then_do update_each paths

    unfoldable pub patch_main : PatchRun → Result
    unfolding patches locate_all update_each
    patch_main r = elim (patches env) [
      | [] ↦ ok r
      | p ∷ ps ↦ elim (locate_all env (p ∷ ps)) [
        | none ↦ failed r
        | some paths ↦ if env.has_gzip && env.has_bzip2 then update_each paths r else failed r
      ]
    ]

-- ===== src/PatchUpdater/Finish.antt =====
-- A patch phase in which nothing fails comes to its end.
use macstrop.Shared.Bools.{false_not_true, none_not_some}
use macstrop.Shared.{
  ◌≡◌, refl, sym, ap, ◌∙◌, Bool, true, false, ◌&&◌, some, List, [], ◌∷◌, ◌++◌, Bool-cases, inl, inr,
}
use macstrop.Shared.Texts.{Text}
use macstrop.TclNames.{file_extension}
use macstrop.PatchUpdater.Patch.{
  StateFile, IsStateFile, Unpack, plain, gzip, bzip2, xz, Effect, Env, locate_all, patches, work,
  unpacker, unpack_with, state_name, PatchRun, ok, ◌then_do◌, make_call, make_calls, update_patch,
  update_each, patch_main,
}
use macstrop.PatchUpdater.Steps.{applied}
use macstrop.PatchUpdater.Marks.{Marked, AreDistinct}
use macstrop.PatchUpdater.Whole.{lacking, no_tools, updating, phase}
use macstrop.PatchUpdater.Resume.{run_of, is_ok}
use macstrop.PatchUpdater.Attempts.{attempts, EachOnlyPatchFails, attempts_in_order}

-- Every call is successful.
abbrev pub NothingFails : (List Effect → Effect → Bool) → Type 0
NothingFails fails = (log : List Effect) (e : Effect) → fails log e ≡ false

unpack_with-some :
    (env : Env) (path : Text)
    → env.has_xz ≡ true
    → (how : Unpack) × (unpack_with env path ≡ some how)
unfolding unpack_with
unpack_with-some env path tools = go (unpacker (file_extension path)) refl
  where
    go :
        (u : Unpack)
        → unpacker (file_extension path) ≡ u
        → (how : Unpack) × (unpack_with env path ≡ some how)
    go plain e = (plain, rw (e, unpack_with) refl)
    go gzip e = (gzip, rw (e, unpack_with) refl)
    go bzip2 e = (bzip2, rw (e, unpack_with) refl)
    go xz e = (xz, rw (e, unpack_with, tools) refl)

module _ (F : StateFile) (env : Env) (fails : List Effect → Effect → Bool)
    (works : NothingFails fails) where
  calls_end :
      (es : List Effect) (r : PatchRun F)
      → (r' : PatchRun F) × (make_calls F env fails es r ≡ ok r')
  unfolding make_calls make_call
  calls_end [] r = (r, refl)
  calls_end (e ∷ es) r =
      let (r', is) = calls_end es (record { log = r.log ++ e ∷ []; file = r.file }) in
      (r', rw (works r.log e) is)

  update_patch_ends :
      env.has_xz ≡ true
      → (p : Text) (r : PatchRun F) → (r' : PatchRun F) × (update_patch F env fails p r ≡ ok r')
  unfolding update_patch
  update_patch_ends tools p r = elim (Bool-cases (F.check (state_name env p) r.file)) [
    | inl old ↦ (r, rw (old) refl)
    | inr new ↦
        let (how, with) = unpack_with-some env p tools in
        let (r', done) = calls_end (work env how p) r in
        (
          record { log = r'.log; file = F.write (state_name env p) r'.file },
          rw (new, with, done) refl,
        )
  ]

  update_each_ends :
      env.has_xz ≡ true
      → (ps : List Text) (r : PatchRun F) → is_ok (update_each F env fails ps r) ≡ true
  unfolding update_each
  update_each_ends tools [] r = refl
  update_each_ends tools (p ∷ ps) r =
      let (r', is) = update_patch_ends tools p r in
      ap (λ x. is_ok (◌then_do◌ F x (update_each F env fails ps))) is ∙ update_each_ends tools ps r'

  pub patch_main_ends :
      (paths : List Text)
      → locate_all env (patches env) ≡ some paths
      → env.has_gzip && env.has_bzip2 ≡ true
      → env.has_xz ≡ true
      → (r : PatchRun F) → is_ok (patch_main F env fails r) ≡ true
  patch_main_ends paths found tools xz_tool r = elim (phase env) [
    | lacking lost _ ↦ absurd (none_not_some (sym lost ∙ found))
    | no_tools lost _ ↦ absurd (false_not_true (sym lost ∙ tools))
    | updating paths' _ is ↦ ap is_ok (is F fails r) ∙ update_each_ends xz_tool paths' r
  ]

-- Let the state file find what is written to it and nothing else besides what it had. Let the
-- patches all be found, with different names in the state file, which has none of them at first,
-- let gzip, bzip2 and xz be there, and let no call fail in earlier phases but those of `patch`.
-- Then, however many of these were interrupted, a phase in which no call fails ends well, and with
-- it each patch of the list was applied once, in the order of the list.
pub patch_main_finishes :
    (F : StateFile) (law : IsStateFile F) (env : Env) (paths : List Text)
    (distinct : AreDistinct env paths) (found : locate_all env (patches env) ≡ some paths)
    (tools : env.has_gzip && env.has_bzip2 ≡ true) (xz_tool : env.has_xz ≡ true)
    (worlds : List (List Effect → Effect → Bool)) (last : List Effect → Effect → Bool) (s : F.State)
    → EachOnlyPatchFails worlds
    → NothingFails last
    → Marked F env false s paths
    → let res = patch_main F env last (attempts F env worlds (record { log = []; file = s })) in
      (is_ok res ≡ true) × (applied (run_of res).log ≡ paths)
patch_main_finishes F law env paths distinct found tools xz_tool worlds last s only works new =
    let ends =
      patch_main_ends F env last works paths found tools xz_tool
        (attempts F env worlds (record { log = []; file = s })) in
    (
      ends,
      (attempts_in_order F law env paths distinct found worlds last s only (λ log e _. works log e)
            new).1
          ends,
    )

-- ===== src/PatchUpdater/Attempts.antt =====
-- Any number of patch phases, one after the other, until one ends well.
use macstrop.Shared.{◌≡◌, refl, Bool, true, false, some, List, [], ◌∷◌, ◌++◌}
use macstrop.Shared.Texts.{Text}
use macstrop.PatchUpdater.Patch.{
  StateFile, IsStateFile, Effect, Env, locate_all, patches, PatchRun, patch_main,
}
use macstrop.PatchUpdater.Steps.{applied}
use macstrop.PatchUpdater.Marks.{Marked, AreDistinct}
use macstrop.PatchUpdater.Resume.{OnlyPatchFails, run_of, is_ok, Resumed, patch_main-Resumed}

-- One attempt after the other, each with the failures that the world has for it.
unfoldable pub attempts :
    (F : StateFile) → Env → List (List Effect → Effect → Bool) → PatchRun F → PatchRun F
unfolding patch_main
attempts F env [] r = r
attempts F env (fails ∷ rest) r = attempts F env rest (run_of (patch_main F env fails r))

abbrev pub EachOnlyPatchFails : List (List Effect → Effect → Bool) → Type 0
EachOnlyPatchFails [] = Unit {0}
EachOnlyPatchFails (fails ∷ rest) = OnlyPatchFails fails × EachOnlyPatchFails rest

module _ (F : StateFile) (law : IsStateFile F) (env : Env) (paths : List Text)
    (distinct : AreDistinct env paths) (found : locate_all env (patches env) ≡ some paths) where
  attempts-Resumed :
      (worlds : List (List Effect → Effect → Bool)) (r : PatchRun F)
      → EachOnlyPatchFails worlds
      → Resumed F env paths r
      → Resumed F env paths (attempts F env worlds r)
  unfolding attempts
  attempts-Resumed [] r only h = h
  attempts-Resumed (fails ∷ rest) r only h =
      attempts-Resumed rest (run_of (patch_main F env fails r)) only.1
        (patch_main-Resumed F law env paths distinct fails only.0 found r h).0

  -- Let the state file find what is written to it and nothing else besides what it had. Let the
  -- patches all be found, with different names in the state file, which has none of them at first,
  -- and let no call fail but those of `patch`. Then after any number of patch phases, each
  -- interrupted or not, the patches that were applied are the first ones of the list, in its order
  -- and each once; after a phase that ends well they are all of the list.
  pub attempts_in_order :
      (worlds : List (List Effect → Effect → Bool)) (last : List Effect → Effect → Bool)
      (s : F.State)
      → EachOnlyPatchFails worlds
      → OnlyPatchFails last
      → Marked F env false s paths
      → let r = attempts F env worlds (record { log = []; file = s }) in
        ((left : List Text) × (paths ≡ applied r.log ++ left))
        × (is_ok (patch_main F env last r) ≡ true
            → applied (run_of (patch_main F env last r)).log ≡ paths)
  attempts_in_order worlds last s only only_last new =
      let h =
        attempts-Resumed worlds (record { log = []; file = s }) only
          (record { left = paths; all = refl; past = tt; ahead = new }) in
      (
        (h.left, h.all),
        (patch_main-Resumed F law env paths distinct last only_last found
            (attempts F env worlds (record { log = []; file = s })) h).1,
      )

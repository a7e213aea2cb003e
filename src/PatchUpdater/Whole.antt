-- ===== src/PatchUpdater/Whole.antt =====
-- The phase as a whole: an error before the first patch, or the patches that were found, one by one.
use macstrop.Shared.{
  ◌≡◌, inl, inr, refl, ap, ◌∙◌, Bool, false, ◌&&◌, none, some, List, [], ◌∷◌, Bool-cases,
  Option-cases,
}
use macstrop.Shared.Texts.{Text}
use macstrop.PatchUpdater.Patch.{
  StateFile, Effect, Env, locate_all, patches, PatchRun, failed, update_each, patch_main,
}

module _ (env : Env) where
  abbrev pub Fails : Type 1
  Fails =
      (F : StateFile) (fails : List Effect → Effect → Bool) (r : PatchRun F)
      → patch_main F env fails r ≡ failed r

  abbrev pub Updates : List Text → Type 1
  Updates paths =
      (F : StateFile) (fails : List Effect → Effect → Bool) (r : PatchRun F)
      → patch_main F env fails r ≡ update_each F env fails paths r

  pub data Phase : Type 1 where
    lacking : locate_all env (patches env) ≡ none → Fails → Phase
    no_tools : env.has_gzip && env.has_bzip2 ≡ false → Fails → Phase
    updating :
        (paths : List Text) → locate_all env (patches env) ≡ some paths → Updates paths → Phase

  -- The list of the patches, with what it is known to be.
  phase_of : (ps : List Text) → patches env ≡ ps → Phase
  unfolding patch_main locate_all update_each
  phase_of [] e = updating [] (rw (e) refl) (λ F fails r. rw (e, patch_main) refl)
  phase_of (p ∷ ps) e = elim (Option-cases (locate_all env (p ∷ ps))) [
    | inl lost ↦ lacking (ap (locate_all env) e ∙ lost) (λ F fails r. rw (e, patch_main, lost) refl)
    | inr (paths, found) ↦ elim (Bool-cases (env.has_gzip && env.has_bzip2)) [
      | inl tools ↦
          updating paths (ap (locate_all env) e ∙ found)
            (λ F fails r. rw (e, patch_main, found, tools) refl)
      | inr lost ↦ no_tools lost (λ F fails r. rw (e, patch_main, found, lost) refl)
    ]
  ]

  pub phase : Phase
  phase = phase_of (patches env) refl

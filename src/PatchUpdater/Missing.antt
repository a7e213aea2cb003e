-- ===== src/PatchUpdater/Missing.antt =====
-- A patch that is in neither folder.
use mathlib.Core.List.{Memᴰ}
use macstrop.Shared.Bools.{none_not_some}
use macstrop.Shared.{◌≡◌, refl, sym, ap, ◌∙◌, Bool, none, List, [], ◌∷◌, Option-cases, inl, inr}
use macstrop.Shared.Texts.{Text}
use macstrop.PatchUpdater.Patch.{
  StateFile, Effect, Env, locate, locate_all, patches, PatchRun, failed, patch_main,
}
use macstrop.PatchUpdater.Whole.{lacking, no_tools, updating, phase}

locate_all_missing :
    (env : Env) (ps : List Text) (patch : Text)
    → Memᴰ patch ps
    → locate env patch ≡ none
    → locate_all env ps ≡ none
unfolding locate_all
locate_all_missing env [] patch m lost = elim m [ ]
locate_all_missing env (p ∷ ps) patch (Memᴰ.head same) lost =
    rw (sym (ap (locate env) same) ∙ lost, locate_all) refl
locate_all_missing env (p ∷ ps) patch (Memᴰ.tail m) lost = elim (Option-cases (locate env p)) [
  | inl none_too ↦ rw (none_too, locate_all) refl
  | inr (path, found) ↦ rw (found, locate_all_missing env ps patch m lost, locate_all) refl
]

-- When one of the patches is in neither folder, the phase is an error, and the state file and the
-- log are as they were: none of the other patches is applied either.
pub patch_main_missing :
    (F : StateFile) (env : Env) (fails : List Effect → Effect → Bool) (patch : Text)
    (r : PatchRun F)
    → Memᴰ patch (patches env)
    → locate env patch ≡ none
    → patch_main F env fails r ≡ failed r
patch_main_missing F env fails patch r m lost = elim (phase env) [
  | lacking _ stops ↦ stops F fails r
  | no_tools _ stops ↦ stops F fails r
  | updating paths found _ ↦
      absurd (none_not_some (sym (locate_all_missing env (patches env) patch m lost) ∙ found))
]

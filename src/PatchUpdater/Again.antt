-- ===== src/PatchUpdater/Again.antt =====
-- What a run does that finds the state file of an earlier one.
use mathlib.Core.List.{append-nil}
use macstrop.Shared.{◌≡◌, refl, sym, ap, ◌∙◌, subst, Bool, true, List, [], ◌∷◌, ◌++◌}
use macstrop.Shared.Texts.{Text}
use macstrop.PatchUpdater.Patch.{
  StateFile, IsStateFile, Effect, Env, state_name, PatchRun, ok, failed, ◌then_do◌, update_patch,
  work, update_each, patch_main,
}
use macstrop.PatchUpdater.Steps.{skipped, updated, stopped, update_patch-Updated}
use macstrop.PatchUpdater.Whole.{lacking, no_tools, updating, phase}
use macstrop.PatchUpdater.Marks.{Marked, write_finds, keeps_true}

failed_not_ok : {F : StateFile} → (r s : PatchRun F) → failed r ≡ ok s → ⊥
failed_not_ok r s e = cc

ok_injective : {F : StateFile} → (r s : PatchRun F) → ok r ≡ ok s → r ≡ s
ok_injective r s e = cc

module _ (F : StateFile) (law : IsStateFile F) (env : Env) where
  pub update_each_skips :
      (fails : List Effect → Effect → Bool) (ps qs : List Text) (r : PatchRun F)
      → Marked F env true r.file ps
      → update_each F env fails (ps ++ qs) r ≡ update_each F env fails qs r
  unfolding update_each update_patch
  update_each_skips fails [] qs r m = refl
  update_each_skips fails (p ∷ ps) qs r m = rw (m.0) (update_each_skips fails ps qs r m.1)

  module _ (fails : List Effect → Effect → Bool) where
    -- A run that ends well has come past its first patch, which is then in the state file.
    record First (p : Text) (ps : List Text) (r r' : PatchRun F) : Type 0 where
      after : PatchRun F
      goes_on : update_each F env fails ps after ≡ ok r'
      marked : F.check (state_name env p) after.file ≡ true
      keeps : (k : Text) → F.check k r.file ≡ true → F.check k after.file ≡ true

    first :
        (p : Text) (ps : List Text) (r r' : PatchRun F)
        → update_each F env fails (p ∷ ps) r ≡ ok r'
        → First p ps r r'
    unfolding update_each
    first p ps r r' e = elim (update_patch-Updated F env fails p r) [
      | skipped old is ↦ record {
        after = r;
        goes_on = ap (λ x. ◌then_do◌ F x (update_each F env fails ps)) (sym is) ∙ e;
        marked = old;
        keeps = λ k m. m;
      }
      | updated new how is ↦ record {
        after = record { log = r.log ++ work env how p; file = F.write (state_name env p) r.file };
        goes_on = ap (λ x. ◌then_do◌ F x (update_each F env fails ps)) (sym is) ∙ e;
        marked = write_finds F law env (state_name env p) r.file;
        keeps = λ k m. keeps_true F law env k (state_name env p) r.file m;
      }
      | stopped new s made is kept logged half ↦
          absurd
            (failed_not_ok s r' (ap (λ x. ◌then_do◌ F x (update_each F env fails ps)) (sym is) ∙ e))
    ]

    update_each_keeps :
        (ps : List Text) (k : Text) (r r' : PatchRun F)
        → update_each F env fails ps r ≡ ok r'
        → F.check k r.file ≡ true
        → F.check k r'.file ≡ true
    unfolding update_each
    update_each_keeps [] k r r' e m =
        subst (λ (x : PatchRun F). F.check k x.file ≡ true) (ok_injective r r' e) m
    update_each_keeps (p ∷ ps) k r r' e m =
        let f = first p ps r r' e in update_each_keeps ps k f.after r' f.goes_on (f.keeps k m)

    update_each-Marked :
        (ps : List Text) (r r' : PatchRun F)
        → update_each F env fails ps r ≡ ok r'
        → Marked F env true r'.file ps
    update_each-Marked [] r r' e = tt
    update_each-Marked (p ∷ ps) r r' e =
        let f = first p ps r r' e in
        (
          update_each_keeps ps (state_name env p) f.after r' f.goes_on f.marked,
          update_each-Marked ps f.after r' f.goes_on,
        )

  update_each_again :
      (fails later : List Effect → Effect → Bool) (ps : List Text) (r r' : PatchRun F)
      → update_each F env fails ps r ≡ ok r'
      → update_each F env later ps r' ≡ ok r'
  unfolding update_each
  update_each_again fails later ps r r' e =
      subst (λ qs. update_each F env later qs r' ≡ ok r') (append-nil ps)
        (update_each_skips later ps [] r' (update_each-Marked fails ps r r' e))

  -- After a patch phase that ends well, one more patch phase ends well too, whichever of its calls
  -- would fail: it makes no call at all and leaves the state file as it is. (The state file finds
  -- what is written to it and nothing else besides what it had.)
  pub patch_main_again :
      (fails later : List Effect → Effect → Bool) (r r' : PatchRun F)
      → patch_main F env fails r ≡ ok r'
      → patch_main F env later r' ≡ ok r'
  patch_main_again fails later r r' e = elim (phase env) [
    | lacking _ stops ↦ absurd (failed_not_ok r r' (sym (stops F fails r) ∙ e))
    | no_tools _ stops ↦ absurd (failed_not_ok r r' (sym (stops F fails r) ∙ e))
    | updating paths _ is ↦
        is F later r' ∙ update_each_again fails later paths r r' (sym (is F fails r) ∙ e)
  ]

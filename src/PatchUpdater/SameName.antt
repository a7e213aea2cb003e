-- ===== src/PatchUpdater/SameName.antt =====
-- Two patches that have one name in the state file.
use macstrop.Shared.{◌≡◌, refl, subst, Bool, true, List, [], ◌∷◌, ◌++◌}
use macstrop.Shared.Texts.{Text}
use macstrop.PatchUpdater.Patch.{
  StateFile, IsStateFile, Effect, Env, state_name, work, PatchRun, Result, ◌then_do◌, update_patch,
  update_each,
}
use macstrop.PatchUpdater.Steps.{skipped, updated, stopped, update_patch-Updated}
use macstrop.PatchUpdater.Marks.{write_finds, keeps_true}

module _ (F : StateFile) (law : IsStateFile F) (env : Env)
    (fails : List Effect → Effect → Bool) where
  -- The loop goes on from the same place for two lists.
  then_each : (ps : List Text) → Result F → Result F
  then_each ps res = ◌then_do◌ F res (update_each F env fails ps)

  go_on :
      (p : Text) (ps qs : List Text) (r : PatchRun F)
      → ((s : PatchRun F)
          → F.check (state_name env p) s.file ≡ true
          → ((k : Text) → F.check k r.file ≡ true → F.check k s.file ≡ true)
          → update_each F env fails ps s ≡ update_each F env fails qs s)
      → update_each F env fails (p ∷ ps) r ≡ update_each F env fails (p ∷ qs) r
  unfolding update_each
  go_on p ps qs r same = elim (update_patch-Updated F env fails p r) [
    | skipped old is ↦ rw (is) (same r old (λ k m. m))
    | updated new how is ↦ rw (is) (
        same (record { log = r.log ++ work env how p; file = F.write (state_name env p) r.file })
          (write_finds F law env (state_name env p) r.file)
          (λ k m. keeps_true F law env k (state_name env p) r.file m))
    | stopped new s made is kept logged half ↦ rw (is) refl
  ]

  marked_left_out :
      (mid after : List Text) (q : Text) (r : PatchRun F)
      → F.check (state_name env q) r.file ≡ true
      → update_each F env fails (mid ++ q ∷ after) r ≡ update_each F env fails (mid ++ after) r
  unfolding update_each update_patch
  marked_left_out [] after q r m = rw (m) refl
  marked_left_out (p ∷ mid) after q r m =
      go_on p (mid ++ q ∷ after) (mid ++ after) r
        (λ s _ keeps. marked_left_out mid after q s (keeps (state_name env q) m))

-- A patch that stands somewhere behind another one with the same name in the state file is never
-- looked at: the loop over the patches does just what it does without it, whatever fails and
-- whatever was recorded. (The state file finds what is written to it and nothing else besides what
-- it had.)
pub update_each_same_name :
    (F : StateFile) (law : IsStateFile F) (env : Env) (fails : List Effect → Effect → Bool)
    (before mid after : List Text) (p q : Text) (r : PatchRun F)
    → state_name env p ≡ state_name env q
    → update_each F env fails (before ++ p ∷ mid ++ q ∷ after) r
      ≡ update_each F env fails (before ++ p ∷ mid ++ after) r
update_each_same_name F law env fails [] mid after p q r e =
    go_on F law env fails p (mid ++ q ∷ after) (mid ++ after) r (λ s m _.
      marked_left_out F law env fails mid after q s (subst (λ k. F.check k s.file ≡ true) e m))
update_each_same_name F law env fails (b ∷ before) mid after p q r e =
    go_on F law env fails b (before ++ p ∷ mid ++ q ∷ after) (before ++ p ∷ mid ++ after) r
      (λ s _ _. update_each_same_name F law env fails before mid after p q s e)

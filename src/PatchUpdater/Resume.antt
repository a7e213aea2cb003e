-- ===== src/PatchUpdater/Resume.antt =====
-- A patch phase that is interrupted and run again: which patches were applied, and how often.
use mathlib.Core.Option.{some-injective}
use mathlib.Core.List.{append-nil, append_assoc}
use macstrop.Shared.Bools.{false_not_true}
use macstrop.Shared.{
  ◌≡◌, inl, inr, sym, ap, ◌∙◌, subst, Bool, true, false, some, List, [], ◌∷◌, ◌++◌,
}
use macstrop.Shared.Texts.{Text}
use macstrop.PatchUpdater.Patch.{
  StateFile, IsStateFile, Unpack, Effect, Env, state_name, locate_all, patches, work, PatchRun,
  Result, ok, failed, ◌then_do◌, update_each, patch_main,
}
use macstrop.PatchUpdater.Steps.{
  applied, applied_by, applied-append, Half, skipped, updated, stopped, update_patch-Updated,
}
use macstrop.PatchUpdater.Whole.{lacking, no_tools, updating, phase}
use macstrop.PatchUpdater.Again.{update_each_skips}
use macstrop.PatchUpdater.Marks.{
  Marked, AreDistinct, AreDistinct-append, write_finds, Marked-later, Marked-other, Marked-append,
}

-- No call fails but that of `patch`: git and the disk are in order.
abbrev pub OnlyPatchFails : (List Effect → Effect → Bool) → Type 0
OnlyPatchFails fails = (log : List Effect) (e : Effect) → applied_by e ≡ [] → fails log e ≡ false

abbrev pub run_of : {F : StateFile} → Result F → PatchRun F
run_of (ok r) = r
run_of (failed r) = r

abbrev pub is_ok : {F : StateFile} → Result F → Bool
is_ok (ok r) = true
is_ok (failed r) = false

-- The patches that were applied are the first ones, in their order, and the state file has just these.
pub record Resumed (F : StateFile) (env : Env) (paths : List Text) (r : PatchRun F) : Type 0 where
  pub left : List Text
  pub all : paths ≡ applied r.log ++ left
  pub past : Marked F env true r.file (applied r.log)
  pub ahead : Marked F env false r.file left

not_both : (b : Bool) → b ≡ true → b ≡ false → ⊥
not_both b e f = cc

module _ (F : StateFile) (law : IsStateFile F) (env : Env) (paths : List Text)
    (distinct : AreDistinct env paths) where
  applied_more :
      (how : Unpack) (p : Text) (log : List Effect)
      → applied (log ++ work env how p) ≡ applied log ++ p ∷ []
  unfolding work
  applied_more how p log = applied-append log (work env how p)

  same_Resumed :
      (left : List Text) (r s : PatchRun F)
      → applied s.log ≡ applied r.log
      → s.file ≡ r.file
      → paths ≡ applied r.log ++ left
      → Marked F env true r.file (applied r.log)
      → Marked F env false r.file left
      → Resumed F env paths s
  same_Resumed left r s e f all past ahead = record {
    left = left;
    all = all ∙ ap (λ l. l ++ left) (sym e);
    past =
        subst (λ x. Marked F env true x (applied s.log)) (sym f)
          (subst (Marked F env true r.file) (sym e) past);
    ahead = subst (λ x. Marked F env false x left) (sym f) ahead;
  }

  -- The next patch is applied and recorded.
  next_Resumed :
      (how : Unpack) (p : Text) (left : List Text) (r : PatchRun F)
      → paths ≡ applied r.log ++ p ∷ left
      → Marked F env true r.file (applied r.log)
      → Marked F env false r.file (p ∷ left)
      → let key = state_name env p in
        let log = r.log ++ work env how p in
        (paths ≡ applied log ++ left)
        × Marked F env true (F.write key r.file) (applied log)
        × Marked F env false (F.write key r.file) left
  next_Resumed how p left r all past ahead =
      let key = state_name env p in
      let more = applied_more how p r.log in
      let new =
        AreDistinct-append env (applied r.log) (p ∷ left) (subst (AreDistinct env) all distinct) in
      (
        all ∙ (sym (append_assoc (applied r.log) (p ∷ []) left) ∙ ap (λ l. l ++ left) (sym more)),
        subst (Marked F env true (F.write key r.file)) (sym more) (
            Marked-append F law env true (F.write key r.file) (applied r.log) (p ∷ [])
              (Marked-later F law env key r.file (applied r.log) past)
              (write_finds F law env key r.file, tt)),
        Marked-other F law env p r.file left new.0 ahead.1,
      )

  module _ (fails : List Effect → Effect → Bool) (only : OnlyPatchFails fails) where
    -- A call that fails is that of `patch`, the first one.
    none_applied : (p : Text) (log made : List Effect) → Half p log fails made → applied made ≡ []
    none_applied p log made (inl none) = ap applied none
    none_applied p log made (inr (_, (next, other, bad))) =
        absurd (not_both (fails (log ++ made) next) bad (only (log ++ made) next other))

    abbrev Reaches : Result F → Type 0
    Reaches res =
        Resumed F env paths (run_of res) × (is_ok res ≡ true → applied (run_of res).log ≡ paths)

    update_left :
        (left : List Text) (r : PatchRun F)
        → paths ≡ applied r.log ++ left
        → Marked F env true r.file (applied r.log)
        → Marked F env false r.file left
        → Reaches (update_each F env fails left r)
    unfolding update_each
    update_left [] r all past ahead = (
      record { left = []; all = all; past = past; ahead = ahead },
      λ _. sym (all ∙ append-nil (applied r.log)),
    )
    update_left (p ∷ left) r all past ahead = elim (update_patch-Updated F env fails p r) [
      | skipped old is ↦ absurd (not_both (F.check (state_name env p) r.file) old ahead.0)
      | updated new how is ↦
          let (all', past', ahead') = next_Resumed how p left r all past ahead in
          subst Reaches (ap (λ x. ◌then_do◌ F x (update_each F env fails left)) (sym is)) (
            update_left left
              (record { log = r.log ++ work env how p; file = F.write (state_name env p) r.file })
              all' past' ahead')
      | stopped new s made is kept logged half ↦
          subst Reaches (ap (λ x. ◌then_do◌ F x (update_each F env fails left)) (sym is)) (
            same_Resumed (p ∷ left) r s
                (ap applied logged
                  ∙ (applied-append r.log made
                      ∙ (ap (λ l. applied r.log ++ l) (none_applied p r.log made half)
                          ∙ append-nil (applied r.log))))
                kept all past ahead,
            λ e. absurd (false_not_true e),
          )
    ]

    update_all :
        (r : PatchRun F) → Resumed F env paths r → Reaches (update_each F env fails paths r)
    update_all r h =
        subst Reaches
          (sym (
            ap (λ ps. update_each F env fails ps r) h.all
            ∙ update_each_skips F law env fails (applied r.log) h.left r h.past))
          (update_left h.left r h.all h.past h.ahead)

    pub patch_main-Resumed :
        locate_all env (patches env) ≡ some paths
        → (r : PatchRun F) → Resumed F env paths r
        → Reaches (patch_main F env fails r)
    patch_main-Resumed found r h =
        let nothing : Reaches (failed r) = (h, λ e. absurd (false_not_true e)) in
        elim (phase env) [
          | lacking _ stops ↦ subst Reaches (sym (stops F fails r)) nothing
          | no_tools _ stops ↦ subst Reaches (sym (stops F fails r)) nothing
          | updating paths' found' is ↦
              subst Reaches
                (sym (
                  is F fails r
                  ∙ ap (λ ps. update_each F env fails ps r)
                      (some-injective _ _ (sym found' ∙ found))))
                (update_all r h)
        ]

-- ===== src/PatchUpdater/PrePatch.antt =====
-- The `pre-patch` block as a whole, when none of its calls fails but the checkout of a branch that
-- is not there.
use mathlib.Core.List.{append_assoc, append-nil}
use macstrop.Shared.{
  ℕ, ◌+◌, ◌≡◌, refl, sym, ap, ap₂, ◌∙◌, subst, Bool, true, false, List, [], ◌∷◌, ◌++◌,
  if◌then◌else◌, ◌==◌, length, Bool-cases, inl, inr,
}
use macstrop.Shared.Texts.{Text}
use macstrop.PatchUpdater.Ignores.{
  Fgrep, IsFgrep, Folder, BlockResult, Act, wait_for_git, checkout, checkout_new, configure,
  commit_ignores, make_folder, ok, failed, add_ignores, usual_ignores, act, prepare, pre_patch,
}
use macstrop.PatchUpdater.Ignored.{AllFound, add_ignores-Added}

failed_not_ok : (f g : Folder) → failed f ≡ ok g → ⊥
failed_not_ok f g e = cc

ok_injective : (f g : Folder) → ok f ≡ ok g → f ≡ g
ok_injective f g e = cc

-- The calls behind the configuration: .gitignore is committed just when lines were added.
abbrev pub commits : ℕ → List Act
commits added =
    if added == 0 then make_folder ∷ [] else wait_for_git ∷ commit_ignores ∷ make_folder ∷ []

with_acts : Folder → List Act → Folder
with_acts f made = record f { acts = f.acts ++ made }

module _ (fgrep : Fgrep) (law : IsFgrep fgrep) (ignore_files : List Text)
    (fails : List Act → Act → Bool) where
  -- A call, and what follows it.
  abbrev then_act : Act → (Folder → BlockResult) → Folder → BlockResult
  then_act = act fgrep ignore_files fails

  act_ok :
      (a : Act) (next : Folder → BlockResult) (f g : Folder)
      → then_act a next f ≡ ok g
      → next (record f { acts = f.acts ++ a ∷ [] }) ≡ ok g
  unfolding act
  act_ok a next f g e = elim (Bool-cases (fails f.acts a)) [
    | inl bad ↦ absurd (failed_not_ok f g (sym (rw (bad, act) refl) ∙ e))
    | inr good ↦ sym (rw (good, act) refl) ∙ e
  ]

  -- The folder but for its log, and the log.
  record Ends (made : List Act) (h g : Folder) : Type 0 where
    lines : g.lines ≡ h.lines
    gitignores : g.gitignores ≡ h.gitignores
    acts : g.acts ≡ h.acts ++ made

  Ends-act :
      (a : Act) (made : List Act) (h g : Folder)
      → Ends made (record h { acts = h.acts ++ a ∷ [] }) g
      → Ends (a ∷ made) h g
  Ends-act a made h g t = record {
    lines = t.lines;
    gitignores = t.gitignores;
    acts = t.acts ∙ append_assoc h.acts (a ∷ []) made;
  }

  Ends-ok : (h g : Folder) → ok h ≡ ok g → Ends [] h g
  Ends-ok h g e =
      subst (Ends [] h) (ok_injective h g e)
        (record { lines = refl; gitignores = refl; acts = sym (append-nil h.acts) })

  Ends-folder : (h g : Folder) → then_act make_folder ok h ≡ ok g → Ends (make_folder ∷ []) h g
  Ends-folder h g e =
      Ends-act make_folder [] h g
        (Ends-ok (record h { acts = h.acts ++ make_folder ∷ [] }) g (act_ok make_folder ok h g e))

  -- The branches of the test whether lines were added.
  abbrev commit_or_not : Folder → BlockResult
  commit_or_not h =
      if h.gitignores == 0
      then then_act make_folder ok h
      else then_act wait_for_git (then_act commit_ignores (then_act make_folder ok)) h

  Ends-commits : (h g : Folder) → commit_or_not h ≡ ok g → Ends (commits h.gitignores) h g
  Ends-commits h g e = elim (Bool-cases (h.gitignores == 0)) [
    | inl none_added ↦ rw (none_added) (Ends-folder h g (rw (none_added) at e))
    | inr added ↦
        let w = record h { acts = h.acts ++ wait_for_git ∷ [] } in
        let c = record w { acts = w.acts ++ commit_ignores ∷ [] } in
        let e1 =
          act_ok wait_for_git (then_act commit_ignores (then_act make_folder ok)) h g
            (rw (added) at e) in
        let e2 = act_ok commit_ignores (then_act make_folder ok) w g e1 in
        rw (added) (
          Ends-act wait_for_git (commit_ignores ∷ make_folder ∷ []) h g
            (Ends-act commit_ignores (make_folder ∷ []) w g (Ends-folder c g e2)))
  ]

  prepare_ok :
      (f g : Folder)
      → prepare fgrep ignore_files fails f ≡ ok g
      → let h = add_ignores fgrep (usual_ignores ++ ignore_files) f in
        Ends (configure ∷ commits h.gitignores) h g
  unfolding prepare
  prepare_ok f g e =
      let h = add_ignores fgrep (usual_ignores ++ ignore_files) f in
      Ends-act configure (commits h.gitignores) h g (
        Ends-commits (record h { acts = h.acts ++ configure ∷ [] }) g
          (act_ok configure commit_or_not h g e))

  -- A branch that cannot be checked out is made.
  abbrev pub branch_call : List Act → Act
  branch_call acts = if fails (acts ++ wait_for_git ∷ []) checkout then checkout_new else checkout

  -- What a block that ends well leaves.
  pub record Prepared (f g : Folder) : Type 0 where
    pub new : List Text
    pub lines : g.lines ≡ f.lines ++ new
    pub found : AllFound fgrep (usual_ignores ++ ignore_files) g.lines
    pub acts :
        g.acts
        ≡ f.acts
          ++ wait_for_git ∷ branch_call f.acts ∷ configure ∷ commits (f.gitignores + length new)

  prepared :
      (branch : Act) (f g : Folder)
      → prepare fgrep ignore_files fails
          (record f { acts = (f.acts ++ wait_for_git ∷ []) ++ branch ∷ [] })
        ≡ ok g
      → branch ≡ branch_call f.acts
      → Prepared f g
  prepared branch f g e is =
      let b = record f { acts = (f.acts ++ wait_for_git ∷ []) ++ branch ∷ [] } in
      let (a, found) = add_ignores-Added fgrep law (usual_ignores ++ ignore_files) b in
      let t = prepare_ok b g e in
      let after = λ (x : Act) (added : ℕ). x ∷ configure ∷ commits added in
      record {
        new = a.new;
        lines = t.lines ∙ a.lines;
        found = subst (AllFound fgrep (usual_ignores ++ ignore_files)) (sym t.lines) found;
        acts =
            t.acts
            ∙ (ap₂ (λ xs (n : ℕ). xs ++ configure ∷ commits n) a.acts a.counted
                ∙ (append_assoc (f.acts ++ wait_for_git ∷ []) (branch ∷ [])
                      (configure ∷ commits (f.gitignores + length a.new))
                    ∙ (append_assoc f.acts (wait_for_git ∷ [])
                          (after branch (f.gitignores + length a.new))
                        ∙ ap (λ x. f.acts ++ wait_for_git ∷ after x (f.gitignores + length a.new))
                            is)));
      }

  -- Let `fgrep` find a text just when it is a part of a line. A block that ends well was run where
  -- there is a git folder; .gitignore has its old lines, then new ones, and each of the usual
  -- texts and of the port's own is found in it; the calls were the wait for git, the checkout of
  -- the branch (which is made when that fails), the configuration, the commit of .gitignore just
  -- when lines were added by then, and the folder for the updates.
  pub pre_patch-Prepared :
      (is_git : Bool) (f g : Folder)
      → pre_patch fgrep ignore_files fails is_git f ≡ ok g
      → (is_git ≡ true) × Prepared f g
  unfolding pre_patch
  pre_patch-Prepared false f g e = absurd (failed_not_ok f g e)
  pre_patch-Prepared true f g e = (
    refl,
    elim (Bool-cases (fails w.acts checkout)) [
      | inl new ↦
          prepared checkout_new f g
            (act_ok checkout_new (prepare fgrep ignore_files fails) w g (rw (new) at e1))
            (sym (rw (new) refl))
      | inr old ↦ prepared checkout f g (rw (old) at e1) (sym (rw (old) refl))
    ],
  )
    where
      w : Folder
      w = record f { acts = f.acts ++ wait_for_git ∷ [] }

      branches : Folder → BlockResult
      branches h =
          if fails h.acts checkout
          then then_act checkout_new (prepare fgrep ignore_files fails) h
          else then_act checkout (prepare fgrep ignore_files fails) h

      e1 : branches w ≡ ok g
      e1 = act_ok wait_for_git branches f g e

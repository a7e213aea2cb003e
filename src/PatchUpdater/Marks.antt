-- ===== src/PatchUpdater/Marks.antt =====
-- Which patches the state file has, by their names there.
use macstrop.Shared.{◌≡◌, refl, Bool, true, false, ◌||◌, List, [], ◌∷◌, ◌++◌, ◌∙◌}
use macstrop.Shared.Texts.{Text, text_eq, text_eq_iff}
use macstrop.PatchUpdater.Patch.{StateFile, IsStateFile, Env, state_name}

-- The state file has each of the patches, or none of them.
abbrev pub Marked : (F : StateFile) → Env → Bool → F.State → List Text → Type 0
Marked F env b s [] = Unit {0}
Marked F env b s (p ∷ ps) = (F.check (state_name env p) s ≡ b) × Marked F env b s ps

-- The patch has another name than each patch of the list.
abbrev pub IsNew : Env → Text → List Text → Type 0
IsNew env p [] = Unit {0}
IsNew env p (q ∷ qs) = (text_eq (state_name env p) (state_name env q) ≡ false) × IsNew env p qs

abbrev pub AreDistinct : Env → List Text → Type 0
AreDistinct env [] = Unit {0}
AreDistinct env (p ∷ ps) = IsNew env p ps × AreDistinct env ps

pub AreDistinct-append :
    (env : Env) (ps qs : List Text) → AreDistinct env (ps ++ qs) → AreDistinct env qs
AreDistinct-append env [] qs d = d
AreDistinct-append env (p ∷ ps) qs d = AreDistinct-append env ps qs d.1

or_true : (b : Bool) → (b || true) ≡ true
or_true true = refl
or_true false = refl

module _ (F : StateFile) (law : IsStateFile F) (env : Env) where
  pub write_finds : (k : Text) (s : F.State) → F.check k (F.write k s) ≡ true
  write_finds k s = rw (law.check-write k k s, (text_eq_iff k k).1 refl) refl

  pub keeps_true : (j k : Text) (s : F.State) → F.check j s ≡ true → F.check j (F.write k s) ≡ true
  keeps_true j k s e = law.check-write j k s ∙ rw (e, or_true (text_eq k j)) refl

  pub Marked-later :
      (k : Text) (s : F.State) (ps : List Text)
      → Marked F env true s ps
      → Marked F env true (F.write k s) ps
  Marked-later k s [] m = m
  Marked-later k s (p ∷ ps) m = (keeps_true (state_name env p) k s m.0, Marked-later k s ps m.1)

  pub Marked-other :
      (p : Text) (s : F.State) (qs : List Text)
      → IsNew env p qs
      → Marked F env false s qs
      → Marked F env false (F.write (state_name env p) s) qs
  Marked-other p s [] new m = m
  Marked-other p s (q ∷ qs) new m = (
    law.check-write (state_name env q) (state_name env p) s ∙ rw (new.0, m.0) refl,
    Marked-other p s qs new.1 m.1,
  )

  pub Marked-append :
      (b : Bool) (s : F.State) (ps qs : List Text)
      → Marked F env b s ps
      → Marked F env b s qs
      → Marked F env b s (ps ++ qs)
  Marked-append b s [] qs m n = n
  Marked-append b s (p ∷ ps) qs m n = (m.0, Marked-append b s ps qs m.1 n)

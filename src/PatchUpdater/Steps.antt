-- ===== src/PatchUpdater/Steps.antt =====
-- What becomes of a patch: it is skipped, or all its calls are made and it is recorded, or a call fails.
use mathlib.Core.List.{append_assoc, append-nil}
use macstrop.Shared.{
  ◌≡◌, ◌⊎◌, inl, inr, refl, sym, ap, ◌∙◌, Bool, true, false, List, [], ◌∷◌, ◌++◌, Bool-cases,
  Option-cases,
}
use macstrop.Shared.Texts.{Text}
use macstrop.PatchUpdater.Patch.{
  StateFile, Unpack, Effect, apply, wait_for_git, git_add, git_commit, make_folder_for, save, Env,
  state_name, unpack_with, work, PatchRun, Result, ok, failed, make_call, make_calls, update_patch,
}

-- The patches that were applied.
abbrev pub applied_by : Effect → List Text
applied_by (apply how path) = path ∷ []
applied_by wait_for_git = []
applied_by git_add = []
applied_by (git_commit path) = []
applied_by (make_folder_for name) = []
applied_by (save p1 name) = []

abbrev pub applied : List Effect → List Text
applied [] = []
applied (e ∷ es) = applied_by e ++ applied es

pub applied-append : (es fs : List Effect) → applied (es ++ fs) ≡ applied es ++ applied fs
applied-append [] fs = refl
applied-append (e ∷ es) fs =
    ap (λ l. applied_by e ++ l) (applied-append es fs)
    ∙ sym (append_assoc (applied_by e) (applied es) (applied fs))

module _ (F : StateFile) (env : Env) (fails : List Effect → Effect → Bool) where
  -- The calls up to the one that fails.
  pub record Stopped (es : List Effect) (r r' : PatchRun F) : Type 0 where
    pub made : List Effect
    pub next : Effect
    pub left : List Effect
    pub all : es ≡ made ++ next ∷ left
    pub logged : r'.log ≡ r.log ++ made
    pub file_kept : r'.file ≡ r.file
    pub failing : fails (r.log ++ made) next ≡ true

  pub make_calls-cases :
      (es : List Effect) (r : PatchRun F)
      → (make_calls F env fails es r ≡ ok (record r { log = r.log ++ es }))
        ⊎ ((r' : PatchRun F) × (make_calls F env fails es r ≡ failed r') × Stopped es r r')
  unfolding make_calls make_call
  make_calls-cases [] r = inl (ap (λ l. ok (record r { log = l })) (sym (append-nil r.log)))
  make_calls-cases (e ∷ es) r = elim (Bool-cases (fails r.log e)) [
    | inl bad ↦ inr (
      r,
      rw bad refl,
      record {
        made = [];
        next = e;
        left = es;
        all = refl;
        logged = sym (append-nil r.log);
        file_kept = refl;
        failing = ap (λ l. fails l e) (append-nil r.log) ∙ bad;
      },
    )
    | inr good ↦ elim (make_calls-cases es (record r { log = r.log ++ e ∷ [] })) [
      | inl done ↦
          inl
            (rw good (done ∙ ap (λ l. ok (record r { log = l })) (append_assoc r.log (e ∷ []) es)))
      | inr (r', stop, s) ↦ inr (
        r',
        rw good stop,
        record {
          made = e ∷ s.made;
          next = s.next;
          left = s.left;
          all = ap (λ l. e ∷ l) s.all;
          logged = s.logged ∙ append_assoc r.log (e ∷ []) s.made;
          file_kept = s.file_kept;
          failing = ap (λ l. fails l s.next) (sym (append_assoc r.log (e ∷ []) s.made)) ∙ s.failing;
        },
      )
    ]
  ]

append-nil_left : (xs ys : List Text) → xs ++ ys ≡ [] → (xs ≡ []) × (ys ≡ [])
append-nil_left [] ys e = (refl, e)
append-nil_left (x ∷ xs) ys e = cc

-- Behind the call of `patch` no other one comes.
applied-work :
    (env : Env) (how : Unpack) (path : Text)
    → (es : List Effect) × (work env how path ≡ apply how path ∷ es) × (applied es ≡ [])
unfolding work
applied-work env how path = (_, refl, refl)

head_of : (e f : Effect) (es fs : List Effect) → e ∷ es ≡ f ∷ fs → (e ≡ f) × (es ≡ fs)
head_of e f es fs h = (cc, cc)

-- A failure leaves nothing, or comes behind the call of `patch`.
abbrev pub Half : Text → List Effect → (List Effect → Effect → Bool) → List Effect → Type 0
Half path log fails made =
    (made ≡ [])
    ⊎ ((applied made ≡ path ∷ [])
        × ((next : Effect) × (applied_by next ≡ []) × (fails (log ++ made) next ≡ true)))

half :
    (path : Text) (log : List Effect) (fails : List Effect → Effect → Bool) (how : Unpack)
    (es made : List Effect) (next : Effect) (left : List Effect)
    → apply how path ∷ es ≡ made ++ next ∷ left
    → applied es ≡ []
    → fails (log ++ made) next ≡ true
    → Half path log fails made
half path log fails how es [] next left all none_later bad = inl refl
half path log fails how es (e ∷ made) next left all none_later bad =
    let (first, rest) = head_of (apply how path) e es (made ++ next ∷ left) all in
    let nothing =
      append-nil_left (applied made) (applied (next ∷ left))
        (sym (applied-append made (next ∷ left)) ∙ (ap applied (sym rest) ∙ none_later)) in
    inr (
      ap (λ f. applied_by f ++ applied made) (sym first) ∙ ap (λ l. path ∷ l) nothing.0,
      (next, (append-nil_left (applied_by next) (applied left) nothing.1).0, bad),
    )

Stopped-Half :
    (F : StateFile) (env : Env) (fails : List Effect → Effect → Bool) (how : Unpack) (path : Text)
    (r r' : PatchRun F)
    → (s : Stopped F env fails (work env how path) r r') → Half path r.log fails s.made
Stopped-Half F env fails how path r r' s =
    let (es, is, none_later) = applied-work env how path in
    half path r.log fails how es s.made s.next s.left (sym is ∙ s.all) none_later s.failing

module _ (F : StateFile) (env : Env) (fails : List Effect → Effect → Bool) (path : Text)
    (r : PatchRun F) where
  abbrev pub key : Text
  key = state_name env path

  abbrev pub recorded : Unpack → PatchRun F
  recorded how = record { log = r.log ++ work env how path; file = F.write key r.file }

  pub data Updated (res : Result F) : Type 0 where
    skipped : F.check key r.file ≡ true → res ≡ ok r → Updated res
    updated : F.check key r.file ≡ false → (how : Unpack) → res ≡ ok (recorded how) → Updated res
    stopped :
        F.check key r.file ≡ false
        → (r' : PatchRun F) → (made : List Effect) → res ≡ failed r'
        → r'.file ≡ r.file
        → r'.log ≡ r.log ++ made
        → Half path r.log fails made
        → Updated res

  pub update_patch-Updated : Updated (update_patch F env fails path r)
  unfolding update_patch
  update_patch-Updated = elim (Bool-cases (F.check key r.file)) [
    | inl old ↦ skipped old (rw old refl)
    | inr new ↦ elim (Option-cases (unpack_with env path)) [
      | inl no_xz ↦ stopped new r [] (rw (new, no_xz) refl) refl (sym (append-nil r.log)) (inl refl)
      | inr (how, is) ↦ elim (make_calls-cases F env fails (work env how path) r) [
        | inl done ↦ updated new how (rw (new, is, done) refl)
        | inr (r', stop, s) ↦
            stopped new r' s.made (rw (new, is, stop) refl) s.file_kept s.logged
              (Stopped-Half F env fails how path r r' s)
      ]
    ]
  ]

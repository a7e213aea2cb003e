-- ===== src/KWindowInfo/History.antt =====
-- Histories of calls from a program with no handle and no object.
use macstrop.Shared.{
  ℕ, ◌≡◌, refl, sym, ap, ◌∙◌, ◌≢◌, ◌↔◌, subst, inl, inr, Option, none, some, List, [], ◌∷◌, arith,
  ◌==◌, Bool-cases, ==_iff,
}
use macstrop.KWindowInfo.Store.{Ptr, null, Private}
use macstrop.KWindowInfo.Program.{Program, Call, step, run, count, Allowed, start}
use macstrop.KWindowInfo.Counting.{Counted}
use macstrop.KWindowInfo.Owners.{IsCounted, run_owners}
use macstrop.KWindowInfo.Invariant.{step-owners}

start-IsCounted : IsCounted start
start-IsCounted = record { null_free = refl; counted = λ p ne. refl }

-- Each call of the history is allowed where it is made.
abbrev pub AllowedRun : List Call → Program → Type 0
AllowedRun [] s = Unit {0}
AllowedRun (c ∷ cs) s = Allowed s c × ((t : Program) → step c s ≡ some t → AllowedRun cs t)

run-cons :
    (c : Call) (cs : List Call) (s t u : Program)
    → step c s ≡ some t
    → run cs t ≡ some u
    → run (c ∷ cs) s ≡ some u
unfolding run
run-cons c cs s t u e f = ground arith

-- A history runs without fault, and leaves the handles `hs` and the right counts.
abbrev pub Runs : List Call → Program → List (Option Ptr) → Type 0
Runs cs s hs = (t : Program) × (run cs s ≡ some t) × (t.handles ≡ hs) × IsCounted t

run_from-owners :
    (cs : List Call) (s : Program)
    → IsCounted s
    → AllowedRun cs s
    → Runs cs s (run_owners cs s.handles)
unfolding run run_owners
run_from-owners [] s v a = (s, refl, refl, v)
run_from-owners (c ∷ cs) s v a =
    let (t, e, h, v') = step-owners s c v a.0 in
    let (u, f, k, v'') = run_from-owners cs t v' (a.1 t e) in
    (u, run-cons c cs s t u e f, k ∙ ap (run_owners cs) h, v'')

-- A history of calls, each allowed where it is made (on live handles, with fresh memory from `new`,
-- room in the count, and no methods through a null handle), never faults from the empty program; at
-- its end the reference count of each object is the number of handles on it, and no other object
-- exists.
pub run-IsCounted :
    (cs : List Call) → AllowedRun cs start → (t : Program) × (run cs start ≡ some t) × IsCounted t
run-IsCounted cs a = let (t, e, _, v) = run_from-owners cs start start-IsCounted a in (t, e, v)

-- Every handle has been destroyed.
abbrev pub AllGone : List (Option Ptr) → Type 0
AllGone [] = Unit {0}
AllGone (h ∷ hs) = (h ≡ none) × AllGone hs

count-AllGone : (p : Ptr) (hs : List (Option Ptr)) → AllGone hs → count p hs ≡ 0
count-AllGone p [] g = refl
count-AllGone p (h ∷ hs) g = rw g.0 (omega (arith, count-AllGone p hs g.1))

Counted-zero : (h : Option Private) (n : ℕ) → Counted h n → n ≡ 0 → h ≡ none
Counted-zero none n c z = refl
Counted-zero (some o) n c z = absurd (omega arith)

-- Where each count is the number of handles and all handles are destroyed, the heap is empty.
pub no_leak : (s : Program) → IsCounted s → AllGone s.handles → (p : Ptr) → s.world.heap p ≡ none
no_leak s v gone p = elim (Bool-cases (p == null)) [
  | inl z ↦ subst (λ q. s.world.heap q ≡ none) (sym ((==_iff p null).0 z)) v.null_free
  | inr nz ↦
      Counted-zero (s.world.heap p) (count p s.handles)
        (v.counted p (λ e. cc (nz, (==_iff p null).1 e))) (count-AllGone p s.handles gone)
]

-- A history of calls, each allowed where it is made, that starts from the empty program and ends
-- with all handles destroyed has freed every object.
pub run_no_leak :
    (cs : List Call) (t : Program)
    → AllowedRun cs start
    → run cs start ≡ some t
    → AllGone t.handles
    → (p : Ptr) → t.world.heap p ≡ none
run_no_leak cs t a e gone =
    let (t', e', v) = run-IsCounted cs a in
    let same : t' ≡ t = cc (e', e) in no_leak t (subst IsCounted same v) gone

Counted-none : (h : Option Private) (n : ℕ) → Counted h n → (h ≡ none) ↔ (n ≡ 0)
Counted-none none n c = (λ _. c, λ _. refl)
Counted-none (some o) n c = (λ e. cc, λ z. absurd (omega arith))

-- Reference counting is never seen. A history of calls, each allowed where it is made, runs without
-- fault, and leaves the handles that it leaves where nobody counts; at its end an address holds an
-- object exactly if one of these handles points to it.
pub run-owners :
    (cs : List Call)
    → AllowedRun cs start
    → (t : Program) × (run cs start ≡ some t)
      × (t.handles ≡ run_owners cs [])
      × ((p : Ptr) → p ≢ null → (t.world.heap p ≡ none) ↔ (count p (run_owners cs []) ≡ 0))
run-owners cs a =
    let (t, e, h, v) = run_from-owners cs start start-IsCounted a in
    (
      t,
      e,
      h,
      λ p ne.
          Counted-none (t.world.heap p) (count p (run_owners cs []))
            (subst (λ hs. Counted (t.world.heap p) (count p hs)) h (v.counted p ne)),
    )

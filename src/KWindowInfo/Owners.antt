-- ===== src/KWindowInfo/Owners.antt =====
-- The handles of a program, counted.
use macstrop.Shared.{
  ℕ, zero, suc, ◌+◌, ◌<◌, ◌≡◌, refl, Option, none, some, List, [], ◌∷◌, ◌++◌, arith, get_elem?, set,
}
use macstrop.KWindowInfo.Store.{Ptr, null}
use macstrop.KWindowInfo.Program.{
  Program, Call, make, make_default, copy, assign_to, destroy, step, hit, count, handle,
}
use macstrop.KWindowInfo.Counting.{Counts}

-- The reference count of each object is the number of handles on it, and no other object exists.
abbrev pub IsCounted : Program → Type 0
IsCounted s = Counts s.world (λ p. count p s.handles)

pub count-append :
    (p : Ptr) (hs : List (Option Ptr)) (h : Option Ptr)
    → count p (hs ++ h ∷ []) ≡ count p hs + hit p h
count-append p [] h = omega arith
count-append p (x ∷ hs) h = omega (arith, count-append p hs h)

pub count-set :
    (p : Ptr) (hs : List (Option Ptr)) (i : ℕ) (old new : Option Ptr)
    → get_elem? hs i ≡ some old
    → count p (set hs i new) + hit p old ≡ count p hs + hit p new
count-set p [] i old new e = cc
count-set p (x ∷ hs) zero old new e = ground arith
count-set p (x ∷ hs) (suc i) old new e = omega (arith, count-set p hs i old new e)

pub count_pos :
    (p : Ptr) (hs : List (Option Ptr)) (i : ℕ) → get_elem? hs i ≡ some (some p) → 0 < count p hs
count_pos p [] i e = cc
count_pos p (x ∷ hs) zero e = ground arith
count_pos p (x ∷ hs) (suc i) e = omega (arith, count_pos p hs i e)

pub handle_eq :
    (s : Program) (i : ℕ) (d : Ptr) → get_elem? s.handles i ≡ some (some d) → handle s i ≡ some d
handle_eq s i d e = rw (e, handle) refl

-- Handles that are counted by nobody: what a call does to the handles of a program, if an object lives
-- as long as a handle points to it. A call on a handle that is not there changes nothing.
unfoldable pub owners : Call → List (Option Ptr) → List (Option Ptr)
owners (make d psn icon_spec win) hs = hs ++ some d ∷ []
owners make_default hs = hs ++ some null ∷ []
owners (copy i) hs = elim (get_elem? hs i) [ none ↦ hs | some h ↦ hs ++ h ∷ [] ]
owners (assign_to i j) hs = elim (get_elem? hs j) [ none ↦ hs | some h ↦ set hs i h ]
owners (destroy i) hs = set hs i none
owners _ hs = hs

unfoldable pub run_owners : List Call → List (Option Ptr) → List (Option Ptr)
unfolding owners
run_owners [] hs = hs
run_owners (c ∷ cs) hs = run_owners cs (owners c hs)

-- A call runs without fault, and leaves the handles `hs` and the right counts.
abbrev pub Steps : Call → Program → List (Option Ptr) → Type 0
Steps c s hs = (t : Program) × (step c s ≡ some t) × (t.handles ≡ hs) × IsCounted t

-- ===== src/KWindowInfo/Invariant.antt =====
-- Programs over several handles: no allowed call faults, and each count stays the number of handles.
use macstrop.Shared.{
  ==_iff, ap, subst, List, Option, ℕ, ◌<◌, ◌≡◌, refl, true, false, inl, inr, none, some, [], ◌∷◌,
  ◌++◌, arith, ◌==◌, Bool-cases, int_max, get_elem?, set,
}
use macstrop.KWindowInfo.Store.{Ptr, null, World}
use macstrop.KWindowInfo.Handle.{
  acquire, release_handle, construct, construct_default, construct_copy, assign, destruct,
}
use macstrop.KWindowInfo.Program.{
  Program, Call, make, copy, assign_to, destroy, step, count, Allowed, make_ok, make_default_ok,
  copy_ok, assign_ok, destroy_ok, handle, push, put,
}
use macstrop.KWindowInfo.Counting.{construct-Counts, acquire-Counts, release-Counts, Counts-same}
use macstrop.KWindowInfo.Owners.{
  Steps, owners, IsCounted, count-append, count-set, count_pos, handle_eq,
}
use macstrop.KWindowInfo.Visits.{ask_name-IsCounted, set_element-IsCounted, set_serial-IsCounted}
use macstrop.KWindowInfo.Program.{ask_name_ok, set_element_ok, set_serial_ok}

-- `step` from the outcome of the handle's method.
step-push :
    (s : Program) (i : ℕ) (d d' : Ptr) (w : World)
    → handle s i ≡ some d
    → construct_copy d s.world ≡ some (d', w)
    → step (copy i) s ≡ some (record { world = w; handles = s.handles ++ some d' ∷ [] })
unfolding step
step-push s i d d' w h e = ground arith

step-put :
    (s : Program) (i : ℕ) (d : Ptr) (w : World)
    → handle s i ≡ some d
    → destruct d s.world ≡ some (tt, w)
    → step (destroy i) s ≡ some (put s i none w)
unfolding step
step-put s i d w h e = ground arith

step-assign :
    (s : Program) (i j : ℕ) (d other d' : Ptr) (w : World)
    → handle s i ≡ some d
    → handle s j ≡ some other
    → assign d other s.world ≡ some (d', w)
    → step (assign_to i j) s ≡ some (put s i (some d') w)
unfolding step
step-assign s i j d other d' w h k e = ground arith

step-make :
    (s : Program) (d psn icon_spec win : ℕ) (w : World)
    → construct d psn icon_spec win s.world ≡ some (d, w)
    → step (make d psn icon_spec win) s
      ≡ some (record { world = w; handles = s.handles ++ some d ∷ [] })
unfolding step
step-make s d psn icon_spec win w e = rw (e, push) refl

construct_copy-acquire :
    (d : Ptr) (w w' : World) → acquire d w ≡ some (tt, w') → construct_copy d w ≡ some (d, w')
unfolding construct_copy
construct_copy-acquire d w w' e = ground arith

assign-release-acquire :
    (d other : Ptr) (w w' w'' : World)
    → (d == other) ≡ false
    → release_handle d w ≡ some (tt, w')
    → acquire other w' ≡ some (tt, w'')
    → assign d other w ≡ some (other, w'')
unfolding assign
assign-release-acquire d other w w' w'' ne e f = ground arith

module _ (s : Program) (v : IsCounted s) (i : ℕ) (d : Ptr)
    (e : get_elem? s.handles i ≡ some (some d)) where
  copy-IsCounted : count d s.handles < int_max → Steps (copy i) s (s.handles ++ some d ∷ [])
  copy-IsCounted lt =
      let (w, run_ok, c) =
        acquire-Counts s.world _ (λ p. count p (s.handles ++ some d ∷ [])) v d
          (λ _. count_pos d s.handles i e) lt (λ p. count-append p s.handles (some d)) in
      (
        _,
        step-push s i d d w (handle_eq s i d e) (construct_copy-acquire d s.world w run_ok),
        refl,
        c,
      )

  destroy-IsCounted : Steps (destroy i) s (set s.handles i none)
  unfolding destruct
  destroy-IsCounted =
      let (w, run_ok, c) =
        release-Counts s.world _ (λ p. count p (set s.handles i none)) v d
          (λ _. count_pos d s.handles i e)
          (λ p. omega (arith, count-set p s.handles i (some d) none e)) in
      (_, step-put s i d w (handle_eq s i d e) run_ok, refl, c)

  module _ (j : ℕ) (other : Ptr) (f : get_elem? s.handles j ≡ some (some other)) where
    assign_same-IsCounted :
        (d == other) ≡ true → Steps (assign_to i j) s (set s.handles i (some other))
    unfolding assign
    assign_same-IsCounted same = (
      _,
      step-assign s i j d other d s.world (handle_eq s i d e) (handle_eq s j other f)
          (rw same refl),
      ap (λ q. set s.handles i (some q)) ((==_iff d other).0 same),
      Counts-same s.world _ _ (λ q _. omega (arith, count-set q s.handles i (some d) (some d) e)) v,
    )

    assign_other-IsCounted :
        (d == other) ≡ false
        → count other s.handles < int_max
        → Steps (assign_to i j) s (set s.handles i (some other))
    assign_other-IsCounted ne lt =
        let without : Ptr → ℕ = λ p. count p (set s.handles i none) in
        let kept : without other ≡ count other s.handles =
          ground (arith, count-set other s.handles i (some d) none e) in
        let (w', released, c') =
          release-Counts s.world _ without v d (λ _. count_pos d s.handles i e)
            (λ p. omega (arith, count-set p s.handles i (some d) none e)) in
        let (w'', acquired, c'') =
          acquire-Counts w' without (λ p. count p (set s.handles i (some other))) c' other
            (λ _. omega (arith, kept, count_pos other s.handles j f)) (omega (arith, kept))
            (λ p. omega (
              arith,
              count-set p s.handles i (some d) none e,
              count-set p s.handles i (some d) (some other) e,
            )) in
        (
          _,
          step-assign s i j d other other w'' (handle_eq s i d e) (handle_eq s j other f)
              (assign-release-acquire d other s.world w' w'' ne released acquired),
          refl,
          c'',
        )

owners-copy :
    (i : ℕ) (hs : List (Option Ptr)) (h : Option Ptr)
    → get_elem? hs i ≡ some h
    → hs ++ h ∷ [] ≡ owners (copy i) hs
unfolding owners
owners-copy i hs h e = rw (owners, e) refl

owners-assign :
    (i j : ℕ) (hs : List (Option Ptr)) (h : Option Ptr)
    → get_elem? hs j ≡ some h
    → set hs i h ≡ owners (assign_to i j) hs
unfolding owners
owners-assign i j hs h e = rw (owners, e) refl

-- An allowed call runs without fault, keeps the counts right, and leaves the handles that it leaves
-- where nobody counts.
pub step-owners :
    (s : Program) (c : Call) → IsCounted s → Allowed s c → Steps c s (owners c s.handles)
unfolding step construct_default owners
step-owners s c v (make_ok {d} {psn} {icon_spec} {win} ne fresh) =
    let (w, run_ok, c) =
      construct-Counts s.world _ (λ p. count p (s.handles ++ some d ∷ [])) v d psn icon_spec win ne
        fresh (λ p. count-append p s.handles (some d)) in
    (_, step-make s d psn icon_spec win w run_ok, refl, c)
step-owners s c v make_default_ok = (
  _,
  refl,
  refl,
  Counts-same s.world _ _ (λ q nq. ground (arith, count-append q s.handles (some null))) v,
)
step-owners s c v (copy_ok {i} {d} e lt) =
    subst (Steps (copy i) s) (owners-copy i s.handles (some d) e) (copy-IsCounted s v i d e lt)
step-owners s c v (assign_ok {i} {j} {d} {other} e f lt) =
    subst (Steps (assign_to i j) s) (owners-assign i j s.handles (some other) f)
      (elim (Bool-cases (d == other)) [
        | inl same ↦ assign_same-IsCounted s v i d e j other f same
        | inr ne ↦ assign_other-IsCounted s v i d e j other f ne lt
      ])
step-owners s c v (destroy_ok {i} {d} e) = destroy-IsCounted s v i d e
step-owners s c v (ask_name_ok {c = carbon} {g} {i} {d} e ne) =
    ask_name-IsCounted s v i d e ne carbon g
step-owners s c v (set_element_ok {i} {a} {d} e ne na) = set_element-IsCounted s v i d e ne a na
step-owners s c v (set_serial_ok {c = carbon} {i} {psn} {d} e ne) =
    set_serial-IsCounted s v i d e ne carbon psn

-- A constructor with fresh memory from `new`, a copy with room in the count, an assignment with such
-- room, a destructor, and through a handle that is not null `name`, `setAxElement` with an element or
-- `setProcessSerialNumber`: on live handles each runs without fault, and if before it each count is
-- the number of handles on the object and no other object exists, then so it is after it.
pub step-IsCounted :
    (s : Program) (c : Call)
    → IsCounted s
    → Allowed s c
    → (t : Program) × (step c s ≡ some t) × IsCounted t
step-IsCounted s c v a = let (t, e, _, v') = step-owners s c v a in (t, e, v')

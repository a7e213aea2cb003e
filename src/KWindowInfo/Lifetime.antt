-- ===== src/KWindowInfo/Lifetime.antt =====
-- When an object is freed, and what copies and assignments leave as it was.
use macstrop.Shared.{
  ℕ, zero, suc, ◌<◌, ◌≡◌, ◌≢◌, ◌==◌, ◌↔◌, ◌⊎◌, inl, inr, Bool-cases, ==_iff, refl, sym, ap, ◌∙◌,
  none, some, arith, pos, if◌then◌else◌, ==_self, int_max,
}
use macstrop.KWindowInfo.Store.{Ptr, null, Private, World, write}
use macstrop.KWindowInfo.Handle.{construct_copy, assign, destruct}
use macstrop.KWindowInfo.RefCount.{left, closing, acquire-some, release-some}

left-none : (n : ℕ) (o : Private) → (left n o ≡ none) ↔ (n ≡ 0)
left-none zero o = (λ _. refl, λ _. refl)
left-none (suc n) o = (λ e. cc, λ e. absurd (omega arith))

module _ (w : World) (d : Ptr) (o : Private) (n : ℕ) (ne : d ≢ null) (e : w.heap d ≡ some o)
    (r : o.ref ≡ pos (suc n)) where
  -- Let `n + 1` be the count of an object. The destructor of a handle on it runs without fault,
  -- frees the object exactly if `n` is 0, then releases the accessibility element if there is one
  -- and otherwise makes no call, and touches no other object.
  pub destruct-frees_last :
      (w' : World) × (destruct d w ≡ some (tt, w'))
      × ((w'.heap d ≡ none) ↔ (n ≡ 0))
      × (w'.calls ≡ closing n o w.calls)
      × ((q : Ptr) → (w'.heap q ≡ w.heap q) ⊎ (q ≡ d))
  unfolding destruct
  destruct-frees_last =
      let (w', gone, heaps, calls) = release-some w d o n ne e r in
      let at_d : w'.heap d ≡ left n o =
        heaps d ∙ ap (λ b. if b then left n o else w.heap d) (==_self d) in
      (
        w',
        gone,
        rw at_d (left-none n o),
        calls,
        λ q. elim (Bool-cases (d == q)) [
          | inl t ↦ inr (sym ((==_iff d q).0 t))
          | inr f ↦ inl (heaps q ∙ ap (λ b. if b then left n o else w.heap q) f)
        ],
      )

  -- On an object whose count is between 1 and INT_MAX - 1, a copy of a handle that is destroyed
  -- again leaves every object as it was and makes no call of Core Foundation, and neither operation
  -- faults.
  pub construct_copy-destruct :
      suc n < int_max
      → (w' w'' : World) × (construct_copy d w ≡ some (d, w'))
        × (destruct d w' ≡ some (tt, w''))
        × ((q : Ptr) → w''.heap q ≡ w.heap q)
        × (w''.calls ≡ w.calls)
  unfolding construct_copy destruct
  construct_copy-destruct lt =
      let o' : Private = record o { ref = pos (suc (suc n)) } in
      let w' : World = write w d (some o') in
      let (w'', gone, heaps, calls) =
        release-some w' d o' (suc n) ne (ap (λ b. if b then some o' else w.heap d) (==_self d))
          refl in
      (
        w',
        w'',
        ground (arith, acquire-some w d o (suc n) ne e r lt),
        gone,
        (λ q. ground (arith, heaps q)),
        calls,
      )

-- `operator=` leaves the same objects, with the same contents but for the reference count, when both
-- handles point to one object: nothing is freed even if the count is one.
pub assign_self : (d : Ptr) (w : World) → assign d d w ≡ some (d, w)
unfolding assign
assign_self d w = rw (==_self d) refl

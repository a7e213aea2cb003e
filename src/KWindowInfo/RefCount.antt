-- ===== src/KWindowInfo/RefCount.antt =====
-- The reference count of a `KWindowInfo::Private` is the number of handles on it.
use macstrop.Shared.{
  ℕ, zero, suc, ◌<◌, ◌≡◌, ◌≢◌, refl, true, Option, none, some, List, ◌∷◌, arith, pos, ◌==◌,
  if◌then◌else◌, int_max, increment-pos, decrement-pos,
}
use macstrop.KWindowInfo.Store.{Ptr, null, Private, CfCall, release, World, update, write}
use macstrop.KWindowInfo.Handle.{acquire, release_handle}

-- What is left of an object, and which call is made, when `m` handles remain.
abbrev pub left : ℕ → Private → Option Private
left zero o = none
left (suc m) o = some (record o { ref = pos (suc m) })

abbrev pub closing : ℕ → Private → List CfCall → List CfCall
closing zero o cs = if o.ax_win == null then cs else release o.ax_win ∷ cs
closing (suc m) o cs = cs

-- `acquire` and `release_handle` at an object whose count is known.
pub acquire-some :
    (w : World) (d : Ptr) (o : Private) (n : ℕ)
    → d ≢ null
    → w.heap d ≡ some o
    → o.ref ≡ pos n
    → n < int_max
    → acquire d w ≡ some (tt, write w d (some (record o { ref = pos (suc n) })))
unfolding acquire
acquire-some w d o n ne e r lt = ground (arith, increment-pos n lt)

pub release-some :
    (w : World) (d : Ptr) (o : Private) (m : ℕ)
    → d ≢ null
    → w.heap d ≡ some o
    → o.ref ≡ pos (suc m)
    → (w' : World) × (release_handle d w ≡ some (tt, w'))
      × ((q : Ptr) → w'.heap q ≡ update w.heap d (left m o) q)
      × (w'.calls ≡ closing m o w.calls)
unfolding release_handle
release-some w d o zero ne e r = (
  record {
    heap = update (update w.heap d (some (record o { ref = pos 0 }))) d none;
    calls = closing zero o w.calls;
  },
  ground (arith, decrement-pos 0),
  (λ q. ground arith),
  refl,
)
release-some w d o (suc m) ne e r = (
  write w d (some (record o { ref = pos (suc m) })),
  ground (arith, decrement-pos (suc m)),
  (λ q. refl),
  refl,
)

-- The null handle counts nothing.
pub acquire-null : (w : World) (d : Ptr) → (d == null) ≡ true → acquire d w ≡ some (tt, w)
unfolding acquire
acquire-null w d z = rw z refl

pub release-null : (w : World) (d : Ptr) → (d == null) ≡ true → release_handle d w ≡ some (tt, w)
unfolding release_handle
release-null w d z = rw z refl

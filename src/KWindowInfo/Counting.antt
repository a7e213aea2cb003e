-- ===== src/KWindowInfo/Counting.antt =====
-- A constructor, a copy and a destructor keep each reference count equal to the number of handles,
-- and run into no fault.
use macstrop.Shared.{
  ℕ, zero, suc, ◌+◌, ◌<◌, ◌≡◌, ◌≢◌, refl, sym, ap, ◌∙◌, subst, false, inl, inr, Option, none, some,
  arith, pos, ◌==◌, if◌then◌else◌, Bool-cases, ==_iff, ==_of_ne, int_max,
}
use macstrop.KWindowInfo.Store.{Ptr, null, Private, World, update, write}
use macstrop.KWindowInfo.Handle.{acquire, release_handle, construct, private_new}
use macstrop.KWindowInfo.Program.{hit}
use macstrop.KWindowInfo.RefCount.{left, acquire-some, release-some, acquire-null, release-null}

-- No object where there is no handle; else an object whose count is `n`.
abbrev pub Counted : Option Private → ℕ → Type 0
Counted none n = n ≡ 0
Counted (some o) n = (o.ref ≡ pos n) × (0 < n)

-- `n p` handles point to `p`.
pub record Counts (w : World) (n : Ptr → ℕ) : Type 0 where
  pub null_free : w.heap null ≡ none
  pub counted : (p : Ptr) → p ≢ null → Counted (w.heap p) (n p)

pub Counted-some :
    (h : Option Private) (n : ℕ)
    → Counted h n
    → 0 < n
    → (o : Private) × (h ≡ some o) × (o.ref ≡ pos n)
Counted-some none n c lt = absurd (omega arith)
Counted-some (some o) n c lt = (o, refl, c.0)

Counted-left : (m : ℕ) (o : Private) → Counted (left m o) m
Counted-left zero o = refl
Counted-left (suc m) o = (refl, omega arith)

Counted-update :
    (h h' : Ptr → Option Private) (d : Ptr) (v : Option Private) (n n' : Ptr → ℕ) (q : Ptr)
    → h' q ≡ update h d v q
    → ((d == q) ≡ false → n' q ≡ n q)
    → Counted v (n' d)
    → Counted (h q) (n q)
    → Counted (h' q) (n' q)
Counted-update h h' d v n n' q e same new old = elim (Bool-cases (d == q)) [
  | inl t ↦
      let at_d : h' q ≡ v = e ∙ ap (λ b. if b then v else h q) t in
      subst (λ o. Counted o (n' q)) (sym at_d)
        (subst (λ x. Counted v (n' x)) ((==_iff d q).0 t) new)
  | inr f ↦
      let away : h' q ≡ h q = e ∙ ap (λ b. if b then v else h q) f in
      subst (λ o. Counted o (n' q)) (sym away) (subst (Counted (h q)) (sym (same f)) old)
]

pub Counts-update :
    (w w' : World) (d : Ptr) (v : Option Private) (n n' : Ptr → ℕ)
    → Counts w n
    → d ≢ null
    → ((q : Ptr) → w'.heap q ≡ update w.heap d v q)
    → ((q : Ptr) → (d == q) ≡ false → n' q ≡ n q)
    → Counted v (n' d)
    → Counts w' n'
Counts-update w w' d v n n' c ne heaps same new = record {
  null_free =
      heaps null ∙ ap (λ b. if b then v else w.heap null) (==_of_ne d null ne) ∙ c.null_free;
  counted =
      λ q nq. Counted-update w.heap w'.heap d v n n' q (heaps q) (same q) new (c.counted q nq);
}

pub Counts-same :
    (w : World) (n n' : Ptr → ℕ) → ((q : Ptr) → q ≢ null → n' q ≡ n q) → Counts w n → Counts w n'
Counts-same w n n' same c = record {
  null_free = c.null_free;
  counted = λ q nq. subst (Counted (w.heap q)) (sym (same q nq)) (c.counted q nq);
}

module _ (w : World) (n n' : Ptr → ℕ) (c : Counts w n) (d : Ptr) where
  -- A new object with one handle.
  pub construct-Counts :
      (psn icon_spec win : ℕ)
      → d ≢ null
      → w.heap d ≡ none
      → ((p : Ptr) → n' p ≡ n p + hit p (some d))
      → (w' : World) × (construct d psn icon_spec win w ≡ some (d, w')) × Counts w' n'
  unfolding construct private_new
  construct-Counts psn icon_spec win ne fresh more = (
    write w d (some (private_new d psn icon_spec win)),
    refl,
    Counts-update w _ d (some (private_new d psn icon_spec win)) n n' c ne (λ q. refl)
        (λ q f. ground (arith, more q)) one,
  )
    where
      free : n d ≡ 0
      free = subst (λ o. Counted o (n d)) fresh (c.counted d ne)

      one : Counted (some (private_new d psn icon_spec win)) (n' d)
      one = ground (arith, more d, free)

  pub acquire-Counts :
      (d ≢ null → 0 < n d)
      → n d < int_max
      → ((p : Ptr) → n' p ≡ n p + hit p (some d))
      → (w' : World) × (acquire d w ≡ some (tt, w')) × Counts w' n'
  acquire-Counts live lt more = elim (Bool-cases (d == null)) [
    | inl z ↦ (w, acquire-null w d z, Counts-same w n n' (λ q nq. ground (arith, more q)) c)
    | inr nz ↦ nonnull (λ e. cc (nz, (==_iff d null).1 e))
  ]
    where
      nonnull : d ≢ null → (w' : World) × (acquire d w ≡ some (tt, w')) × Counts w' n'
      nonnull ne =
          let (o, e, r) = Counted-some (w.heap d) (n d) (c.counted d ne) (live ne) in
          (
            _,
            acquire-some w d o (n d) ne e r lt,
            Counts-update w _ d (some (record o { ref = pos (suc (n d)) })) n n' c ne (λ q. refl)
                (λ q f. ground (arith, more q)) (ground (arith, more d)),
          )

  pub release-Counts :
      (d ≢ null → 0 < n d)
      → ((p : Ptr) → n' p + hit p (some d) ≡ n p)
      → (w' : World) × (release_handle d w ≡ some (tt, w')) × Counts w' n'
  release-Counts live less = elim (Bool-cases (d == null)) [
    | inl z ↦ (w, release-null w d z, Counts-same w n n' (λ q nq. ground (arith, less q)) c)
    | inr nz ↦ nonnull (λ e. cc (nz, (==_iff d null).1 e))
  ]
    where
      nonnull : d ≢ null → (w' : World) × (release_handle d w ≡ some (tt, w')) × Counts w' n'
      nonnull ne =
          let (o, e, r) = Counted-some (w.heap d) (n d) (c.counted d ne) (live ne) in
          let m : ℕ = n' d in
          let full : n d ≡ suc m = ground (arith, less d) in
          let (w', gone, heaps, calls) = release-some w d o m ne e (r ∙ ap pos full) in
          (
            w',
            gone,
            Counts-update w w' d (left m o) n n' c ne heaps (λ q f. ground (arith, less q))
                (Counted-left m o),
          )

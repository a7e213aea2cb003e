-- ===== src/KWindowInfo/Bundle.antt =====
-- The icon file of a process: the bundle of its executable. And when a handle is valid.
use macstrop.Shared.{
  ℕ, ◌⊎◌, ◌≡◌, ◌≢◌, ◌↔◌, refl, ap, ◌∙◌, Bool, true, false, inl, inr, some, List, [], ◌∷◌, arith,
  negsuc, if◌then◌else◌, Bool-cases, ==_self, not, is_negative,
}
use macstrop.KWindowInfo.Carbon.{Carbon, Garbage}
use macstrop.KWindowInfo.Store.{
  Ptr, null, Private, World, pure, ◌>>=◌, ◌>>◌, load, store, write, bind-some, load-some,
}
use macstrop.KWindowInfo.Object.{
  ◌text_eq◌, mac_os, contents, bundle_icon, set_process_serial_number,
}
use macstrop.KWindowInfo.Handle.{construct, private_new}
use macstrop.KWindowInfo.Query.{valid}

text_eq_iff : (xs ys : List ℕ) → ((xs text_eq ys) ≡ true) ↔ (xs ≡ ys)
unfolding ◌text_eq◌
text_eq_iff [] [] = (λ _. refl, λ _. refl)
text_eq_iff [] (y ∷ ys) = (λ e. cc, λ e. cc)
text_eq_iff (x ∷ xs) [] = (λ e. cc, λ e. cc)
text_eq_iff (x ∷ xs) (y ∷ ys) =
    (λ h. ground (arith, (text_eq_iff xs ys).0), λ e. ground (arith, (text_eq_iff xs ys).1))

module _ (c : Carbon) (g : Garbage) (leaf : ℕ → List ℕ) (parent : ℕ → ℕ)
    (catalog : (r : ℕ) (old : List ℕ × ℕ) → c.fs_get_catalog_info r old ≡ (leaf r, parent r)) where
  bundle_icon-step :
      (r : ℕ)
      → bundle_icon c g r ≡ (
          if leaf (parent r) text_eq mac_os
          then (if leaf (parent (parent r)) text_eq contents then parent (parent (parent r)) else r)
          else r)
  unfolding bundle_icon
  bundle_icon-step r = simp catalog

  -- Let FSGetCatalogInfo give each file's leaf name and parent. An executable in `Contents/MacOS`
  -- of some folder has that folder, the bundle, for its icon file; every other executable has
  -- itself.
  pub bundle_icon_lem :
      (r : ℕ)
      → ((leaf (parent r) ≡ mac_os)
          × (leaf (parent (parent r)) ≡ contents)
          × (bundle_icon c g r ≡ parent (parent (parent r))))
        ⊎ ((¬ ((leaf (parent r) ≡ mac_os) × (leaf (parent (parent r)) ≡ contents)))
            × (bundle_icon c g r ≡ r))
  bundle_icon_lem r =
      let in_mac_os = text_eq_iff (leaf (parent r)) mac_os in
      let in_contents = text_eq_iff (leaf (parent (parent r))) contents in
      elim (Bool-cases (leaf (parent r) text_eq mac_os)) [
        | inr no_mac_os ↦
            inr
              (λ both. cc (no_mac_os, in_mac_os.1 both.0), rw (bundle_icon-step r, no_mac_os) refl)
        | inl m ↦ elim (Bool-cases (leaf (parent (parent r)) text_eq contents)) [
          | inr no_contents ↦ inr (
            λ both. cc (no_contents, in_contents.1 both.1),
            rw (bundle_icon-step r, m, no_contents) refl,
          )
          | inl k ↦ inl (in_mac_os.0 m, in_contents.0 k, rw (bundle_icon-step r, m, k) refl)
        ]
      ]

private_new-pid : (d psn icon_spec win : ℕ) → (private_new d psn icon_spec win).pid ≡ negsuc 0
unfolding private_new
private_new-pid d psn icon_spec win = ground arith

valid-some :
    (b : Bool) (d : Ptr) (o : Private) (w : World)
    → d ≢ null
    → w.heap d ≡ some o
    → valid b d w ≡ some (not (is_negative o.pid), w)
unfolding valid
valid-some b d o w ne e =
    bind-some (load d) (λ o. pure (not (is_negative o.pid))) w w o (load-some d o w ne e)

-- A handle on a window identifier is not valid until a serial number is set; then it is valid exactly
-- if the process identifier that GetProcessPID leaves, from -1, is not negative.
pub valid-construct :
    (c : Carbon) (w : World) (d psn icon_spec win psn' : ℕ) (b : Bool)
    → d ≢ null
    → (w₁ w₂ : World) × ((do d' ← construct d psn icon_spec win; valid b d') w ≡ some (false, w₁))
      × ((do d' ← construct d psn icon_spec win; set_process_serial_number c d' psn'; valid b d') w
          ≡ some (not (is_negative (c.get_process_pid psn' (negsuc 0))), w₂))
unfolding construct set_process_serial_number
valid-construct c w d psn icon_spec win psn' b ne =
    let o : Private = private_new d psn icon_spec win in
    let pid : o.pid ≡ negsuc 0 = private_new-pid d psn icon_spec win in
    let o' : Private = record o { psn = psn'; pid = c.get_process_pid psn' o.pid } in
    let w₁ : World = write w d (some o) in
    let w₂ : World = write w₁ d (some o') in
    let e₁ : w₁.heap d ≡ some o = ap (λ b. if b then some o else w.heap d) (==_self d) in
    let e₂ : w₂.heap d ≡ some o' = ap (λ b. if b then some o' else w₁.heap d) (==_self d) in
    (
      w₁,
      w₂,
      valid-some b d o w₁ ne e₁ ∙ ap (λ p. some (not (is_negative p), w₁)) pid,
      bind-some (set_process_serial_number c d psn') (λ _. valid b d) w₁ w₂ tt
            (bind-some (load d)
              (λ o. store d (record o { psn = psn'; pid = c.get_process_pid psn' o.pid })) w₁ w₁ o
              (load-some d o w₁ ne e₁))
          ∙ valid-some b d o' w₂ ne e₂
          ∙ ap (λ p. some (not (is_negative (c.get_process_pid psn' p)), w₂)) pid,
    )

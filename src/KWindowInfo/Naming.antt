-- ===== src/KWindowInfo/Naming.antt =====
-- `name` and what is shown of it: loading on first use, the title, the brackets of a minimized window.
use macstrop.Shared.{
  ℕ, ◌⊎◌, ◌≡◌, ◌≢◌, refl, ap, ◌∙◌, subst, true, false, inl, inr, none, some, List, [], ◌∷◌, ◌++◌,
  ◌==◌, ==_iff, Option-cases, if◌then◌else◌, Bool-cases, ==_self,
}
use macstrop.KWindowInfo.Carbon.{Carbon, Garbage}
use macstrop.KWindowInfo.Store.{
  Ptr, null, Private, World, CfCall, pure, ◌>>=◌, load, update, bind-some, load-some, update_self,
}
use macstrop.KWindowInfo.Object.{update_data}
use macstrop.KWindowInfo.Query.{
  is_minimized, minimized, ensure_loaded, read_name, name, visible_name, with_state,
  visible_name_with_state, visible_icon_name, visible_icon_name_with_state,
}
use macstrop.KWindowInfo.Counting.{Counts, Counted, Counts-update}
use macstrop.KWindowInfo.Loading.{Shows, loaded, update_data-some}

module _ (c : Carbon) (g : Garbage) (w : World) (d : Ptr) (o : Private) (ne : d ≢ null)
    (e : w.heap d ≡ some o) where
  read_name-some : read_name d w ≡ some (o.name, w)
  read_name-some = bind-some (load d) (λ o'. pure o'.name) w w o (load-some d o w ne e)

  -- `name` on an object whose data is loaded.
  name_loaded : o.loaded_data ≡ true → name c g d w ≡ some (o.name, w)
  unfolding name
  name_loaded l =
      bind-some (ensure_loaded c g d) (λ _. read_name d) w w tt
        (bind-some (load d) _ w w o (load-some d o w ne e)
          ∙ ap (λ b. (if b then pure tt else update_data c g d) w) l)
      ∙ read_name-some

-- `name` on an object whose data is not loaded.
module _ (c : Carbon) (g : Garbage) (w : World) (d : Ptr) (o : Private) (ne : d ≢ null)
    (e : w.heap d ≡ some o) (fresh : o.loaded_data ≡ false) where
  name_fresh :
      (s : List ℕ) × (cs : List CfCall) × (name c g d w
        ≡ some (s, record { heap = update w.heap d (some (loaded c g o s)); calls = cs }))
      × Shows c g o s
  unfolding name
  name_fresh =
      let (s, cs, run_ok, shows) = update_data-some c g w d o ne e in
      let w' : World = record { heap = update w.heap d (some (loaded c g o s)); calls = cs } in
      let at_d : w'.heap d ≡ some (loaded c g o s) =
        ap (λ b. if b then some (loaded c g o s) else w.heap d) (==_self d) in
      (
        s,
        cs,
        bind-some (ensure_loaded c g d) (λ _. read_name d) w w' tt
              (bind-some (load d) _ w w o (load-some d o w ne e)
                ∙ ap (λ b. (if b then pure tt else update_data c g d) w) fresh
                ∙ run_ok)
            ∙ read_name-some c g w' d (loaded c g o s) ne at_d,
        shows,
      )

module _ (c : Carbon) (g : Garbage) (w : World) (d : Ptr) (o : Private) (ne : d ≢ null)
    (e : w.heap d ≡ some o) where
  -- Where `name` leaves the world: the heap differs at `d` alone, and there in the loaded data.
  name_outcome :
      (s : List ℕ) × (w' : World) × (o' : Private) × (name c g d w ≡ some (s, w'))
      × ((q : Ptr) → w'.heap q ≡ update w.heap d (some o') q)
      × ((o'.loaded_data ≡ true) × (o'.name ≡ s) × (o'.ref ≡ o.ref) × (o'.ax_win ≡ o.ax_win))
      × (((o.loaded_data ≡ true) × (s ≡ o.name) × (w' ≡ w))
          ⊎ ((o.loaded_data ≡ false) × Shows c g o s))
  name_outcome = elim (Bool-cases o.loaded_data) [
    | inl l ↦ (
      o.name,
      w,
      o,
      name_loaded c g w d o ne e l,
      (λ q. update_self w.heap d (some o) q e),
      (l, refl, refl, refl),
      inl (l, refl, refl),
    )
    | inr f ↦
        let (s, cs, run_ok, shows) = name_fresh c g w d o ne e f in
        (
          s,
          record { heap = update w.heap d (some (loaded c g o s)); calls = cs },
          loaded c g o s,
          run_ok,
          (λ q. refl),
          (refl, refl, refl, refl),
          inr (f, shows),
        )
  ]

  at_outcome :
      (w' : World) (o' : Private)
      → ((q : Ptr) → w'.heap q ≡ update w.heap d (some o') q)
      → w'.heap d ≡ some o'
  at_outcome w' o' heaps = heaps d ∙ ap (λ b. if b then some o' else w.heap d) (==_self d)

  -- `name` on a live object returns a name without fault, and a call right after it returns the
  -- same name and changes nothing, whatever the system answers then. If the data is not loaded the
  -- name is the title that the accessibility element gives, or else the process name; if it is
  -- loaded the name is the stored one, and the call changes nothing.
  pub name_once :
      (s : List ℕ) × (w' : World) × (name c g d w ≡ some (s, w'))
      × ((c' : Carbon) (g' : Garbage) → name c' g' d w' ≡ some (s, w'))
      × (((o.loaded_data ≡ true) × (s ≡ o.name) × (w' ≡ w))
          ⊎ ((o.loaded_data ≡ false) × Shows c g o s))
  name_once =
      let (s, w', o', run_ok, heaps, facts, cases) = name_outcome in
      (
        s,
        w',
        run_ok,
        (λ c' g'.
            name_loaded c' g' w' d o' ne (at_outcome w' o' heaps) facts.0
            ∙ ap (λ t. some (t, w')) facts.1),
        cases,
      )

  -- `name` on a live object runs without fault, and where each count is the number of handles on
  -- the object and no other object exists, so it is after the call.
  pub name-Counts :
      (n : Ptr → ℕ)
      → Counts w n
      → (s : List ℕ) × (w' : World) × (name c g d w ≡ some (s, w')) × Counts w' n
  name-Counts n v =
      let (s, w', o', run_ok, heaps, facts, _) = name_outcome in
      let here : Counted (some o) (n d) = subst (λ h. Counted h (n d)) e (v.counted d ne) in
      (
        s,
        w',
        run_ok,
        Counts-update w w' d (some o') n n v ne heaps (λ q _. refl) (facts.2 ∙ here.0, here.1),
      )

  is_minimized-some :
      (w' : World) (o' : Private)
      → w'.heap d ≡ some o'
      → o'.ax_win ≡ o.ax_win
      → is_minimized c d w' ≡ some (minimized c o.ax_win, w')
  unfolding is_minimized
  is_minimized-some w' o' e' same =
      bind-some (load d) (λ o. pure (minimized c o.ax_win)) w' w' o' (load-some d o' w' ne e')
      ∙ ap (λ a. some (minimized c a, w')) same

  -- What `visibleNameWithState` and `visibleIconNameWithState` return together.
  with_state_cases :
      (s : List ℕ)
      → ((o.ax_win ≢ null)
          × (c.copy_minimized o.ax_win ≡ some true)
          × (with_state (minimized c o.ax_win) s ≡ b'(' ∷ (s ++ b')' ∷ [])))
        ⊎ (((o.ax_win ≡ null)
              ⊎ ((c.copy_minimized o.ax_win ≡ none) ⊎ (c.copy_minimized o.ax_win ≡ some false)))
            × (with_state (minimized c o.ax_win) s ≡ s))
  unfolding minimized
  with_state_cases s = elim (Bool-cases (o.ax_win == null)) [
    | inl no_element ↦ inr (inl ((==_iff o.ax_win null).0 no_element), rw (no_element) refl)
    | inr element ↦
        let there : o.ax_win ≢ null = λ z. cc (element, (==_iff o.ax_win null).1 z) in
        elim (Option-cases (c.copy_minimized o.ax_win)) [
          | inl failed ↦ inr (inr (inl failed), rw (element, failed) refl)
          | inr (value, is) ↦ elim (Bool-cases value) [
            | inl yes_minimized ↦
                inl (there, is ∙ ap some yes_minimized, rw (element, is, yes_minimized) refl)
            | inr not_minimized ↦
                inr (inr (inr (is ∙ ap some not_minimized)), rw (element, is, not_minimized) refl)
          ]
        ]
  ]

  -- The calls that add brackets, with the state of the object before them.
  shown_names :
      (s : List ℕ) × (w' : World) × (name c g d w ≡ some (s, w'))
      × (visible_name_with_state c g d w ≡ some (with_state (minimized c o.ax_win) s, w'))
  unfolding visible_name visible_name_with_state
  shown_names =
      let (s, w', o', run_ok, heaps, facts, _) = name_outcome in
      (
        s,
        w',
        run_ok,
        bind-some (name c g d) (λ t. is_minimized c d >>= λ m. pure (with_state m t)) w w' s run_ok
            ∙ ap (λ r. elim r [ none ↦ none | some (m, v) ↦ some (with_state m s, v) ])
                (is_minimized-some w' o' (at_outcome w' o' heaps) facts.3),
      )

  -- On a live object `name`, `visibleName` and `visibleIconName` return one name and leave the same
  -- world. `visibleNameWithState` and `visibleIconNameWithState` leave that world too. They return
  -- that name between an opening and a closing bracket if there is an accessibility element and the
  -- system answers for it that the window is minimized; they return the name alone if there is no
  -- element, or the system gives an error for it, or answers that the window is not minimized.
  pub visible_names :
      (s : List ℕ) × (w' : World) × (name c g d w ≡ some (s, w'))
      × (visible_name c g d w ≡ some (s, w'))
      × (visible_icon_name c g d w ≡ some (s, w'))
      × (((o.ax_win ≢ null)
            × (c.copy_minimized o.ax_win ≡ some true)
            × (visible_name_with_state c g d w ≡ some (b'(' ∷ (s ++ b')' ∷ []), w'))
            × (visible_icon_name_with_state c g d w ≡ some (b'(' ∷ (s ++ b')' ∷ []), w')))
          ⊎ (((o.ax_win ≡ null)
                ⊎ ((c.copy_minimized o.ax_win ≡ none) ⊎ (c.copy_minimized o.ax_win ≡ some false)))
              × (visible_name_with_state c g d w ≡ some (s, w'))
              × (visible_icon_name_with_state c g d w ≡ some (s, w'))))
  unfolding visible_name visible_icon_name visible_name_with_state visible_icon_name_with_state
  visible_names =
      let (s, w', run_ok, shown) = shown_names in
      (
        s,
        w',
        run_ok,
        run_ok,
        run_ok,
        elim (with_state_cases s) [
          | inl (there, yes_minimized, text) ↦
              let bracketed = shown ∙ ap (λ t. some (t, w')) text in
              inl (there, yes_minimized, bracketed, bracketed)
          | inr (why, text) ↦
              let plain = shown ∙ ap (λ t. some (t, w')) text in inr (why, plain, plain)
        ],
      )

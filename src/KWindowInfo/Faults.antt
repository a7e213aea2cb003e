-- ===== src/KWindowInfo/Faults.antt =====
-- When an accessor of `KWindowInfo` follows a null or dangling pointer.
use mathlib.Core.Option.{some-ne-none}
use macstrop.Shared.{
  ◌⊎◌, ◌≡◌, ◌≢◌, ◌↔◌, refl, sym, ◌∙◌, Bool, not, inl, inr, Option, none, some, ◌==◌, Bool-cases,
  Option-cases, ==_iff, is_negative,
}
use macstrop.KWindowInfo.Carbon.{Carbon, Garbage}
use macstrop.KWindowInfo.Store.{
  Ptr, null, Private, World, Cmd, ◌>>=◌, pure, load, bind-some, load-some,
}
use macstrop.KWindowInfo.Query.{
  valid, win, is_minimized, minimized, ensure_loaded, read_name, name, visible_name,
  visible_icon_name, visible_name_with_state, visible_icon_name_with_state,
}

-- No object at the address of the handle.
abbrev pub Dead : Ptr → World → Type 0
Dead d w = (d ≡ null) ⊎ (w.heap d ≡ none)

Dead-cases :
    (d : Ptr) (w : World)
    → ((load d w ≡ none) × Dead d w) ⊎ ((o : Private) × (d ≢ null) × (w.heap d ≡ some o))
Dead-cases d w = elim (Bool-cases (d == null)) [
  | inl z ↦ inl (rw z refl, inl ((==_iff d null).0 z))
  | inr nz ↦ elim (Option-cases (w.heap d)) [
    | inl gone ↦ inl (rw (nz, gone) refl, inr gone)
    | inr (o, e) ↦ inr (o, (λ z. cc (nz, (==_iff d null).1 z)), e)
  ]
]

bind-none : {A B : Type 0} (m : Cmd A) (f : A → Cmd B) (w : World) → m w ≡ none → (m >>= f) w ≡ none
bind-none m f w e = rw (e, ◌>>=◌) refl

both : {P Q : Type 0} → P → Q → P ↔ Q
both p q = (λ _. q, λ _. p)

live-faults :
    {A : Type 0} (r : Option A) (a : A) (d : Ptr) (o : Private) (w : World)
    → d ≢ null
    → w.heap d ≡ some o
    → r ≡ some a
    → (r ≡ none) ↔ Dead d w
live-faults r a d o w ne e f = (
  λ g. absurd (some-ne-none _ (sym f ∙ g)),
  λ dead. elim dead [ inl z ↦ absurd (ne z) | inr gone ↦ absurd (some-ne-none _ (sym e ∙ gone)) ],
)

module _ (c : Carbon) (g : Garbage) (d : Ptr) (w : World) (b : Bool) where
  -- The operations that only follow `d`, or follow it first.
  dead_names :
      load d w ≡ none
      → (name c g d w ≡ none)
        × (visible_name c g d w ≡ none)
        × (visible_icon_name c g d w ≡ none)
        × (visible_name_with_state c g d w ≡ none)
        × (visible_icon_name_with_state c g d w ≡ none)
  unfolding name visible_name visible_icon_name visible_name_with_state visible_icon_name_with_state
  dead_names e =
      let nameless : name c g d w ≡ none =
        bind-none (ensure_loaded c g d) (λ _. read_name d) w (bind-none (load d) _ w e) in
      (
        nameless,
        nameless,
        nameless,
        bind-none (name c g d) _ w nameless,
        bind-none (name c g d) _ w nameless,
      )

  -- Each of `valid`, `win` and `isMinimized` follows a null or dangling pointer exactly if the handle
  -- is the null one of `KWindowInfo()`, or there is no object at its address. On such a handle `name`,
  -- `visibleName`, `visibleIconName`, `visibleNameWithState` and `visibleIconNameWithState` follow
  -- it as well.
  pub accessors_fault :
      ((valid b d w ≡ none) ↔ Dead d w)
      × ((win d w ≡ none) ↔ Dead d w)
      × ((is_minimized c d w ≡ none) ↔ Dead d w)
      × ((¬ Dead d w)
          ⊎ ((name c g d w ≡ none)
              × (visible_name c g d w ≡ none)
              × (visible_icon_name c g d w ≡ none)
              × (visible_name_with_state c g d w ≡ none)
              × (visible_icon_name_with_state c g d w ≡ none)))
  unfolding valid win is_minimized
  accessors_fault = elim (Dead-cases d w) [
    | inl (e, dead) ↦ (
      both (bind-none (load d) _ w e) dead,
      both (bind-none (load d) _ w e) dead,
      both (bind-none (load d) _ w e) dead,
      inr (dead_names e),
    )
    | inr (o, ne, e) ↦
        let at : load d w ≡ some (o, w) = load-some d o w ne e in
        (
          live-faults _ _ d o w ne e
              (bind-some (load d) (λ o. pure (not (is_negative o.pid))) w w o at),
          live-faults _ _ d o w ne e (bind-some (load d) (λ o. pure o.win) w w o at),
          live-faults _ _ d o w ne e
              (bind-some (load d) (λ o. pure (minimized c o.ax_win)) w w o at),
          inl (λ dead. elim dead [ inl z ↦ ne z | inr gone ↦ some-ne-none _ (sym e ∙ gone) ]),
        )
  ]

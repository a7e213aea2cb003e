-- ===== src/KWindowInfo/Visits.antt =====
-- Methods called through a handle change no reference count.
use macstrop.Shared.{ℕ, ◌≡◌, ◌≢◌, refl, ap, ◌∙◌, some, none, ◌∷◌, pos, get_elem?}
use macstrop.KWindowInfo.Carbon.{Carbon, Garbage}
use macstrop.KWindowInfo.Store.{
  Ptr, null, Private, World, Cmd, retain, update, load, store, bind-some, load-some,
}
use macstrop.KWindowInfo.Object.{set_ax_element, set_process_serial_number}
use macstrop.KWindowInfo.Program.{
  Program, ask_name, set_element, set_serial, step, count, handle, visit,
}
use macstrop.KWindowInfo.Counting.{Counts, Counts-update, Counted-some}
use macstrop.KWindowInfo.Owners.{IsCounted, Steps, count_pos, handle_eq}
use macstrop.KWindowInfo.Element.{set_ax_element-some}
use macstrop.KWindowInfo.Naming.{name-Counts}
use macstrop.KWindowInfo.Query.{name}

visit-some :
    {A : Type 0} (s : Program) (i : ℕ) (d : Ptr) (m : Ptr → Cmd A) (a : A) (w : World)
    → handle s i ≡ some d
    → m d s.world ≡ some (a, w)
    → visit s i m ≡ some (record { world = w; handles = s.handles })
visit-some s i d m a w h e =
    ap
      (λ found. elim found [
        | none ↦ none
        | some d ↦ elim (m d s.world) [
          | none ↦ none
          | some (_, w) ↦ some (record { world = w; handles = s.handles })
        ]
      ])
      h
    ∙ ap
        (λ result. elim result [
          | none ↦ none
          | some (_, w) ↦ some (record { world = w; handles = s.handles })
        ])
        e

module _ (s : Program) (v : IsCounted s) (i : ℕ) (d : Ptr)
    (e : get_elem? s.handles i ≡ some (some d)) (ne : d ≢ null) where
  owned : (o : Private) × (s.world.heap d ≡ some o) × (o.ref ≡ pos (count d s.handles))
  owned =
      Counted-some (s.world.heap d) (count d s.handles) (v.counted d ne) (count_pos d s.handles i e)

  pub ask_name-IsCounted : (c : Carbon) (g : Garbage) → Steps (ask_name c g i) s s.handles
  unfolding step
  ask_name-IsCounted c g =
      let (o, at, r) = owned in
      let (title, w, named, counts) =
        name-Counts c g s.world d o ne at (λ p. count p s.handles) v in
      (_, visit-some s i d (name c g) title w (handle_eq s i d e) named, refl, counts)

  -- An object written back with its reference count.
  kept :
      (w : World) (o o' : Private)
      → o.ref ≡ pos (count d s.handles)
      → o'.ref ≡ o.ref
      → ((q : Ptr) → w.heap q ≡ update s.world.heap d (some o') q)
      → Counts w (λ p. count p s.handles)
  kept w o o' r same heaps =
      Counts-update s.world w d (some o') _ _ v ne heaps (λ q _. refl)
        (same ∙ r, count_pos d s.handles i e)

  pub set_element-IsCounted : (a : Ptr) → a ≢ null → Steps (set_element i a) s s.handles
  unfolding step
  set_element-IsCounted a na =
      let (o, at, r) = owned in
      let o' : Private = record o { ax_win = a } in
      let w : World = record {
        heap = update s.world.heap d (some o');
        calls = retain a ∷ s.world.calls;
      } in
      (
        _,
        visit-some s i d (λ d. set_ax_element d a) tt w (handle_eq s i d e)
            (set_ax_element-some s.world d a o ne at na),
        refl,
        kept w o o' r refl (λ q. refl),
      )

  pub set_serial-IsCounted : (c : Carbon) (psn : ℕ) → Steps (set_serial c i psn) s s.handles
  unfolding step set_process_serial_number
  set_serial-IsCounted c psn =
      let (o, at, r) = owned in
      let o' : Private = record o { psn = psn; pid = c.get_process_pid psn o.pid } in
      let w : World = record s.world { heap = update s.world.heap d (some o') } in
      (
        _,
        visit-some s i d (λ d. set_process_serial_number c d psn) tt w (handle_eq s i d e)
            (bind-some (load d)
              (λ o. store d (record o { psn = psn; pid = c.get_process_pid psn o.pid })) s.world
              s.world o (load-some d o s.world ne at)),
        refl,
        kept w o o' r refl (λ q. refl),
      )

-- ===== src/KWindowInfo/Loading.antt =====
-- `updateData`: what an object holds after it, and which name it is to show.
use macstrop.Shared.{
  ℕ, ◌≡◌, ◌≢◌, refl, ◌∙◌, true, inl, inr, Option, none, some, List, ◌∷◌, ◌==◌, Bool-cases,
  Option-cases, ==_iff,
}
use macstrop.KWindowInfo.Carbon.{Carbon, Garbage}
use macstrop.KWindowInfo.Store.{
  Ptr, null, Private, World, CfCall, copied, load, store, update, bind-some, load-some,
}
use macstrop.KWindowInfo.Object.{
  update_data, window_title, title_or, pascal_text, pascal_length, bundle_icon,
}

-- The process name from the Process Manager, as Latin-1.
abbrev pub process_name : Carbon → Garbage → Private → List ℕ
process_name c g o =
    let buffer = (c.get_process_information o.psn (g.process_name, g.fs_ref)).0 in
    c.from_latin1 (pascal_text buffer) (pascal_length buffer)

-- The name that an object is to show: the title of its accessibility element if it has one and the
-- element gives it, else the process name.
pub data Shows (c : Carbon) (g : Garbage) (o : Private) (s : List ℕ) : Type 0 where
  no_element : o.ax_win ≡ null → s ≡ process_name c g o → Shows c g o s
  no_title : o.ax_win ≢ null → c.copy_title o.ax_win ≡ none → s ≡ process_name c g o → Shows c g o s
  titled :
      (title : Ptr)
      → o.ax_win ≢ null
      → c.copy_title o.ax_win ≡ some title
      → s
        ≡ c.from_utf8
            (c.get_c_string title (c.get_process_information o.psn (g.process_name, g.fs_ref)).0)
      → Shows c g o s

window_title_cases :
    (c : Carbon) (g : Garbage) (o : Private) (w : World)
    → (title : Option (List ℕ)) × (cs : List CfCall) × (window_title c o.ax_win
          (c.get_process_information o.psn (g.process_name, g.fs_ref)).0
          w
        ≡ some (title, record w { calls = cs }))
      × Shows c g o (title_or (process_name c g o) title)
unfolding window_title
window_title_cases c g o w = elim (Bool-cases (o.ax_win == null)) [
  | inl z ↦ (none, w.calls, rw z refl, no_element ((==_iff o.ax_win null).0 z) refl)
  | inr nz ↦
      let ne : o.ax_win ≢ null = λ e. cc (nz, (==_iff o.ax_win null).1 e) in
      elim (Option-cases (c.copy_title o.ax_win)) [
        | inl missing ↦ (none, w.calls, rw (nz, missing) refl, no_title ne missing refl)
        | inr (title, found) ↦
            (some _, copied title ∷ w.calls, rw (nz, found) refl, titled title ne found refl)
      ]
]

-- The object after `updateData`, showing the name `s`.
abbrev pub loaded : Carbon → Garbage → Private → List ℕ → Private
loaded c g o s = record o {
  name = s;
  icon_spec = bundle_icon c g (c.get_process_information o.psn (g.process_name, g.fs_ref)).1;
  loaded_data = true;
}

module _ (c : Carbon) (g : Garbage) (w : World) (d : Ptr) (o : Private) (ne : d ≢ null)
    (e : w.heap d ≡ some o) where
  pub update_data-some :
      (s : List ℕ) × (cs : List CfCall) × (update_data c g d w
        ≡ some (tt, record { heap = update w.heap d (some (loaded c g o s)); calls = cs }))
      × Shows c g o s
  unfolding update_data
  update_data-some =
      let (title, cs, run_ok, shows) = window_title_cases c g o w in
      (
        title_or (process_name c g o) title,
        cs,
        bind-some (load d) _ w w o (load-some d o w ne e)
            ∙ bind-some
                (window_title c o.ax_win
                  (c.get_process_information o.psn (g.process_name, g.fs_ref)).0)
                (λ x. store d (loaded c g o (title_or (process_name c g o) x))) w _ title run_ok,
        shows,
      )

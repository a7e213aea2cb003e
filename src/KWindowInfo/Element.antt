-- ===== src/KWindowInfo/Element.antt =====
-- `setAxElement` over the life of an object: what is retained, and what is released at the end.
use macstrop.Shared.{
  ℕ, zero, ◌≡◌, ◌≢◌, refl, ap, ◌∙◌, none, some, List, [], ◌∷◌, arith, pos, if◌then◌else◌, ==_self,
  ==_of_ne,
}
use macstrop.KWindowInfo.Store.{
  Ptr, null, Private, World, CfCall, retain, release, Cmd, pure, ◌>>=◌, ◌>>◌, update, write, load,
  bind-some, load-some,
}
use macstrop.KWindowInfo.Object.{set_ax_element}
use macstrop.KWindowInfo.Handle.{construct, destruct, private_new}
use macstrop.KWindowInfo.RefCount.{release-some}

pub set_ax_element-some :
    (w : World) (d a : Ptr) (o : Private)
    → d ≢ null
    → w.heap d ≡ some o
    → a ≢ null
    → set_ax_element d a w
      ≡ some (
        tt,
        record {
          heap = update w.heap d (some (record o { ax_win = a }));
          calls = retain a ∷ w.calls;
        },
      )
unfolding set_ax_element
set_ax_element-some w d a o ne e na =
    bind-some (load d) _ w w o (load-some d o w ne e) ∙ rw (==_of_ne a null na) refl

-- `setAxElement` called with each element of a list in turn.
pub set_each : Ptr → List Ptr → Cmd (Unit {0})
set_each d [] = pure tt
set_each d (a ∷ es) = do set_ax_element d a; set_each d es

abbrev AllSome : List Ptr → Type 0
AllSome [] = Unit {0}
AllSome (a ∷ es) = (a ≢ null) × AllSome es

abbrev pub last_or : Ptr → List Ptr → Ptr
last_or a [] = a
last_or a (b ∷ bs) = last_or b bs

-- The retains of a list of elements, the newest first, before the calls `cs`.
abbrev pub retains : List Ptr → List CfCall → List CfCall
retains [] cs = cs
retains (a ∷ es) cs = retains es (retain a ∷ cs)

set_each_lem :
    (es : List Ptr) (w : World) (d : Ptr) (o : Private)
    → d ≢ null
    → w.heap d ≡ some o
    → AllSome es
    → (w' : World) × (set_each d es w ≡ some (tt, w'))
      × (w'.heap d ≡ some (record o { ax_win = last_or o.ax_win es }))
      × (w'.calls ≡ retains es w.calls)
unfolding set_each
set_each_lem [] w d o ne e all = (w, refl, e, refl)
set_each_lem (a ∷ es) w d o ne e all =
    let o' : Private = record o { ax_win = a } in
    let w' : World = record { heap = update w.heap d (some o'); calls = retain a ∷ w.calls } in
    let (w'', f, g, h) =
      set_each_lem es w' d o' ne (ap (λ b. if b then some o' else w.heap d) (==_self d)) all.1 in
    (
      w'',
      bind-some (set_ax_element d a) _ w w' tt (set_ax_element-some w d a o ne e all.0) ∙ f,
      g,
      h,
    )

last_or-ne : (a : Ptr) (es : List Ptr) → AllSome (a ∷ es) → last_or a es ≢ null
last_or-ne a [] all = all.0
last_or-ne a (b ∷ es) all = last_or-ne b es all.1

private_new-ref : (d psn icon_spec win : ℕ) → (private_new d psn icon_spec win).ref ≡ pos 1
unfolding private_new
private_new-ref d psn icon_spec win = ground arith

-- Construct an object at a fresh handle, call `setAxElement` with each element of a list that is
-- not empty and has no null element, and destroy the handle: this runs without fault, the object is
-- freed, each element is retained, and only the last one is released.
pub construct-set_each-destruct :
    (w : World) (d psn icon_spec win a : ℕ) (es : List Ptr)
    → d ≢ null
    → AllSome (a ∷ es)
    → (w' : World) × ((do d' ← construct d psn icon_spec win; set_each d' (a ∷ es); destruct d') w
        ≡ some (tt, w'))
      × (w'.heap d ≡ none)
      × (w'.calls ≡ release (last_or a es) ∷ retains (a ∷ es) w.calls)
unfolding construct destruct
construct-set_each-destruct w d psn icon_spec win a es ne all =
    let o : Private = private_new d psn icon_spec win in
    let w₀ : World = write w d (some o) in
    let (w', set_ok, at_d, calls) =
      set_each_lem (a ∷ es) w₀ d o ne (ap (λ b. if b then some o else w.heap d) (==_self d)) all in
    let last : Private = record o { ax_win = last_or a es } in
    let (w'', gone, heaps, calls') =
      release-some w' d last zero ne at_d (private_new-ref d psn icon_spec win) in
    (
      w'',
      bind-some (set_each d (a ∷ es)) _ w₀ w' tt set_ok ∙ gone,
      heaps d ∙ ap (λ b. if b then none else w'.heap d) (==_self d),
      calls'
          ∙ ap (λ b. if b then w'.calls else release (last_or a es) ∷ w'.calls)
              (==_of_ne (last_or a es) null (last_or-ne a es all))
          ∙ ap (◌∷◌ (release (last_or a es))) calls,
    )

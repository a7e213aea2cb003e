-- ===== src/KWindowInfo/Tests/Handles.antt =====
-- A program that makes a window's handle, copies it, sets the serial number, and destroys both.
use mathlib.Core.Option.{some-injective}
use macstrop.Shared.{
  ◌≢◌, ℕ, ◌<◌, ◌≡◌, ◌↔◌, ◌⊎◌, refl, sym, ◌∙◌, subst, increment, decrement, none, some, List, [],
  ◌∷◌, arith, int_max,
}
use macstrop.KWindowInfo.Store.{null, Ptr, World, ◌>>=◌, ◌>>◌, release}
use macstrop.KWindowInfo.Object.{set_process_serial_number}
use macstrop.KWindowInfo.Handle.{
  construct, construct_copy, destruct, acquire, release_handle, private_new,
}
use macstrop.KWindowInfo.Program.{
  count, set_serial, set_serial_ok, Program, Call, make, copy, destroy, step, run, start, Allowed,
  make_ok, copy_ok, destroy_ok,
}
use macstrop.KWindowInfo.Owners.{run_owners, IsCounted}
use macstrop.KWindowInfo.Invariant.{step-IsCounted}
use macstrop.KWindowInfo.History.{run-owners, AllowedRun, run-IsCounted, run_no_leak}
use macstrop.KWindowInfo.Lifetime.{destruct-frees_last, construct_copy-destruct}
use macstrop.KWindowInfo.Element.{construct-set_each-destruct, set_each, last_or, retains}
use macstrop.KWindowInfo.Tests.System.{
  carbon, window, one_window, one_handle, one_handle-IsCounted, three_ne_null, nine_ne_null,
}

abbrev history : List Call
history = make 3 0 0 5 ∷ copy 0 ∷ set_serial carbon 1 7 ∷ destroy 0 ∷ destroy 1 ∷ []

Allowed-cons :
    (c : Call) (cs : List Call) (s t : Program)
    → Allowed s c
    → step c s ≡ some t
    → AllowedRun cs t
    → AllowedRun (c ∷ cs) s
Allowed-cons c cs s t a e rest =
    (a, λ u f. subst (AllowedRun cs) (some-injective _ _ (sym e ∙ f)) rest)

room : 1 < int_max
room = omega arith

history-AllowedRun : AllowedRun history start
unfolding step construct construct_copy destruct acquire release_handle private_new
    set_process_serial_number increment decrement
history-AllowedRun =
    Allowed-cons (make 3 0 0 5) (copy 0 ∷ set_serial carbon 1 7 ∷ destroy 0 ∷ destroy 1 ∷ []) start
      _ (make_ok three_ne_null refl) refl
      (Allowed-cons (copy 0) (set_serial carbon 1 7 ∷ destroy 0 ∷ destroy 1 ∷ []) _ _
        (copy_ok {d = 3} refl room) refl
        (Allowed-cons (set_serial carbon 1 7) (destroy 0 ∷ destroy 1 ∷ []) _ _
          (set_serial_ok {d = 3} refl three_ne_null) refl
          (Allowed-cons (destroy 0) (destroy 1 ∷ []) _ _ (destroy_ok refl) refl
            (Allowed-cons (destroy 1) [] _ _ (destroy_ok refl) refl tt))))

unfoldable ended : Program
unfolding run step construct construct_copy destruct acquire release_handle private_new
    set_process_serial_number increment decrement
ended = elim (run history start) [ none ↦ start | some t ↦ t ]

run-IsCounted_example : (t : Program) × (run history start ≡ some t) × IsCounted t
run-IsCounted_example = run-IsCounted history history-AllowedRun

run-owners_example :
    (t : Program) × (run history start ≡ some t)
    × (t.handles ≡ run_owners history [])
    × ((p : Ptr) → p ≢ null → (t.world.heap p ≡ none) ↔ (count p (run_owners history []) ≡ 0))
run-owners_example = run-owners history history-AllowedRun

run_no_leak_example : ended.world.heap 3 ≡ none
unfolding ended run
run_no_leak_example = run_no_leak history ended history-AllowedRun refl (refl, (refl, tt)) 3

step-IsCounted_example : (t : Program) × (step (destroy 0) one_handle ≡ some t) × IsCounted t
step-IsCounted_example =
    step-IsCounted one_handle (destroy 0) one_handle-IsCounted (destroy_ok refl)

destruct-frees_last_example :
    (w : World) × (destruct 3 one_window ≡ some (tt, w))
    × ((w.heap 3 ≡ none) ↔ (◌≡◌ {A = ℕ} 0 0))
    × (w.calls ≡ release 9 ∷ [])
    × ((q : Ptr) → (w.heap q ≡ one_window.heap q) ⊎ (q ≡ 3))
destruct-frees_last_example = destruct-frees_last one_window 3 window 0 three_ne_null refl refl

construct_copy-destruct_example :
    (w w' : World) × (construct_copy 3 one_window ≡ some (3, w))
    × (destruct 3 w ≡ some (tt, w'))
    × ((q : Ptr) → w'.heap q ≡ one_window.heap q)
    × (w'.calls ≡ one_window.calls)
construct_copy-destruct_example =
    construct_copy-destruct one_window 3 window 0 three_ne_null refl refl (omega arith)

construct-set_each-destruct_example :
    (w : World) × ((do d ← construct 4 0 0 5; set_each d (9 ∷ 8 ∷ []); destruct d) one_window
      ≡ some (tt, w))
    × (w.heap 4 ≡ none)
    × (w.calls ≡ release (last_or 9 (8 ∷ [])) ∷ retains (9 ∷ 8 ∷ []) one_window.calls)
construct-set_each-destruct_example =
    construct-set_each-destruct one_window 4 0 0 5 9 (8 ∷ []) (λ e. absurd (omega arith))
      (nine_ne_null, (λ e. absurd (omega arith), tt))

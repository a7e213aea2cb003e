-- ===== src/SvnError/Assertions.antt =====
-- The three assertion macros of svn_error.h, and the code behind an assertion.
use Prim.Native.String.{String}
use macstrop.Shared.{◌≡◌, ◌≢◌, ◌↔◌, refl, Bool, true, false, Option, none, some, [], ◌∷◌}
use macstrop.SvnError.Flow.{
  Chain, svn_no_error, Runtime, Flow, leaves, goes_on, aborts, svn_err, svn_err_assert,
  svn_err_assert_e, svn_err_assert_no_return,
}

svn_err-handler :
    (tracing : Bool) (rt : Runtime) (m : Option Chain)
    → m ≢ some svn_no_error
    → elim m [ none ↦ aborts | some raised ↦ svn_err tracing rt raised ] ≢ goes_on
unfolding svn_err
svn_err-handler tracing rt none h e = cc
svn_err-handler tracing rt (some []) h e = h refl
svn_err-handler tracing rt (some (l ∷ ls)) h e = cc

leaves-handler :
    (k : Chain → Chain) (m : Option Chain)
    → elim m [ none ↦ aborts | some raised ↦ leaves (k raised) ] ≢ goes_on
leaves-handler k none e = cc
leaves-handler k (some raised) e = cc

aborts-handler :
    (m : Option Chain)
    → ◌≢◌ {A = Flow Chain} (elim m [ none ↦ aborts | some raised ↦ aborts ]) goes_on
aborts-handler none e = cc
aborts-handler (some raised) e = cc

-- Where the malfunction handler never returns SVN_NO_ERROR, the function goes on behind an assertion
-- exactly if its expression is true, whichever of the three macros states it.
pub svn_err_assert_lem :
    (tracing : Bool) (rt : Runtime) (expr : Bool) (text : String) (err : Chain)
    → ((r : Bool) (e : Option String) → rt.malfunction r e ≢ some svn_no_error)
    → ((svn_err_assert tracing rt expr text ≡ goes_on) ↔ (expr ≡ true))
      × ((svn_err_assert_e rt expr text err ≡ goes_on) ↔ (expr ≡ true))
      × ((svn_err_assert_no_return rt expr text ≡ goes_on) ↔ (expr ≡ true))
unfolding svn_err_assert svn_err_assert_e svn_err_assert_no_return
svn_err_assert_lem tracing rt true text err h =
    ((λ _. refl, λ _. refl), (λ _. refl, λ _. refl), (λ _. refl, λ _. refl))
svn_err_assert_lem tracing rt false text err h = (
  (λ e. absurd (svn_err-handler tracing rt _ (h true (some text)) e), λ e. cc),
  (λ e. absurd (leaves-handler (λ raised. rt.compose_create raised err) _ e), λ e. cc),
  (λ e. absurd (aborts-handler (rt.malfunction false (some text)) e), λ e. cc),
)

-- ===== src/SvnError/Statements.antt =====
-- The statement macros that evaluate an expression and look at its error.
use Prim.Native.String.{String}
use macstrop.Shared.{ℕ, ◌≡◌, ◌↔◌, refl, Bool, [], ◌∷◌}
use macstrop.SvnError.Flow.{
  Chain, svn_no_error, Runtime, goes_on, svn_err, svn_err_w, svn_cmd_err, svn_int_err,
}

-- Each of SVN_ERR, SVN_ERR_W, SVN_CMD_ERR and SVN_INT_ERR lets the function go on exactly if its
-- expression gives SVN_NO_ERROR, and SVN_INT_ERR makes no call exactly then.
pub svn_err_goes_on :
    (tracing : Bool) (rt : Runtime) (wrap_msg : String) (cmd_err : ℕ) (err : Chain)
    → ((svn_err tracing rt err ≡ goes_on) ↔ (err ≡ svn_no_error))
      × ((svn_err_w rt err wrap_msg ≡ goes_on) ↔ (err ≡ svn_no_error))
      × ((svn_cmd_err rt cmd_err err ≡ goes_on) ↔ (err ≡ svn_no_error))
      × (((svn_int_err rt err).1 ≡ goes_on) ↔ (err ≡ svn_no_error))
      × (((svn_int_err rt err).0 ≡ []) ↔ (err ≡ svn_no_error))
unfolding svn_err svn_err_w svn_cmd_err svn_int_err
svn_err_goes_on tracing rt wrap_msg cmd_err [] = (
  (λ _. refl, λ _. refl),
  (λ _. refl, λ _. refl),
  (λ _. refl, λ _. refl),
  (λ _. refl, λ _. refl),
  (λ _. refl, λ _. refl),
)
svn_err_goes_on tracing rt wrap_msg cmd_err (l ∷ ls) = (
  (λ e. cc, λ e. cc),
  (λ e. cc, λ e. cc),
  (λ e. cc, λ e. cc),
  (λ e. cc, λ e. cc),
  (λ e. cc, λ e. cc),
)

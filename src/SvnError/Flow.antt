-- ===== src/SvnError/Flow.antt =====
-- The statement macros of svn_error.h, and one of svn_ra_svn.h: how an error leaves the function
-- that meets it. Not here: what the assertions become under the static analyzer of clang.
use Prim.Native.String.{String}
use macstrop.Shared.{ℕ, Bool, true, false, Option, none, some, List, [], ◌∷◌, if◌then◌else◌}

-- `svn_error_t`, less its pool. An error pointer is its chain, outermost first; SVN_NO_ERROR is [].
pub record ErrorLink : Type 0 where
  pub apr_err : ℕ
  pub message : Option String
  pub file : Option String
  pub line : ℕ

abbrev pub Chain : Type 0
Chain = List ErrorLink

abbrev pub svn_no_error : Chain
svn_no_error = []

-- The functions of libsvn_subr that the macros call, and EXIT_FAILURE. `malfunction` is
-- `svn_error__malfunction` with its arguments `can_return` and `expr`; `none` means that the handler
-- did not return.
pub record Runtime : Type 0 where
  pub error_trace : Chain → Chain
  pub create : ℕ → Chain → Option String → Chain
  pub quick_wrap : Chain → String → Chain
  pub compose_create : Chain → Chain → Chain
  pub malfunction : Bool → Option String → Option Chain
  pub exit_failure : ℕ

-- What a statement does: leave the function with a value, go on, or end the program.
pub data Flow (R : Type 0) : Type 0 where
  leaves : R → Flow R
  goes_on : Flow R
  aborts : Flow R

-- `svn_error_trace`, with and without SVN_ERR__TRACING.
unfoldable pub svn_error_trace : Bool → Runtime → Chain → Chain
svn_error_trace tracing rt err = if tracing then rt.error_trace err else err

unfoldable pub svn_err : Bool → Runtime → Chain → Flow Chain
unfolding svn_error_trace
svn_err tracing rt [] = goes_on
svn_err tracing rt (l ∷ ls) = leaves (svn_error_trace tracing rt (l ∷ ls))

unfoldable pub svn_err_w : Runtime → Chain → String → Flow Chain
svn_err_w rt [] wrap_msg = goes_on
svn_err_w rt (l ∷ ls) wrap_msg = leaves (rt.quick_wrap (l ∷ ls) wrap_msg)

-- SVN_CMD_ERR of svn_ra_svn.h; `cmd_err` is the value of SVN_ERR_RA_SVN_CMD_ERR.
unfoldable pub svn_cmd_err : Runtime → ℕ → Chain → Flow Chain
svn_cmd_err rt cmd_err [] = goes_on
svn_cmd_err rt cmd_err (l ∷ ls) = leaves (rt.create cmd_err (l ∷ ls) none)

-- Calls whose effect is outside the function.
pub data ErrorCall : Type 0 where
  handle_error : Chain → ErrorCall
  error_clear : Chain → ErrorCall

unfoldable pub svn_int_err : Runtime → Chain → List ErrorCall × Flow ℕ
svn_int_err rt [] = ([], goes_on)
svn_int_err rt (l ∷ ls) =
    (handle_error (l ∷ ls) ∷ error_clear (l ∷ ls) ∷ [], leaves rt.exit_failure)

unfoldable pub svn_err_malfunction : Bool → Runtime → Flow Chain
unfolding svn_error_trace
svn_err_malfunction tracing rt = elim (rt.malfunction true none) [
  | none ↦ aborts
  | some err ↦ leaves (svn_error_trace tracing rt err)
]

-- `abort()` follows the handler, should it return.
unfoldable pub svn_err_malfunction_no_return : Runtime → Flow Chain
svn_err_malfunction_no_return rt = elim (rt.malfunction false none) [
  | none ↦ aborts
  | some err ↦ aborts
]

unfoldable pub svn_err_assert_e : Runtime → Bool → String → Chain → Flow Chain
svn_err_assert_e rt expr text err =
    if expr then goes_on else elim (rt.malfunction true (some text)) [
      | none ↦ aborts
      | some raised ↦ leaves (rt.compose_create raised err)
    ]

unfoldable pub svn_err_assert : Bool → Runtime → Bool → String → Flow Chain
unfolding svn_err
svn_err_assert tracing rt expr text =
    if expr then goes_on else elim (rt.malfunction true (some text)) [
      | none ↦ aborts
      | some raised ↦ svn_err tracing rt raised
    ]

unfoldable pub svn_err_assert_no_return : Runtime → Bool → String → Flow Chain
svn_err_assert_no_return rt expr text =
    if expr
    then goes_on
    else elim (rt.malfunction false (some text)) [ none ↦ aborts | some raised ↦ aborts ]

unfoldable pub svn_not_implemented : Runtime → Flow Chain
svn_not_implemented rt = elim (rt.malfunction true (some "Not implemented.")) [
  | none ↦ aborts
  | some raised ↦ leaves raised
]

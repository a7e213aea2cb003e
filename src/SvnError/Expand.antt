-- ===== src/SvnError/Expand.antt =====
-- The two expansions of svn_error_codes.h: the enumeration `svn_errno_t`, and with
-- SVN_ERROR_BUILD_ARRAY the table `error_table`. Enumerators get their values as in C.
use Prim.Native.String.{String}
use text.Mathlib.Text.{◌==◌ as str_eq}
use macstrop.Shared.{ℕ, ◌+◌, Option, none, some, List, [], ◌∷◌, ◌++◌, if◌then◌else◌}
use macstrop.Shared.Options.{◌>>=◌}
use macstrop.SvnError.Defs.{Offset, category_plus, same_as, ErrDef, category_start}

-- The enumerators in scope, each with its value.
abbrev pub Scope : Type 0
Scope = List (String × ℕ)

-- `none` is an identifier that is not declared.
unfoldable pub value_of : String → Scope → Option ℕ
value_of s [] = none
value_of s ((t, v) ∷ scope) = if str_eq t s then some v else value_of s scope

-- `num = offset,` evaluates its right side in the scope of the enumerators before it.
unfoldable pub eval : ℕ → Scope → Offset → Option ℕ
eval start scope (category_plus c n) = some (category_start start c + n)
eval start scope (same_as s) = value_of s scope

unfoldable pub enumerators : ℕ → Scope → List ErrDef → Option Scope
unfolding eval value_of
enumerators start scope [] = some []
enumerators start scope (d ∷ ds) = do
  v ← eval start scope d.offset
  rest ← enumerators start ((d.num, v) ∷ scope) ds
  some ((d.num, v) ∷ rest)

-- `SVN_WARNING = APR_OS_START_USERERR + 1,`
abbrev pub svn_warning : ℕ → String × ℕ
svn_warning start = ("SVN_WARNING", start + 1)

abbrev pub last_value : ℕ → Scope → ℕ
last_value v [] = v
last_value v ((s, u) ∷ scope) = last_value u scope

-- `typedef enum svn_errno_t { … SVN_ERR_LAST }`: an enumerator with no value is one more than the
-- one before it.
unfoldable pub svn_errno_t : ℕ → List ErrDef → Option Scope
unfolding enumerators
svn_errno_t start ds = do
  es ← enumerators start (svn_warning start ∷ []) ds
  some (svn_warning start ∷ es ++ ("SVN_ERR_LAST", last_value (start + 1) es + 1) ∷ [])

-- `err_defn`; the last entry has null pointers.
pub record ErrDefn : Type 0 where
  pub errcode : ℕ
  pub errname : Option String
  pub errdesc : Option String

unfoldable pub entries : Scope → List ErrDef → Option (List ErrDefn)
unfolding value_of
entries enum [] = some []
entries enum (d ∷ ds) = do
  v ← value_of d.num enum
  rest ← entries enum ds
  some (record { errcode = v; errname = some d.num; errdesc = some d.str } ∷ rest)

-- `static const err_defn error_table[]`, in the scope of the enumeration.
unfoldable pub error_table : Scope → List ErrDef → Option (List ErrDefn)
unfolding entries
error_table enum ds = do
  warning ← value_of "SVN_WARNING" enum
  rest ← entries enum ds
  some (
      record { errcode = warning; errname = some "SVN_WARNING"; errdesc = some "Warning" } ∷ rest
      ++ record { errcode = 0; errname = none; errdesc = none } ∷ [])

-- ===== src/SvnError/Tests.antt =====
-- The error system over APR's value of APR_OS_START_USERERR.
use macstrop.Shared.{
  ℕ, ◌+◌, ◌≡◌, ◌↔◌, refl, true, false, none, some, List, [], ◌∷◌, ◌++◌, arith, get_elem?,
}
use macstrop.SvnError.Defs.{errdef, category_plus, category_start, bad, wc}
use macstrop.SvnError.Codes.{svn_errors}
use macstrop.SvnError.Names.{has_name, svn_errors-distinct}
use macstrop.SvnError.Expand.{Scope, svn_warning, ErrDefn, error_table, last_value}
use macstrop.SvnError.Agree.{error_table-svn_errno_t, described}
use macstrop.SvnError.Values.{svn_errno_t-svn_enum, svn_enum, enum_at_zero}
use macstrop.SvnError.Unique.{original, alias, svn_errno_t_unique}
use macstrop.SvnError.Category.{svn_error_in_category, svn_error_in_category_lem}

-- APR_OS_START_USERERR, as APR has it.
abbrev start_usererr : ℕ
start_usererr = 120000

no_warning : has_name "SVN_WARNING" svn_errors ≡ false
unfolding has_name svn_errors
no_warning = refl

error_table-svn_errno_t_example :
    (t : List ErrDefn) × (es : Scope) × (error_table (svn_enum start_usererr) svn_errors ≡ some t)
    × (svn_enum start_usererr
        ≡ svn_warning start_usererr ∷ es
          ++ ("SVN_ERR_LAST", last_value (start_usererr + 1) es + 1) ∷ [])
    × (t
        ≡ record {
          errcode = start_usererr + 1;
          errname = some "SVN_WARNING";
          errdesc = some "Warning";
        }
            ∷ described es svn_errors
          ++ record { errcode = 0; errname = none; errdesc = none } ∷ [])
error_table-svn_errno_t_example =
    error_table-svn_errno_t start_usererr svn_errors (svn_enum start_usererr) svn_errors-distinct
      no_warning (svn_errno_t-svn_enum start_usererr)

svn_errno_t_unique_example : (original ≡ original) × (alias ≡ alias)
unfolding enum_at_zero
svn_errno_t_unique_example =
    svn_errno_t_unique start_usererr 49 50 original alias 155007 (omega arith) refl refl

svn_error_in_category_lem_example :
    (v : ℕ) × (get_elem? (svn_enum start_usererr) 1 ≡ some ("SVN_ERR_BAD_CONTAINING_POOL", v))
    × ((svn_error_in_category v (category_start start_usererr wc) ≡ true) ↔ (bad ≡ wc))
unfolding svn_errors
svn_error_in_category_lem_example =
    svn_error_in_category_lem start_usererr 0
      (errdef "SVN_ERR_BAD_CONTAINING_POOL" (category_plus bad 0)
        "Bad parent pool passed to svn_make_pool()")
      bad wc 0 refl refl refl

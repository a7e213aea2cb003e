-- ===== src/SvnError/Locks.antt =====
-- The error groups of svn_error.h: SVN_ERR_IS_LOCK_ERROR and SVN_ERR_IS_UNLOCK_ERROR.
use Prim.Native.String.{String}
use mathlib.Core.Option
use mathlib.Core.Option.{some-injective}
use macstrop.Shared.{
  ℕ, ◌+◌, ◌≡◌, ◌≤◌, ◌<◌, ◌↔◌, ◌⊎◌, refl, sym, ap, ap₂, ◌%◌, inl, inr, ◌∙◌, Bool, true, false, ◌||◌,
  ◌&&◌, none, some, arith, ◌==◌, ==_iff,
}
use macstrop.SvnError.Defs.{category_start, fs}
use macstrop.SvnError.Category.{svn_error_in_category}
use macstrop.SvnError.Expand.{Scope, value_of}
use macstrop.SvnError.Values.{svn_enum, enum_at_zero, value_of-shift}

-- `err->apr_err == SYMBOL`, in the scope of the enumeration.
abbrev pub is_code : Scope → ℕ → String → Bool
is_code enum apr_err s = elim (value_of s enum) [ none ↦ false | some v ↦ apr_err == v ]

unfoldable pub svn_err_is_lock_error : Scope → ℕ → Bool
unfolding value_of
svn_err_is_lock_error enum apr_err =
    is_code enum apr_err "SVN_ERR_FS_PATH_ALREADY_LOCKED"
    || (is_code enum apr_err "SVN_ERR_FS_NOT_FOUND"
        || (is_code enum apr_err "SVN_ERR_FS_OUT_OF_DATE"
            || is_code enum apr_err "SVN_ERR_FS_BAD_LOCK_TOKEN"))

unfoldable pub svn_err_is_unlock_error : Scope → ℕ → Bool
unfolding value_of
svn_err_is_unlock_error enum apr_err =
    is_code enum apr_err "SVN_ERR_FS_PATH_NOT_LOCKED"
    || (is_code enum apr_err "SVN_ERR_FS_BAD_LOCK_TOKEN"
        || (is_code enum apr_err "SVN_ERR_FS_LOCK_OWNER_MISMATCH"
            || (is_code enum apr_err "SVN_ERR_FS_NO_SUCH_LOCK"
                || (is_code enum apr_err "SVN_ERR_RA_NOT_LOCKED"
                    || is_code enum apr_err "SVN_ERR_FS_LOCK_EXPIRED"))))

is_code-svn_enum :
    (start apr_err n : ℕ) (s : String)
    → value_of s enum_at_zero ≡ some n
    → is_code (svn_enum start) apr_err s ≡ (apr_err == start + n)
is_code-svn_enum start apr_err n s e =
    ap (λ o. elim o [ none ↦ false | some v ↦ apr_err == v ])
      (value_of-shift start s enum_at_zero ∙ ap (Option.map (λ v. start + v)) e)

ap₄ :
    {A B : Type 0} (f : A → A → A → A → B) {a a' b b' c c' d d' : A}
    → a ≡ a'
    → b ≡ b'
    → c ≡ c'
    → d ≡ d'
    → f a b c d ≡ f a' b' c' d'
ap₄ f p q r s = λ i. f (p i) (q i) (r i) (s i)

-- The values of the symbols that the groups name.
symbol :
    (start n : ℕ) (s : String)
    → value_of s enum_at_zero ≡ some n
    → value_of s (svn_enum start) ≡ some (start + n)
symbol start n s e = value_of-shift start s enum_at_zero ∙ ap (Option.map (λ v. start + v)) e

lock_codes :
    (start e : ℕ)
    → svn_err_is_lock_error (svn_enum start) e ≡ (
        (e == start + 40035)
        || ((e == start + 40013) || ((e == start + 40042) || (e == start + 40037))))
unfolding svn_err_is_lock_error enum_at_zero
lock_codes start e =
    ap₄ (λ a b c d. a || (b || (c || d)))
      (is_code-svn_enum start e 40035 "SVN_ERR_FS_PATH_ALREADY_LOCKED" refl)
      (is_code-svn_enum start e 40013 "SVN_ERR_FS_NOT_FOUND" refl)
      (is_code-svn_enum start e 40042 "SVN_ERR_FS_OUT_OF_DATE" refl)
      (is_code-svn_enum start e 40037 "SVN_ERR_FS_BAD_LOCK_TOKEN" refl)

unlock_codes :
    (start e : ℕ)
    → svn_err_is_unlock_error (svn_enum start) e ≡ (
        (e == start + 40036)
        || ((e == start + 40037)
            || ((e == start + 40039)
                || ((e == start + 40040) || ((e == start + 50007) || (e == start + 40041))))))
unfolding svn_err_is_unlock_error enum_at_zero
unlock_codes start e =
    ap₂ (λ a b. a || b) (is_code-svn_enum start e 40036 "SVN_ERR_FS_PATH_NOT_LOCKED" refl)
      (ap₂ (λ a b. a || b) (is_code-svn_enum start e 40037 "SVN_ERR_FS_BAD_LOCK_TOKEN" refl)
        (ap₄ (λ a b c d. a || (b || (c || d)))
          (is_code-svn_enum start e 40039 "SVN_ERR_FS_LOCK_OWNER_MISMATCH" refl)
          (is_code-svn_enum start e 40040 "SVN_ERR_FS_NO_SUCH_LOCK" refl)
          (is_code-svn_enum start e 50007 "SVN_ERR_RA_NOT_LOCKED" refl)
          (is_code-svn_enum start e 40041 "SVN_ERR_FS_LOCK_EXPIRED" refl)))

in_both :
    (start e : ℕ)
    → (svn_err_is_lock_error (svn_enum start) e && svn_err_is_unlock_error (svn_enum start) e)
      ≡ true
    → e ≡ start + 40037
in_both start e h = ground (arith, lock_codes start e, unlock_codes start e)

bad_lock_token :
    (start : ℕ) → value_of "SVN_ERR_FS_BAD_LOCK_TOKEN" (svn_enum start) ≡ some (start + 40037)
unfolding enum_at_zero value_of
bad_lock_token start = symbol start 40037 "SVN_ERR_FS_BAD_LOCK_TOKEN" refl

not_locked : (start : ℕ) → value_of "SVN_ERR_RA_NOT_LOCKED" (svn_enum start) ≡ some (start + 50007)
unfolding enum_at_zero value_of
not_locked start = symbol start 50007 "SVN_ERR_RA_NOT_LOCKED" refl

groups_of_token :
    (start e : ℕ)
    → e ≡ start + 40037
    → (svn_err_is_lock_error (svn_enum start) e && svn_err_is_unlock_error (svn_enum start) e)
      ≡ true
groups_of_token start e is = ground (arith, lock_codes start e, unlock_codes start e)

lock_range :
    (start e : ℕ)
    → svn_err_is_lock_error (svn_enum start) e ≡ true
    → (start + 40000 ≤ e) × (e < start + 45000)
lock_range start e h = ground (arith, lock_codes start e)

unlock_range :
    (start e : ℕ)
    → svn_err_is_unlock_error (svn_enum start) e ≡ true
    → ((start + 40000 ≤ e) × (e < start + 45000)) ⊎ (e ≡ start + 50007)
unlock_range start e h = ground (arith, unlock_codes start e)

in_fs :
    (start e : ℕ)
    → start % 5000 ≡ 0
    → start + 40000 ≤ e
    → e < start + 45000
    → svn_error_in_category e (category_start start fs) ≡ true
unfolding svn_error_in_category category_start
in_fs start e a lo hi = (==_iff _ _).1 (omega arith)

-- A code is both a lock error and an unlock error exactly if it is SVN_ERR_FS_BAD_LOCK_TOKEN.
pub svn_err_lock_groups :
    (start e : ℕ)
    → ((svn_err_is_lock_error (svn_enum start) e && svn_err_is_unlock_error (svn_enum start) e)
        ≡ true)
      ↔ (value_of "SVN_ERR_FS_BAD_LOCK_TOKEN" (svn_enum start) ≡ some e)
svn_err_lock_groups start e = (
  λ h. bad_lock_token start ∙ ap some (sym (in_both start e h)),
  λ h. groups_of_token start e (some-injective _ _ (sym h ∙ bad_lock_token start)),
)

-- Where APR puts its user errors at a multiple of 5000, a lock error is in the category of file system
-- errors.
svn_err_is_lock_error-in_category :
    (start e : ℕ)
    → start % 5000 ≡ 0
    → svn_err_is_lock_error (svn_enum start) e ≡ true
    → svn_error_in_category e (category_start start fs) ≡ true
svn_err_is_lock_error-in_category start e a h =
    in_fs start e a (lock_range start e h).0 (lock_range start e h).1

-- Where APR puts its user errors at a multiple of 5000, an unlock error is in the category of file
-- system errors, or it is SVN_ERR_RA_NOT_LOCKED.
svn_err_is_unlock_error-in_category :
    (start e : ℕ)
    → start % 5000 ≡ 0
    → svn_err_is_unlock_error (svn_enum start) e ≡ true
    → (svn_error_in_category e (category_start start fs) ≡ true)
      ⊎ (value_of "SVN_ERR_RA_NOT_LOCKED" (svn_enum start) ≡ some e)
svn_err_is_unlock_error-in_category start e a h = elim (unlock_range start e h) [
  | inl r ↦ inl (in_fs start e a r.0 r.1)
  | inr is ↦ inr (not_locked start ∙ ap some (sym is))
]

-- Where APR puts its user errors at a multiple of 5000, a lock error is in the category of file system
-- errors, and an unlock error is in that category or is SVN_ERR_RA_NOT_LOCKED.
pub svn_err_lock_categories :
    (start e : ℕ)
    → start % 5000 ≡ 0
    → (svn_err_is_lock_error (svn_enum start) e ≡ true
        → svn_error_in_category e (category_start start fs) ≡ true)
      × (svn_err_is_unlock_error (svn_enum start) e ≡ true
          → (svn_error_in_category e (category_start start fs) ≡ true)
            ⊎ (value_of "SVN_ERR_RA_NOT_LOCKED" (svn_enum start) ≡ some e))
svn_err_lock_categories start e aligned = (
  svn_err_is_lock_error-in_category start e aligned,
  svn_err_is_unlock_error-in_category start e aligned,
)

-- ===== src/SvnError/Category.antt =====
-- The macro SVN_ERROR_IN_CATEGORY of svn_error.h, against the categories of svn_error_codes.h.
use mathlib.Core.Option.{some-injective}
use macstrop.Shared.{
  ℕ, zero, suc, ◌+◌, ◌-◌, ◌*◌, ◌/◌, ◌%◌, ◌<◌, ◌≡◌, ◌≢◌, ◌↔◌, refl, sym, ap, ap₂, ◌∙◌, subst, Bool,
  true, false, ◌&&◌, some, List, [], ◌∷◌, arith, ltb, ltb→lt, ◌==◌, ==_iff, ==_of_ne, get_elem?,
  &&-elim,
}
use macstrop.SvnError.Defs.{
  Category, bad, xml, io, stream, node, entry, wc, fs, repos, ra, ra_dav, ra_local, svndiff, apmod,
  client, misc, cl, ra_svn, authn, authz, diff, ra_serf, malfunc, category_size, category_factor,
  category_start, Offset, category_plus, same_as, ErrDef,
}
use macstrop.SvnError.Codes.{svn_errors}
use macstrop.SvnError.Expand.{Scope, enumerators, eval, svn_warning}
use macstrop.SvnError.Agree.{enumerators-cons}
use macstrop.SvnError.Values.{svn_enum, get_elem?-svn_enum, enumerators-codes}

-- `((category) == ((apr_err) / SVN_ERR_CATEGORY_SIZE) * SVN_ERR_CATEGORY_SIZE)`
unfoldable pub svn_error_in_category : ℕ → ℕ → Bool
svn_error_in_category apr_err category = category == apr_err / category_size * category_size

-- The categories, each at the place of its factor.
abbrev categories : List Category
categories =
    bad ∷ xml ∷ io ∷ stream ∷ node ∷ entry ∷ wc ∷ fs ∷ repos ∷ ra ∷ ra_dav ∷ ra_local ∷ svndiff
    ∷ apmod ∷ client ∷ misc ∷ cl ∷ ra_svn ∷ authn ∷ authz ∷ diff ∷ ra_serf ∷ malfunc ∷ []

categories-factor : (c : Category) → get_elem? categories (category_factor c - 1) ≡ some c
unfolding category_factor
categories-factor bad = refl
categories-factor _ = refl

factor-injective : (c c' : Category) → category_factor c ≡ category_factor c' → c ≡ c'
factor-injective c c' e =
    some-injective _ _
      (sym (categories-factor c) ∙ ap (λ k. get_elem? categories (k - 1)) e ∙ categories-factor c')

in_category-aligned :
    (start f f' n : ℕ)
    → start % 5000 ≡ 0
    → n < 5000
    → (start + f' * 5000 ≡ (start + f * 5000 + n) / 5000 * 5000) ↔ (f ≡ f')
in_category-aligned start f f' n a lt = (λ e. omega arith, λ e. omega arith)

small_offset : Offset → Bool
small_offset (category_plus c n) = ltb n 5000
small_offset (same_as s) = true

small_offsets : List ErrDef → Bool
unfolding small_offset
small_offsets [] = true
small_offsets (d ∷ ds) = small_offset d.offset && small_offsets ds

svn_errors-small : small_offsets svn_errors ≡ true
unfolding small_offsets svn_errors
svn_errors-small = refl

small-get :
    (ds : List ErrDef) (i : ℕ) (d : ErrDef) (c : Category) (n : ℕ)
    → small_offsets ds ≡ true
    → get_elem? ds i ≡ some d
    → d.offset ≡ category_plus c n
    → n < 5000
unfolding small_offsets
small-get [] i d c n h e o = cc
small-get (x ∷ ds) zero d c n h e o =
    let at : x.offset ≡ category_plus c n = ap (λ y. y.offset) (some-injective _ _ e) ∙ o in
    ltb→lt n 5000 (
      subst (λ t. small_offset t ≡ true) at
        (&&-elim (small_offset x.offset) (small_offsets ds) h).0)
small-get (x ∷ ds) (suc i) d c n h e o =
    small-get ds i d c n (&&-elim (small_offset x.offset) (small_offsets ds) h).1 e o

-- The enumerator of a definition with a place in a category.
enumerators-get :
    (start : ℕ) (scope : Scope) (ds : List ErrDef) (es : Scope) (i : ℕ) (d : ErrDef) (c : Category)
    (n : ℕ)
    → enumerators start scope ds ≡ some es
    → get_elem? ds i ≡ some d
    → d.offset ≡ category_plus c n
    → get_elem? es i ≡ some (d.num, category_start start c + n)
unfolding eval
enumerators-get start scope [] es i d c n e g o = cc
enumerators-get start scope (x ∷ ds) es zero d c n e g o =
    let (v, rest, value, f, is) = enumerators-cons start scope x ds es e in
    let same : x ≡ d = some-injective _ _ g in
    let code : eval start scope (category_plus c n) ≡ some v =
      subst (λ t. eval start scope t ≡ some v) (ap (λ y. y.offset) same ∙ o) value in
    rw is (ap₂ (λ s u. some (s, u)) (ap (λ y. y.num) same) (sym (some-injective _ _ code)))
enumerators-get start scope (x ∷ ds) es (suc i) d c n e g o =
    let (v, rest, _, f, is) = enumerators-cons start scope x ds es e in
    rw is (enumerators-get start ((x.num, v) ∷ scope) ds rest i d c n f g o)

-- Where APR puts its user errors at a multiple of SVN_ERR_CATEGORY_SIZE, the code of a definition with
-- a place in a category is in that category and in no other, as SVN_ERROR_IN_CATEGORY tests it.
pub svn_error_in_category_lem :
    (start i : ℕ) (d : ErrDef) (c c' : Category) (n : ℕ)
    → start % 5000 ≡ 0
    → get_elem? svn_errors i ≡ some d
    → d.offset ≡ category_plus c n
    → (v : ℕ) × (get_elem? (svn_enum start) (suc i) ≡ some (d.num, v))
      × ((svn_error_in_category v (category_start start c') ≡ true) ↔ (c ≡ c'))
unfolding svn_error_in_category category_start
svn_error_in_category_lem start i d c c' n aligned at o =
    let small : n < 5000 = small-get svn_errors i d c n svn_errors-small at o in
    let iff = in_category-aligned start (category_factor c) (category_factor c') n aligned small in
    (
      category_start start c + n,
      get_elem?-svn_enum start i _ (
          enumerators-get start (svn_warning start ∷ []) svn_errors _ i d c n
            (enumerators-codes start) at o),
      (
        λ t. factor-injective c c' (iff.0 ((==_iff _ _).0 t)),
        λ e. (==_iff _ _).1 (iff.1 (ap category_factor e)),
      ),
    )

-- Where APR_OS_START_USERERR is no multiple of 5000, SVN_ERROR_IN_CATEGORY finds no number in any
-- category.
pub svn_error_in_category_misaligned :
    (start v : ℕ) (c : Category)
    → start % 5000 ≢ 0
    → svn_error_in_category v (category_start start c) ≡ false
unfolding svn_error_in_category category_start
svn_error_in_category_misaligned start v c away = ==_of_ne _ _ (λ e. away (omega arith))

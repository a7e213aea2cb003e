-- ===== src/SvnError/Values.antt =====
-- The values of the enumerators of svn_error_codes.h, over the place of the APR user errors.
use Prim.Native.String.{String}
use mathlib.Core.Option
use macstrop.Shared.{
  ℕ, zero, suc, ◌+◌, ◌≡◌, refl, sym, ap, ◌∙◌, inl, inr, none, some, List, [], ◌∷◌, ◌++◌, arith,
  Option-cases, get_elem?,
}
use macstrop.SvnError.Defs.{Offset, category_plus, same_as, ErrDef, category_start}
use macstrop.SvnError.Codes.{svn_errors}
use macstrop.Shared.Options.{◌>>=◌}
use macstrop.SvnError.Expand.{
  Scope, value_of, eval, enumerators, svn_warning, svn_errno_t, last_value,
}

-- Every value moved up.
abbrev pub shift : ℕ → Scope → Scope
shift k [] = []
shift k ((s, v) ∷ scope) = (s, k + v) ∷ shift k scope

pub value_of-shift :
    (k : ℕ) (s : String) (scope : Scope)
    → value_of s (shift k scope) ≡ Option.map (λ v. k + v) (value_of s scope)
unfolding value_of
value_of-shift k s [] = refl
value_of-shift k s ((t, v) ∷ scope) = ground (arith, value_of-shift k s scope)

eval-shift :
    (k : ℕ) (scope : Scope) (o : Offset)
    → eval k (shift k scope) o ≡ Option.map (λ v. k + v) (eval 0 scope o)
unfolding eval category_start
eval-shift k scope (category_plus c n) = ap some (omega arith)
eval-shift k scope (same_as s) = value_of-shift k s scope

enumerators-shift :
    (k : ℕ) (scope : Scope) (ds : List ErrDef)
    → enumerators k (shift k scope) ds ≡ Option.map (shift k) (enumerators 0 scope ds)
unfolding enumerators
enumerators-shift k scope [] = refl
enumerators-shift k scope (d ∷ ds) = elim (Option-cases (eval 0 scope d.offset)) [
  | inl e ↦ rw (eval-shift k scope d.offset, e, ◌>>=◌) refl
  | inr (v, e) ↦
      rw (eval-shift k scope d.offset, e, ◌>>=◌, enumerators-shift k ((d.num, v) ∷ scope) ds)
        (elim (Option-cases (enumerators 0 ((d.num, v) ∷ scope) ds)) [
          | inl f ↦ rw (f, ◌>>=◌) refl
          | inr (rest, f) ↦ rw (f, ◌>>=◌) refl
        ])
]

-- The enumerators with APR_OS_START_USERERR at 0.
unfoldable pub codes_at_zero : Scope
unfolding enumerators svn_errors category_start
codes_at_zero = elim (enumerators 0 (svn_warning 0 ∷ []) svn_errors) [ none ↦ [] | some es ↦ es ]

codes_at_zero_lem : enumerators 0 (svn_warning 0 ∷ []) svn_errors ≡ some codes_at_zero
unfolding codes_at_zero
codes_at_zero_lem = refl

-- The codes for any start: those at zero, moved up.
pub enumerators-codes :
    (start : ℕ)
    → enumerators start (svn_warning start ∷ []) svn_errors ≡ some (shift start codes_at_zero)
enumerators-codes start =
    enumerators-shift start (svn_warning 0 ∷ []) svn_errors
    ∙ ap (Option.map (shift start)) codes_at_zero_lem

-- The value of SVN_ERR_LAST at zero: behind the last malfunction.
abbrev pub last_at_zero : ℕ
last_at_zero = 115002

last_value-shift :
    (k v : ℕ) (scope : Scope) → last_value (k + v) (shift k scope) ≡ k + last_value v scope
last_value-shift k v [] = refl
last_value-shift k v ((s, u) ∷ scope) = last_value-shift k u scope

last-codes : last_value 1 codes_at_zero ≡ 115001
unfolding codes_at_zero
last-codes = refl

-- The whole enumeration at zero, and at a start.
unfoldable pub enum_at_zero : Scope
unfolding codes_at_zero
enum_at_zero = svn_warning 0 ∷ codes_at_zero ++ ("SVN_ERR_LAST", last_at_zero) ∷ []

abbrev pub svn_enum : ℕ → Scope
svn_enum start = shift start enum_at_zero

shift-append : (k : ℕ) (xs ys : Scope) → shift k (xs ++ ys) ≡ shift k xs ++ shift k ys
shift-append k [] ys = refl
shift-append k ((s, v) ∷ xs) ys = rw (shift-append k xs ys) refl

enum_at_zero_lem :
    enum_at_zero ≡ svn_warning 0 ∷ codes_at_zero ++ ("SVN_ERR_LAST", last_at_zero) ∷ []
unfolding enum_at_zero
enum_at_zero_lem = refl

svn_enum_lem :
    (start : ℕ)
    → svn_enum start
      ≡ svn_warning start ∷ shift start codes_at_zero ++ ("SVN_ERR_LAST", start + last_at_zero) ∷ []
svn_enum_lem start =
    ap (shift start) enum_at_zero_lem
    ∙ ap (λ l. svn_warning start ∷ l)
        (shift-append start codes_at_zero (("SVN_ERR_LAST", last_at_zero) ∷ []))

-- The enumeration of svn_error_codes.h is well formed wherever APR puts its user errors, and moves
-- with them: each enumerator is a fixed offset from there.
pub svn_errno_t-svn_enum : (start : ℕ) → svn_errno_t start svn_errors ≡ some (svn_enum start)
unfolding svn_errno_t
svn_errno_t-svn_enum start =
    rw (enumerators-codes start, ◌>>=◌)
      (ap (λ v. some (svn_warning start ∷ shift start codes_at_zero ++ ("SVN_ERR_LAST", v) ∷ []))
          (omega (arith, last_value-shift start 1 codes_at_zero, last-codes))
        ∙ ap some (sym (svn_enum_lem start)))

-- What stands among the codes stands in the enumeration, one place on.
get_elem?-append :
    (xs ys : Scope) (i : ℕ) (e : String × ℕ)
    → get_elem? xs i ≡ some e
    → get_elem? (xs ++ ys) i ≡ some e
get_elem?-append [] ys i e h = cc
get_elem?-append (x ∷ xs) ys zero e h = h
get_elem?-append (x ∷ xs) ys (suc i) e h = get_elem?-append xs ys i e h

pub get_elem?-svn_enum :
    (start i : ℕ) (e : String × ℕ)
    → get_elem? (shift start codes_at_zero) i ≡ some e
    → get_elem? (svn_enum start) (suc i) ≡ some e
get_elem?-svn_enum start i e h =
    ap (λ l. get_elem? l (suc i)) (svn_enum_lem start)
    ∙ get_elem?-append (shift start codes_at_zero) _ i e h

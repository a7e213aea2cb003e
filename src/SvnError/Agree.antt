-- ===== src/SvnError/Agree.antt =====
-- The enumeration and the table of svn_error_codes.h tell the same codes, in the same order.
use Prim.Native.String.{String}
use text.Mathlib.Text.{◌==◌ as str_eq}
use text.Mathlib.TextPositions.{eq_refl}
use mathlib.Core.Bool.{false≢true}
use mathlib.Core.Option.{some-injective}
use mathlib.Core.List.{append_assoc}
use macstrop.Shared.{
  ℕ, ◌+◌, ◌≡◌, refl, sym, ap, ◌∙◌, subst, Bool, true, false, ◌||◌, inl, inr, none, some, List, [],
  ◌∷◌, ◌++◌, arith, Bool-cases,
}
use macstrop.SvnError.Defs.{ErrDef}
use macstrop.SvnError.Names.{has_name, distinct}
use macstrop.Shared.Options.{◌>>=◌, some-bind}
use macstrop.SvnError.Expand.{
  Scope, value_of, eval, enumerators, svn_warning, svn_errno_t, ErrDefn, entries, error_table,
  last_value,
}

in_scope : String → Scope → Bool
in_scope s [] = false
in_scope s ((t, v) ∷ scope) = str_eq t s || in_scope s scope

-- The first entry of that name is found.
value_of-append :
    (s : String) (v : ℕ) (pre post : Scope)
    → in_scope s pre ≡ false
    → value_of s (pre ++ (s, v) ∷ post) ≡ some v
unfolding in_scope value_of
value_of-append s v [] post h = rw (eq_refl s) refl
value_of-append s v ((t, u) ∷ pre) post h = ground (arith, value_of-append s v pre post)

in_scope-append :
    (s t : String) (v : ℕ) (pre : Scope)
    → in_scope s pre ≡ false
    → str_eq t s ≡ false
    → in_scope s (pre ++ (t, v) ∷ []) ≡ false
unfolding in_scope
in_scope-append s t v [] h e = rw e refl
in_scope-append s t v ((r, u) ∷ pre) h e = ground (arith, in_scope-append s t v pre)

-- None of the definitions is named in the scope.
abbrev AllFresh : Scope → List ErrDef → Type 0
AllFresh pre [] = Unit {0}
AllFresh pre (d ∷ ds) = (in_scope d.num pre ≡ false) × AllFresh pre ds

AllFresh-append :
    (s : String) (v : ℕ) (pre : Scope) (ds : List ErrDef)
    → AllFresh pre ds
    → has_name s ds ≡ false
    → AllFresh (pre ++ (s, v) ∷ []) ds
unfolding has_name
AllFresh-append s v pre [] a h = tt
AllFresh-append s v pre (d ∷ ds) a h = elim (Bool-cases (str_eq s d.num)) [
  | inl t ↦ absurd (false≢true (sym h ∙ ap (λ b. elim b [ true ↦ true | false ↦ has_name s ds ]) t))
  | inr f ↦ (
    in_scope-append d.num s v pre a.0 f,
    AllFresh-append s v pre ds a.1
        (sym (ap (λ b. elim b [ true ↦ true | false ↦ has_name s ds ]) f) ∙ h),
  )
]

AllFresh-nil : (ds : List ErrDef) → AllFresh [] ds
unfolding in_scope
AllFresh-nil [] = tt
AllFresh-nil (d ∷ ds) = (refl, AllFresh-nil ds)

-- The table's entries, read off the enumerators.
abbrev pub described : Scope → List ErrDef → List ErrDefn
described [] ds = []
described ((s, v) ∷ es) [] = []
described ((s, v) ∷ es) (d ∷ ds) =
    record { errcode = v; errname = some s; errdesc = some d.str } ∷ described es ds

pub enumerators-cons :
    (start : ℕ) (scope : Scope) (d : ErrDef) (ds : List ErrDef) (es : Scope)
    → enumerators start scope (d ∷ ds) ≡ some es
    → (v : ℕ) × (rest : Scope) × (eval start scope d.offset ≡ some v)
      × (enumerators start ((d.num, v) ∷ scope) ds ≡ some rest)
      × (es ≡ (d.num, v) ∷ rest)
unfolding enumerators
enumerators-cons start scope d ds es e =
    let (v, value, e') = some-bind (eval start scope d.offset) _ e in
    let (rest, f, e'') = some-bind (enumerators start ((d.num, v) ∷ scope) ds) _ e' in
    (v, rest, value, f, cc e'')

distinct-cons :
    (d : ErrDef) (ds : List ErrDef)
    → distinct (d ∷ ds) ≡ true
    → (has_name d.num ds ≡ false) × (distinct ds ≡ true)
unfolding distinct
distinct-cons d ds h = ground arith

entries-cons :
    (enum : Scope) (d : ErrDef) (ds : List ErrDef) (v : ℕ) (rest : List ErrDefn)
    → value_of d.num enum ≡ some v
    → entries enum ds ≡ some rest
    → entries enum (d ∷ ds)
      ≡ some (record { errcode = v; errname = some d.num; errdesc = some d.str } ∷ rest)
unfolding entries
entries-cons enum d ds v rest e f = rw (e, ◌>>=◌, f, ◌>>=◌) refl

entries_lem :
    (start : ℕ) (scope pre es post : Scope) (ds : List ErrDef)
    → enumerators start scope ds ≡ some es
    → AllFresh pre ds
    → distinct ds ≡ true
    → entries (pre ++ (es ++ post)) ds ≡ some (described es ds)
unfolding entries enumerators
entries_lem start scope pre es post [] e a h =
    let same : [] ≡ es = cc e in subst (λ l. some [] ≡ some (described l [])) same refl
entries_lem start scope pre es post (d ∷ ds) e a h =
    let (v, rest, _, f, is) = enumerators-cons start scope d ds es e in
    let (new, others) = distinct-cons d ds h in
    let pre' : Scope = pre ++ (d.num, v) ∷ [] in
    let ih : entries (pre' ++ (rest ++ post)) ds ≡ some (described rest ds) =
      entries_lem start ((d.num, v) ∷ scope) pre' rest post ds f
        (AllFresh-append d.num v pre ds a.1 new) others in
    let ih' : entries (pre ++ ((d.num, v) ∷ (rest ++ post))) ds ≡ some (described rest ds) =
      subst (λ l. entries l ds ≡ some (described rest ds))
        (append_assoc pre ((d.num, v) ∷ []) (rest ++ post)) ih in
    let found : value_of d.num (pre ++ ((d.num, v) ∷ (rest ++ post))) ≡ some v =
      value_of-append d.num v pre (rest ++ post) a.0 in
    subst (λ l. entries (pre ++ (l ++ post)) (d ∷ ds) ≡ some (described l (d ∷ ds))) (sym is)
      (entries-cons (pre ++ ((d.num, v) ∷ (rest ++ post))) d ds v _ found ih')

table-some :
    (start : ℕ) (enum : Scope) (ds : List ErrDef) (rest : List ErrDefn)
    → entries (svn_warning start ∷ enum) ds ≡ some rest
    → error_table (svn_warning start ∷ enum) ds
      ≡ some (
          record { errcode = start + 1; errname = some "SVN_WARNING"; errdesc = some "Warning" }
            ∷ rest
          ++ record { errcode = 0; errname = none; errdesc = none } ∷ [])
unfolding error_table value_of
table-some start enum ds rest e = rw (e, ◌>>=◌) refl

-- Let the symbols be distinct, and none of them SVN_WARNING. Where the enumeration is well formed, so
-- is the table; behind the entry of SVN_WARNING and before the terminator the table has the codes and
-- names of the enumerators in their order, and the descriptions of the definitions.
pub error_table-svn_errno_t :
    (start : ℕ) (ds : List ErrDef) (enum : Scope)
    → distinct ds ≡ true
    → has_name "SVN_WARNING" ds ≡ false
    → svn_errno_t start ds ≡ some enum
    → (t : List ErrDefn) × (es : Scope) × (error_table enum ds ≡ some t)
      × (enum ≡ svn_warning start ∷ es ++ ("SVN_ERR_LAST", last_value (start + 1) es + 1) ∷ [])
      × (t
          ≡ record { errcode = start + 1; errname = some "SVN_WARNING"; errdesc = some "Warning" }
              ∷ described es ds
            ++ record { errcode = 0; errname = none; errdesc = none } ∷ [])
unfolding svn_errno_t error_table
error_table-svn_errno_t start ds enum h w e =
    let (es, f, is) = some-bind (enumerators start (svn_warning start ∷ []) ds) _ e in
    let last : Scope = ("SVN_ERR_LAST", last_value (start + 1) es + 1) ∷ [] in
    let warned : Scope = svn_warning start ∷ [] in
    let all : entries (warned ++ (es ++ last)) ds ≡ some (described es ds) =
      entries_lem start warned warned es last ds f
        (AllFresh-append "SVN_WARNING" (start + 1) [] ds (AllFresh-nil ds) w) h in
    let table : List ErrDefn =
      record { errcode = start + 1; errname = some "SVN_WARNING"; errdesc = some "Warning" }
        ∷ described es ds
      ++ record { errcode = 0; errname = none; errdesc = none } ∷ [] in
    (
      table,
      es,
      subst (λ l. error_table l ds ≡ some table) (some-injective _ _ is)
          (table-some start (es ++ last) ds _ all),
      sym (some-injective _ _ is),
      refl,
    )

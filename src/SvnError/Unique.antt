-- ===== src/SvnError/Unique.antt =====
-- Which codes of svn_error_codes.h coincide, and where they lie.
use Prim.Native.String.{String}
use text.Mathlib.Text.{◌==◌ as str_eq}
use text.Mathlib.TextEquality.{eq_iff}
use mathlib.Core.Option.{some-injective}
use macstrop.Shared.{
  ℕ, zero, suc, ◌+◌, ◌<◌, ◌≤◌, ◌≡◌, refl, ap, subst, ◌∙◌, Bool, &&-elim, true, ◌||◌, ◌&&◌, not,
  some, [], ◌∷◌, arith, leb, ◌==◌, get_elem?,
}
use macstrop.SvnError.Expand.{Scope}
use macstrop.SvnError.Values.{shift, svn_enum, enum_at_zero, last_at_zero}

-- The one symbol that is declared an alias, and the one it stands for.
abbrev pub alias : String
alias = "SVN_ERR_WC_NOT_DIRECTORY"

abbrev pub original : String
original = "SVN_ERR_WC_NOT_WORKING_COPY"

differs : String → ℕ → Scope → Bool
differs s v [] = true
differs s v ((t, u) ∷ scope) =
    (not (v == u) || (str_eq s original && str_eq t alias)) && differs s v scope

unique : Scope → Bool
unfolding differs
unique [] = true
unique ((s, v) ∷ scope) = differs s v scope && unique scope

differs-shift :
    (k : ℕ) (s : String) (v : ℕ) (scope : Scope)
    → differs s (k + v) (shift k scope) ≡ differs s v scope
unfolding differs
differs-shift k s v [] = refl
differs-shift k s v ((t, u) ∷ scope) = ground (arith, differs-shift k s v scope)

unique-shift : (k : ℕ) (scope : Scope) → unique (shift k scope) ≡ unique scope
unfolding unique
unique-shift k [] = refl
unique-shift k ((s, v) ∷ scope) = rw (differs-shift k s v scope, unique-shift k scope) refl

differs-get :
    (scope : Scope) (j : ℕ) (s t : String) (v : ℕ)
    → differs s v scope ≡ true
    → get_elem? scope j ≡ some (t, v)
    → (s ≡ original) × (t ≡ alias)
unfolding differs
differs-get [] j s t v h e = cc
differs-get ((r, u) ∷ scope) zero s t v h e =
    ground (arith, (eq_iff s original).0, (eq_iff r alias).0)
differs-get ((r, u) ∷ scope) (suc j) s t v h e = differs-get scope j s t v (ground arith) e

unique-get :
    (scope : Scope) (i j : ℕ) (s t : String) (v : ℕ)
    → unique scope ≡ true
    → i < j
    → get_elem? scope i ≡ some (s, v)
    → get_elem? scope j ≡ some (t, v)
    → (s ≡ original) × (t ≡ alias)
unfolding unique
unique-get [] i j s t v h lt e f = cc
unique-get ((r, u) ∷ scope) zero zero s t v h lt e f = absurd (omega arith)
unique-get ((r, u) ∷ scope) zero (suc j) s t v h lt e f =
    let p = some-injective _ _ e in
    let r_is_s : r ≡ s = ap (λ q. q.0) p in
    let u_is_v : u ≡ v = ap (λ q. q.1) p in
    let here : differs s v scope ≡ true =
      subst (λ n. differs s n scope ≡ true) u_is_v
        (subst (λ x. differs x u scope ≡ true) r_is_s
          (&&-elim (differs r u scope) (unique scope) h).0) in
    differs-get scope j s t v here f
unique-get ((r, u) ∷ scope) (suc i) zero s t v h lt e f = absurd (omega arith)
unique-get ((r, u) ∷ scope) (suc i) (suc j) s t v h lt e f =
    unique-get scope i j s t v (ground arith) (omega arith) e f

enum-unique : unique enum_at_zero ≡ true
unfolding unique enum_at_zero
enum-unique = refl

-- Two enumerators of svn_error_codes.h have one value only if they are SVN_ERR_WC_NOT_WORKING_COPY
-- and its alias SVN_ERR_WC_NOT_DIRECTORY, in this order.
pub svn_errno_t_unique :
    (start i j : ℕ) (s t : String) (v : ℕ)
    → i < j
    → get_elem? (svn_enum start) i ≡ some (s, v)
    → get_elem? (svn_enum start) j ≡ some (t, v)
    → (s ≡ original) × (t ≡ alias)
svn_errno_t_unique start i j s t v =
    unique-get (svn_enum start) i j s t v (unique-shift start enum_at_zero ∙ enum-unique)

within : Scope → Bool
within [] = true
within ((s, v) ∷ scope) = leb 1 v && leb v last_at_zero && within scope

enum-within : within enum_at_zero ≡ true
unfolding within enum_at_zero
enum-within = refl

within-get :
    (k : ℕ) (scope : Scope) (i : ℕ) (s : String) (v : ℕ)
    → within scope ≡ true
    → get_elem? (shift k scope) i ≡ some (s, v)
    → (k < v) × (v ≤ k + last_at_zero)
unfolding within
within-get k [] i s v h e = cc
within-get k ((t, u) ∷ scope) zero s v h e = ground arith
within-get k ((t, u) ∷ scope) (suc i) s v h e = within-get k scope i s v (ground arith) e

-- Every enumerator lies above APR_OS_START_USERERR and at most at SVN_ERR_LAST, so within the 500000
-- numbers that APR has for user errors.
pub svn_errno_t-within :
    (start i : ℕ) (s : String) (v : ℕ)
    → get_elem? (svn_enum start) i ≡ some (s, v)
    → (start < v) × (v ≤ start + last_at_zero) × (v < start + 500000)
svn_errno_t-within start i s v e =
    let b = within-get start enum_at_zero i s v enum-within e in (b.0, b.1, omega arith)

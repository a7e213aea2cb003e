-- ===== src/PreserveLibraries/Extends.antt =====
-- Trees that grow: what a copy or a link adds, and what paths lead to afterwards.
use mathlib.Core.Bool.{false≢true}
use Prim.Native.String.{String}
use macstrop.Shared.Options.{>>=-some, some-bind}
use macstrop.Shared.{
  fun_ext, ℕ, zero, suc, ◌≡◌, ◌≢◌, refl, sym, ap, ◌∙◌, ◌⊎◌, subst, true, false, Option, none, some,
  inl, inr, Bool-cases, if◌then◌else◌,
}
use macstrop.PreserveLibraries.Tree.{
  Dir, current, previous, Loc, at, in_previous, Node, regular, link, Tree, follow, visit, resolve,
  max_symlinks, exists, permissions, loc_eq, loc_eq_iff, put, create, set_permissions,
}

-- No entry is gone, and none is changed.
abbrev pub Extends : Tree → Tree → Type 0
Extends t t' = (l : Loc) (n : Node) → t l ≡ some n → t' l ≡ some n

-- There is no dangling link.
abbrev pub IsSolid : Tree → Type 0
IsSolid t = (l : Loc) (n : Node) → t l ≡ some n → exists t l ≡ true

pub put-at : (t : Tree) (l : Loc) (n : Node) → put t l n l ≡ some n
unfolding put
put-at t l n = rw ((loc_eq_iff l l).1 refl) refl

-- An entry other than the one put is the old one.
pub put-cases :
    (t : Tree) (l : Loc) (n : Node) (q : Loc) (m : Node)
    → put t l n q ≡ some m
    → ((l ≡ q) × (n ≡ m)) ⊎ (t q ≡ some m)
unfolding put
put-cases t l n q m e = elim (Bool-cases (loc_eq l q)) [
  | inl same ↦ inl ((loc_eq_iff l q).0 same, cc (ap (λ b. if b then some n else t q) same))
  | inr other ↦ inr (rw other at e)
]

pub put-Extends : (t : Tree) (l : Loc) (n : Node) → t l ≡ none → Extends t (put t l n)
unfolding put
put-Extends t l n new q m e = elim (Bool-cases (loc_eq l q)) [
  | inl same ↦
      let here : t l ≡ some m = subst (λ x. t x ≡ some m) (sym ((loc_eq_iff l q).0 same)) e in cc
  | inr other ↦ rw other e
]

visit-monotone :
    (again again' : Loc → Option Node) (d : Dir) (m n : Node)
    → ((l : Loc) (n : Node) → again l ≡ some n → again' l ≡ some n)
    → visit again d m ≡ some n
    → visit again' d m ≡ some n
visit-monotone again again' d (regular c p) n h e = e
visit-monotone again again' d (link to) n h e =
    let (l, f, e') = some-bind (follow d to) again e in >>=-some (follow d to) again' l f ∙ h l n e'

-- A path leads on in a larger tree to where it led.
pub resolve-Extends :
    (k : ℕ) (t t' : Tree) (l : Loc) (n : Node)
    → Extends t t'
    → resolve k t l ≡ some n
    → resolve k t' l ≡ some n
unfolding resolve
resolve-Extends zero t t' l n h e = cc
resolve-Extends (suc k) t t' l n h e =
    let (m, f, e') = some-bind (t l) (visit (resolve k t) l.dir) e in
    >>=-some (t' l) (visit (resolve k t') l.dir) m (h l m f)
    ∙ visit-monotone (resolve k t) (resolve k t') l.dir m n
        (λ l' n'. resolve-Extends k t t' l' n' h) e'

pub exists-resolve :
    (t : Tree) (l : Loc) (n : Node) → resolve max_symlinks t l ≡ some n → exists t l ≡ true
unfolding exists
exists-resolve t l n e = ap (λ x. elim x [ none ↦ false | some m ↦ true ]) e

pub resolve-exists :
    (t : Tree) (l : Loc) → exists t l ≡ true → (n : Node) × (resolve max_symlinks t l ≡ some n)
unfolding exists
resolve-exists t l e = go (resolve max_symlinks t l) e
  where
    go :
        (x : Option Node)
        → elim x [ none ↦ false | some m ↦ true ] ≡ true
        → (n : Node) × (x ≡ some n)
    go none h = cc
    go (some n) h = (n, refl)

pub exists-Extends : (t t' : Tree) (l : Loc) → Extends t t' → exists t l ≡ true → exists t' l ≡ true
exists-Extends t t' l h e =
    let (n, f) = resolve-exists t l e in
    exists-resolve t' l n (resolve-Extends max_symlinks t t' l n h f)

-- What a path finds has an entry.
pub exists-entry : (t : Tree) (l : Loc) → exists t l ≡ true → (n : Node) × (t l ≡ some n)
unfolding resolve
exists-entry t l e =
    let (n, f) = resolve-exists t l e in
    let (m, g, _) = some-bind (t l) (visit (resolve 31 t) l.dir) f in (m, g)

pub exists-false : (t : Tree) (l : Loc) → IsSolid t → exists t l ≡ false → t l ≡ none
exists-false t l s e = go (t l) refl
  where
    go : (x : Option Node) → t l ≡ x → x ≡ none
    go none f = refl
    go (some n) f = absurd (false≢true (sym e ∙ s l n f))

pub put-IsSolid :
    (t : Tree) (l : Loc) (n m : Node)
    → IsSolid t
    → t l ≡ none
    → resolve max_symlinks (put t l n) l ≡ some m
    → IsSolid (put t l n)
put-IsSolid t l n m s new e q k f = elim (put-cases t l n q k f) [
  | inl (same, _) ↦ subst (λ x. exists (put t l n) x ≡ true) same (exists-resolve _ l m e)
  | inr old ↦ exists-Extends t (put t l n) q (put-Extends t l n new) (s q k old)
]

pub create-some : (t : Tree) (l : Loc) (n : Node) → t l ≡ none → create t l n ≡ some (put t l n)
unfolding create
create-some t l n e = ap (λ x. elim x [ none ↦ some (put t l n) | some _ ↦ none ]) e

put-put : (t : Tree) (l : Loc) (n : Node) → put (put t l n) l n ≡ put t l n
unfolding put
put-put t l n =
    fun_ext
      λ q. elim (Bool-cases (loc_eq l q)) [ inl same ↦ rw same refl | inr other ↦ rw other refl ]

-- To set the permissions that a copy has already changes nothing.
pub set_permissions-put :
    (t : Tree) (l : Loc) (c m : ℕ)
    → set_permissions (put t l (regular c m)) l m ≡ put t l (regular c m)
unfolding set_permissions
set_permissions-put t l c m =
    let t' : Tree = put t l (regular c m) in
    ap
      (λ x. elim x [
        | none ↦ t'
        | some (regular c' m') ↦ put t' l (regular c' m)
        | some (link to) ↦ t'
      ])
      (put-at t l (regular c m))
    ∙ put-put t l (regular c m)

pub resolve-regular :
    (t : Tree) (l : Loc) (c m : ℕ)
    → t l ≡ some (regular c m)
    → resolve max_symlinks t l ≡ some (regular c m)
unfolding resolve
resolve-regular t l c m e = >>=-some (t l) (visit (resolve 31 t) l.dir) (regular c m) e

pub permissions-regular :
    (t : Tree) (l : Loc) (c m : ℕ) → t l ≡ some (regular c m) → permissions t l ≡ some m
unfolding permissions
permissions-regular t l c m e =
    ap (λ x. elim x [ none ↦ none | some (regular c m) ↦ some m | some (link to) ↦ none ])
      (resolve-regular t l c m e)

-- An entry of the library directory that links to a preserved file leads to it.
pub resolve-link :
    (t : Tree) (p n : String) (c m : ℕ)
    → t (at current n) ≡ some (link (in_previous p n))
    → t (at (previous p) n) ≡ some (regular c m)
    → resolve max_symlinks t (at current n) ≡ some (regular c m)
unfolding resolve
resolve-link t p n c m e f =
    >>=-some (t (at current n)) (visit (resolve 31 t) current) (link (in_previous p n)) e
    ∙ >>=-some (t (at (previous p) n)) (visit (resolve 30 t) (previous p)) (regular c m) f

pub put-away : (t : Tree) (l : Loc) (n : Node) (q : Loc) → l ≢ q → put t l n q ≡ t q
unfolding put
put-away t l n q h = elim (Bool-cases (loc_eq l q)) [
  | inl same ↦ absurd (h ((loc_eq_iff l q).0 same))
  | inr other ↦ rw other refl
]

-- ===== src/KWindowInfo/Store.antt =====
-- The objects `KWindowInfo::Private` on a heap, and the monad in which the methods run. `none` is
-- a fault: a null or dangling pointer, CFRetain of NULL, or an overflow of the reference count.
use macstrop.Shared.{
  ℕ, Bool, Option, none, some, List, ◌∷◌, ◌≡◌, ◌≢◌, refl, inl, inr, ℤ, ◌==◌, if◌then◌else◌,
  Bool-cases, ==_iff, ==_of_ne,
}

abbrev pub Ptr : Type 0
Ptr = ℕ

abbrev pub null : Ptr
null = 0

-- `KWindowInfo::Private`. `axWin` is `m_axWin`, and so on.
pub record Private : Type 0 where
  pub ref : ℤ
  pub win : ℕ
  pub is_local : Bool
  pub name : List ℕ
  pub icon_spec : ℕ
  pub loaded_data : Bool
  pub ax_win : Ptr
  pub children : List Ptr
  pub parent : Ptr
  pub psn : ℕ
  pub pid : ℤ

-- The calls of Core Foundation that change the retain count of an object.
pub data CfCall : Type 0 where
  retain : Ptr → CfCall
  release : Ptr → CfCall
  copied : Ptr → CfCall

pub record World : Type 0 where
  pub heap : Ptr → Option Private
  pub calls : List CfCall

-- The newest call stands first.
abbrev pub log : CfCall → World → World
log c w = record w { calls = c ∷ w.calls }

abbrev pub update : (Ptr → Option Private) → Ptr → Option Private → Ptr → Option Private
update f p v q = if p == q then v else f q

abbrev pub write : World → Ptr → Option Private → World
write w p v = record w { heap = update w.heap p v }

abbrev pub Cmd : Type 0 → Type 0
Cmd A = World → Option (A × World)

abbrev pub pure : {A : Type 0} → A → Cmd A
pure a w = some (a, w)

abbrev pub fault : {A : Type 0} → Cmd A
fault w = none

infixl 5 ◌>>=◌ ◌>>◌
abbrev pub ◌>>=◌ : {A B : Type 0} → Cmd A → (A → Cmd B) → Cmd B
◌>>=◌ m f w = elim (m w) [ none ↦ none | some (a, w') ↦ f a w' ]

abbrev pub ◌>>◌ : {B : Type 0} → Cmd (Unit {0}) → Cmd B → Cmd B
m >> k = m >>= λ _. k

-- A fallible computation with no effect.
abbrev pub lift : {A : Type 0} → Option A → Cmd A
lift none w = none
lift (some a) w = some (a, w)

-- `d->…` through the null pointer is undefined.
abbrev pub load : Ptr → Cmd Private
load p w = if p == null then none else elim (w.heap p) [ none ↦ none | some o ↦ some (o, w) ]

-- A write to an object that `load` has found.
abbrev pub store : Ptr → Private → Cmd (Unit {0})
store p o w = some (tt, write w p (some o))

abbrev pub free : Ptr → Cmd (Unit {0})
free p w = some (tt, write w p none)

abbrev pub call : CfCall → Cmd (Unit {0})
call c w = some (tt, log c w)

-- A first command that succeeds hands its result and its world on.
pub bind-some :
    {A B : Type 0} (m : Cmd A) (f : A → Cmd B) (w w' : World) (a : A)
    → m w ≡ some (a, w')
    → (m >>= f) w ≡ f a w'
bind-some m f w w' a e = rw (e, ◌>>=◌) refl

pub load-some :
    (d : Ptr) (o : Private) (w : World) → d ≢ null → w.heap d ≡ some o → load d w ≡ some (o, w)
load-some d o w ne e = rw (load, ==_of_ne d null ne, e) refl

-- Writing what is there.
pub update_self :
    (h : Ptr → Option Private) (d : Ptr) (v : Option Private) (q : Ptr)
    → h d ≡ v
    → h q ≡ update h d v q
update_self h d v q e = elim (Bool-cases (d == q)) [
  | inl t ↦ rw (t, ← (==_iff d q).0 t) e
  | inr f ↦ rw f refl
]
